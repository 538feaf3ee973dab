-- ===== src/Paper/Close.antt =====
-- `PositionManager.close_positions_not_in_target` of services/paper_trading/position_manager.py, and
-- what it shares with a stop: the sale of a position. Alerts are left out: they change no table.
pub mod Rounds
pub mod Results
pub mod Returns
use crypto_mas.Prelude.{
  false, Bool, Option, none, some, List, [], ◌∷◌, ◌++◌, String, str_eq, if◌then◌else◌,
}
use crypto_mas.Numbers.{Numerics, ◌⊕◌, ◌⊖◌, ◌⊗◌, ◌≤?◌, nought}
use crypto_mas.Domain.{
  same_side, CloseReason, portfolio_engine, strategy, Level, info, warning, paper_broker, executed,
  skipped, Reason, no_price, still_in_target, not_in_target, Position, PaperAccount, TargetPosition,
  PortfolioTarget, PaperExecutionItem, PaperExecutionReport, Store,
}
use crypto_mas.Repository.Positions.{list_open_positions, save, close_position}
use crypto_mas.Repository.Records.{get_latest, record_trade_and_order, log_execution}
use crypto_mas.Paper.Calculator.{
  RiskCalculator, extract_close_price, calculate_exit_price, calculate_pnl, calculate_fee,
}
use crypto_mas.Paper.Session.{
  Broker, Call, Pass, Outcome, ok, ◌>>=◌, for_each, or_raise, closing_side,
}
use crypto_mas.Paper.Execute.{settle}

module _ ⦃n : Numerics⦄ where
  open n use {Decimal, Float, quantize, to_float, float_lit}

  -- The figures of a sale: the price after slippage, the gain before and after the fee, what the
  -- position fetched and what comes back to the cash.
  pub record Sale : Type 0 where
    pub execution_price : Decimal
    pub raw_pnl : Decimal
    pub gross : Decimal
    pub fee : Decimal
    pub net : Decimal

  unfoldable pub sale_of : RiskCalculator → Position → Decimal → Decimal → Sale
  sale_of c p execution_price raw_pnl =
      let gross = quantize (p.quantity ⊗ execution_price) in
      let fee = calculate_fee c gross in
      record {
        execution_price = execution_price;
        raw_pnl = raw_pnl;
        gross = gross;
        fee = fee;
        net = quantize (p.quantity ⊗ p.entry_price ⊕ raw_pnl ⊖ fee);
      }

  -- The row of a position that is sold: `close_position`, and then `realized_pnl -= fee`.
  unfoldable pub sold : Call → Position → Sale → CloseReason → Position
  unfolding close_position
  sold c p sale reason =
      let closed = close_position p sale.execution_price c.now reason in
      record closed { realized_pnl = closed.realized_pnl ⊖ sale.fee }

  unfoldable pub book_sale : Call → Position → Sale → CloseReason → Store → Store
  unfolding sold save record_trade_and_order
  book_sale c p sale reason s =
      let row = sold c p sale reason in
      record_trade_and_order c.account_name c.exchange p.symbol (closing_side p.side) p.quantity
        sale.execution_price sale.gross row.realized_pnl (some p.id) c.cycle_id c.now (save row s)

  -- `next((p for p in target_positions if p.symbol == symbol), None)`
  unfoldable pub find_target : String → List TargetPosition → Option TargetPosition
  find_target symbol [] = none
  find_target symbol (t ∷ ts) = if str_eq t.symbol symbol then some t else find_target symbol ts

  -- The target still wants this position, on the same side.
  unfoldable pub is_kept : List TargetPosition → Position → Bool
  unfolding find_target
  is_kept ts p = elim (find_target p.symbol ts) [ none ↦ false | some t ↦ same_side t.side p.side ]

  -- `metadata["close_reasons"].get(symbol)`, if it is set and not empty.
  pub find_reason : String → List (String × String) → CloseReason
  find_reason symbol [] = portfolio_engine
  find_reason symbol ((key, text) ∷ rest) =
      if str_eq key symbol
      then (if str_eq text "" then portfolio_engine else strategy text)
      else find_reason symbol rest

  -- The latest close, or else the price of the last mark; `none` where neither is positive.
  pub closing_price : Position → Option Decimal → Option Decimal
  closing_price p close = elim close [ none ↦ last | some x ↦ if x ≤? nought then last else some x ]
    where
      last : Option Decimal
      last = if p.current_price ≤? nought then none else some p.current_price

  unfoldable pub keep : Broker → Call → Position → Option Float → Reason → Level → Pass → Pass
  unfolding log_execution
  keep b c p price reason level s =
      let item : PaperExecutionItem = record {
        symbol = p.symbol;
        side = closing_side p.side;
        status = skipped;
        target_weight = float_lit 0 0;
        notional = to_float p.notional_value;
        price = price;
        quantity = some (to_float p.quantity);
        reason = reason;
      } in
      record s {
        store =
            log_execution b.is_backtest c.account_name level paper_broker c.cycle_id c.now s.store;
        skipped = s.skipped ++ item ∷ [];
      }

  unfoldable pub sell : Broker → Call → Position → Sale → CloseReason → Pass → Pass
  unfolding book_sale log_execution
  sell b c p sale reason s =
      let item : PaperExecutionItem = record {
        symbol = p.symbol;
        side = closing_side p.side;
        status = executed;
        target_weight = float_lit 0 0;
        notional = to_float sale.net;
        price = some (to_float sale.execution_price);
        quantity = some (to_float p.quantity);
        reason = not_in_target;
      } in
      record s {
        store =
            log_execution b.is_backtest c.account_name info paper_broker c.cycle_id c.now
              (book_sale c p sale reason s.store);
        cash = quantize (s.cash ⊕ sale.net);
        executed = s.executed ++ item ∷ [];
      }

  -- The figures, or the exception of a division by zero.
  unfoldable pub price_sale : RiskCalculator → Position → Decimal → Store → Outcome Sale
  price_sale c p price s = do
    execution_price ← or_raise (calculate_exit_price c price p.side none false) s
    pnl ← or_raise (calculate_pnl p.entry_price execution_price p.quantity p.side) s
    ok (sale_of c p execution_price pnl.0)

  -- The body of the loop.
  pub close_one : Broker → Call → PortfolioTarget → Position → Pass → Outcome Pass
  unfolding keep sell price_sale
  close_one b c target p s =
      let close =
        extract_close_price (get_latest c.exchange p.symbol c.timeframe c.now s.store.snapshots) in
      if is_kept target.target_positions p
      then ok (keep b c p (some (to_float p.current_price)) still_in_target info s)
      else elim (closing_price p close) [
        | none ↦ ok (keep b c p none no_price warning s)
        | some price ↦ price_sale b.calculator p price s.store >>= λ sale.
            ok (sell b c p sale (find_reason p.symbol target.close_reasons) s)
      ]

  unfoldable pub close_positions_not_in_target :
      Broker
      → Call
      → PaperAccount
      → PortfolioTarget
      → Store
      → Outcome (PaperExecutionReport × Store)
  unfolding close_one
  close_positions_not_in_target b c account target s =
      for_each (close_one b c target) (list_open_positions c.account_name s.positions)
        (record { store = s; cash = account.cash_balance; executed = []; skipped = [] })
      >>= λ done. ok (settle c account done)
