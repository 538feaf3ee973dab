-- ===== src/Paper/Mark.antt =====
-- `MarkToMarket.update_mark_prices` of services/paper_trading/mark_to_market.py. Alerts are left out:
-- they change no table.
pub mod Stops
pub mod Levels
pub mod Rounds
pub mod Results
pub mod Returns
use mathlib.Core.Option
use crypto_mas.Prelude.{
  Bool, true, false, ◌&&◌, ◌||◌, Option, none, some, List, [], ◌∷◌, ◌++◌, if◌then◌else◌,
}
use crypto_mas.Numbers.{Numerics, ◌⊕◌, ◌⊖◌, ◌⊗◌, ◌≤?◌, ◌<?◌, nought, one}
use crypto_mas.Domain.{
  is_long, buy, CloseReason, stop_loss, take_profit, Level, info, warning, warn, success,
  paper_broker, trailing_sl, sl_tp, executed, skipped, Reason, no_price, stopped, took_profit,
  marked, Position, PaperAccount, FeatureSnapshot, PaperExecutionItem, PaperExecutionReport, Store,
}
use crypto_mas.Repository.Positions.{list_open_positions, save, update_mark_price, update_stop_loss}
use crypto_mas.Repository.Accounts.{set_cash}
use crypto_mas.Repository.Records.{get_latest, log_execution}
use crypto_mas.Paper.Calculator.{
  RiskCalculator, extract_close_price, sl_pct, positive, lowered_by, raised_by, friction,
}
use crypto_mas.Paper.Session.{
  Broker, Call, Pass, Outcome, ok, ◌>>=◌, for_each, or_raise, opening_side, closing_side,
}
use crypto_mas.Paper.Execute.{settle}
use crypto_mas.Paper.Close.{Sale, price_sale, book_sale}

module _ ⦃n : Numerics⦄ where
  open n use {Decimal, Float, lit, quantize, quotient, to_decimal, to_float, float_lit}

  -- The distance of the trailing stop before gains tighten it: twice the ATR, or the fixed percentage.
  pub base_pct : RiskCalculator → Decimal → Option Float → Decimal
  base_pct c price atr = elim (positive atr) [
    | none ↦ sl_pct c.strategy_mode
    | some a ↦ to_decimal (n.float_mul (n.float_div a (to_float price)) (float_lit 20 1))
  ]

  -- A gain above 2 % halves the distance, one above 1 % takes a quarter off.
  pub tightened : Decimal → Decimal → Decimal
  tightened pct gain =
      if lit 2 2 <? gain then pct ⊗ lit 5 1 else if lit 1 2 <? gain then pct ⊗ lit 75 2 else pct

  -- `none` is the exception of an entry price of zero.
  pub trailing_pct : RiskCalculator → Position → Decimal → Option Float → Option Decimal
  unfolding base_pct tightened
  trailing_pct c p price atr =
      let gain = if is_long p.side then price ⊖ p.entry_price else p.entry_price ⊖ price in
      Option.map (tightened (base_pct c price atr)) (quotient gain p.entry_price)

  pub potential_stop : Position → Decimal → Decimal → Decimal
  potential_stop p price pct = if is_long p.side then lowered_by price pct else raised_by price pct

  -- `a` is nearer to the market than `b`: above it for a long position, below it for a short one.
  abbrev pub nearer : Position → Decimal → Decimal → Bool
  nearer p a b = if is_long p.side then b <? a else a <? b

  -- The stop moves if it is set for the first time or comes nearer, and the price is past break-even.
  pub is_trailed : RiskCalculator → Position → Decimal → Decimal → Bool
  unfolding potential_stop
  is_trailed c p price pct =
      let even = p.entry_price ⊗ (if is_long p.side then one ⊕ friction c else one ⊖ friction c) in
      (elim p.stop_loss_price [ none ↦ true | some sl ↦ nearer p (potential_stop p price pct) sl ])
      && nearer p price even

  unfoldable pub trail : RiskCalculator → Position → Decimal → Decimal → Position
  unfolding is_trailed update_stop_loss
  trail c p price pct =
      if is_trailed c p price pct then update_stop_loss p (potential_stop p price pct) else p

  pub is_stopped : Position → Decimal → Bool
  is_stopped p price = elim p.stop_loss_price [
    | none ↦ false
    | some sl ↦ if is_long p.side then price ≤? sl else sl ≤? price
  ]

  pub takes_profit : Position → Decimal → Bool
  takes_profit p price = elim p.take_profit_price [
    | none ↦ false
    | some tp ↦ if is_long p.side then tp ≤? price else price ≤? tp
  ]

  unfoldable pub pass_over : Broker → Call → Position → Pass → Pass
  unfolding log_execution
  pass_over b c p s =
      let item : PaperExecutionItem = record {
        symbol = p.symbol;
        side = opening_side p.side;
        status = skipped;
        target_weight = float_lit 0 0;
        notional = to_float p.notional_value;
        price = none;
        quantity = some (to_float p.quantity);
        reason = no_price;
      } in
      record s {
        store =
            log_execution b.is_backtest c.account_name warning paper_broker c.cycle_id c.now
              s.store;
        skipped = s.skipped ++ item ∷ [];
      }

  -- The report of a position that stays open always says BUY.
  unfoldable pub mark_only : Broker → Call → Position → Pass → Pass
  unfolding log_execution
  mark_only b c p s =
      let item : PaperExecutionItem = record {
        symbol = p.symbol;
        side = buy;
        status = executed;
        target_weight = float_lit 0 0;
        notional = to_float p.notional_value;
        price = some (to_float p.current_price);
        quantity = some (to_float p.quantity);
        reason = marked;
      } in
      record s {
        store =
            log_execution b.is_backtest c.account_name info paper_broker c.cycle_id c.now s.store;
        executed = s.executed ++ item ∷ [];
      }

  -- The sale at a stop or a target; the cash is written at once.
  unfoldable pub exit : Broker → Call → Position → Sale → Bool → Bool → Pass → Pass
  unfolding book_sale set_cash log_execution
  exit b c p sale sl_hit tp_hit s =
      let reason = if sl_hit then stop_loss else take_profit in
      let cash = quantize (s.cash ⊕ sale.net) in
      let item : PaperExecutionItem = record {
        symbol = p.symbol;
        side = closing_side p.side;
        status = executed;
        target_weight = float_lit 0 0;
        notional = to_float sale.net;
        price = some (to_float sale.execution_price);
        quantity = some (to_float p.quantity);
        reason = if sl_hit then stopped else took_profit;
      } in
      record s {
        store =
            log_execution b.is_backtest c.account_name (if tp_hit then success else warn) sl_tp
              c.cycle_id c.now (set_cash c.account_name cash (book_sale c p sale reason s.store));
        cash = cash;
        executed = s.executed ++ item ∷ [];
      }

  -- `updated`, the position at its new price and stop, is stored; the move of a stop is logged.
  unfoldable pub store_marked : Broker → Call → Bool → Position → Pass → Pass
  unfolding save log_execution
  store_marked b c trailed p s =
      let saved = save p s.store in
      record s {
        store =
            if trailed
            then log_execution b.is_backtest c.account_name info trailing_sl c.cycle_id c.now saved
            else saved;
      }

  pub sell_out : Broker → Call → Position → Decimal → Pass → Outcome Pass
  unfolding exit
  sell_out b c p price s = price_sale b.calculator p price s.store >>= λ sale.
      ok (exit b c p sale (is_stopped p price) (takes_profit p price) s)

  -- The position has its new price; it moves its stop and is sold or kept.
  pub follow : Broker → Call → Position → Decimal → Option Float → Pass → Outcome Pass
  unfolding trailing_pct trail is_stopped takes_profit store_marked sell_out mark_only
  follow b c p price atr s = do
    pct ← or_raise (trailing_pct b.calculator p price atr) (save p s.store)
    let q = trail b.calculator p price pct
    let u = store_marked b c (is_trailed b.calculator p price pct) q s
    if is_stopped q price || takes_profit q price
        then sell_out b c q price u
        else ok (mark_only b c q u)

  abbrev pub atr_of : Option FeatureSnapshot → Option Float
  atr_of none = none
  atr_of (some x) = x.features.atr_14

  -- The body of the loop.
  pub mark_one : Broker → Call → Position → Pass → Outcome Pass
  unfolding follow pass_over update_mark_price
  mark_one b c p s =
      let snapshot = get_latest c.exchange p.symbol c.timeframe c.now s.store.snapshots in
      elim (extract_close_price snapshot) [
        | none ↦ ok (pass_over b c p s)
        | some price ↦
            if price ≤? nought
            then ok (pass_over b c p s)
            else follow b c (update_mark_price p price) price (atr_of snapshot) s
      ]

  unfoldable pub update_mark_prices :
      Broker → Call → PaperAccount → Store → Outcome (PaperExecutionReport × Store)
  unfolding mark_one
  update_mark_prices b c account s =
      for_each (mark_one b c) (list_open_positions c.account_name s.positions)
        (record { store = s; cash = account.cash_balance; executed = []; skipped = [] })
      >>= λ done. ok (settle c account done)
