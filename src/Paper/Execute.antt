-- ===== src/Paper/Execute.antt =====
-- `PositionManager.execute_target_portfolio` of services/paper_trading/position_manager.py. Alerts are
-- left out: they change no table.
pub mod Steps
pub mod Book
pub mod Results
pub mod Returns
use crypto_mas.Prelude.{
  Bool, false, ◌||◌, Option, none, some, List, [], ◌∷◌, String, str_eq, any, if◌then◌else◌,
}
use crypto_mas.Numbers.{Numerics, ◌≤?◌, ◌<?◌, nought}
use crypto_mas.Domain.{
  info, warning, skipped, rejected, already_open, stop_loss_cooldown, whipsaw_cooldown, no_price,
  thin_liquidity, no_notional, no_cash, PaperAccount, FeatureSnapshot, TargetPosition,
  PortfolioTarget, PaperExecutionReport, Store,
}
use crypto_mas.Repository.Positions.{
  get_open_position, get_recent_stop_loss_symbols, get_whipsaw_cooldown_symbols,
}
use crypto_mas.Repository.Accounts.{update_balances}
use crypto_mas.Repository.Records.{get_latest}
use crypto_mas.Paper.Calculator.{
  extract_close_price, is_thin_liquidity_or_excessive_spread, calculate_target_notional,
  calculate_total_cost, calculate_execution_price, calculate_quantity,
}
use crypto_mas.Paper.Session.{Broker, Call, Pass, Outcome, ok, ◌>>=◌, for_each, or_raise}
use crypto_mas.Paper.Fill.{Skip, skip, fill}
use crypto_mas.Paper.Valuation.{open_positions_value}

module _ ⦃n : Numerics⦄ where
  open n use {Decimal, Float, quantize, to_float, float_lit}

  -- What is fixed before the loop: the starting equity and the two sets of cooled-down symbols.
  pub record Limits : Type 0 where
    pub equity : Decimal
    pub stopped : List String
    pub whipsawed : List String

  abbrev pub contains : String → List String → Bool
  contains symbol = any (λ s. str_eq s symbol)

  -- The order is priced; `raised` is a division by zero.
  pub place : Broker → Call → TargetPosition → Decimal → Decimal → Pass → Outcome Pass
  place b c t price notional s = do
    execution_price ←
        or_raise (calculate_execution_price b.calculator price t.side none false) s.store
    quantity ← or_raise (calculate_quantity notional execution_price) s.store
    ok (
        fill b c t
          (record {
            price = price;
            execution_price = execution_price;
            quantity = quantity;
            notional = notional;
          })
          s)

  -- The checks on the size of an order.
  pub check_size : Broker → Call → Limits → TargetPosition → Decimal → Pass → Outcome Pass
  unfolding place
  check_size b c l t price s =
      let notional = calculate_target_notional t.target_weight l.equity in
      let (total, fee) = calculate_total_cost b.calculator notional in
      if notional ≤? nought
      then ok (
          skip b c t
            (record {
              status = skipped;
              notional = to_float notional;
              price = some (to_float price);
              quantity = none;
              reason = no_notional;
              level = info;
            })
            s)
      else if s.cash <? total
      then ok (
          skip b c t
            (record {
              status = rejected;
              notional = to_float total;
              price = some (to_float price);
              quantity = none;
              reason = no_cash;
              level = warning;
            })
            s)
      else place b c t price notional s

  -- The checks on the market.
  pub check_market :
      Broker → Call → Limits → TargetPosition → Option FeatureSnapshot → Pass → Outcome Pass
  unfolding check_size
  check_market b c l t snapshot s = elim (extract_close_price snapshot) [
    | none ↦ ok (skip b c t unpriced s)
    | some p ↦
        if p ≤? nought
        then ok (skip b c t unpriced s)
        else if is_thin_liquidity_or_excessive_spread snapshot
        then ok (
            skip b c t
              (record {
                status = skipped;
                notional = float_lit 0 0;
                price = some (to_float p);
                quantity = some (float_lit 0 0);
                reason = thin_liquidity;
                level = warning;
              })
              s)
        else check_size b c l t p s
  ]
    where
      unpriced : Skip
      unpriced = record {
        status = skipped;
        notional = float_lit 0 0;
        price = none;
        quantity = none;
        reason = no_price;
        level = warning;
      }

  -- The body of the loop.
  pub execute_one : Broker → Call → Limits → TargetPosition → Pass → Outcome Pass
  unfolding check_market
  execute_one b c l t s =
      elim (get_open_position c.account_name c.exchange t.symbol s.store.positions) [
        | some p ↦ ok (
            skip b c t
              (record {
                status = skipped;
                notional = float_lit 0 0;
                price = some (to_float p.current_price);
                quantity = some (to_float p.quantity);
                reason = already_open;
                level = info;
              })
              s)
        | none ↦
            if contains t.symbol l.stopped || contains t.symbol l.whipsawed
            then ok (
                skip b c t
                  (record {
                    status = skipped;
                    notional = float_lit 0 0;
                    price = none;
                    quantity = none;
                    reason =
                        if contains t.symbol l.stopped
                        then stop_loss_cooldown
                        else whipsaw_cooldown;
                    level = warning;
                  })
                  s)
            else check_market b c l t
                (get_latest c.exchange t.symbol c.timeframe c.now s.store.snapshots) s
      ]

  pub limits : Call → PaperAccount → Store → Limits
  limits c account s = record {
    equity = account.equity;
    stopped = get_recent_stop_loss_symbols c.account_name c.exchange c.now 120 s.positions;
    whipsawed = get_whipsaw_cooldown_symbols c.account_name c.exchange c.now 2 2880 s.positions;
  }

  -- The balances and the report that end a pass.
  unfoldable pub settle : Call → PaperAccount → Pass → PaperExecutionReport × Store
  unfolding update_balances
  settle c account s =
      let equity = quantize (n.add s.cash (open_positions_value c.account_name s.store)) in
      (
        record {
          account_name = c.account_name;
          exchange = c.exchange;
          starting_cash = to_float account.cash_balance;
          ending_cash = to_float s.cash;
          starting_equity = to_float account.equity;
          ending_equity = to_float equity;
          executed = s.executed;
          skipped = s.skipped;
          created_at = c.now;
        },
        update_balances c.account_name s.cash equity s.store,
      )

  unfoldable pub execute_target_portfolio :
      Broker
      → Call
      → PaperAccount
      → PortfolioTarget
      → Store
      → Outcome (PaperExecutionReport × Store)
  unfolding execute_one limits settle
  execute_target_portfolio b c account target s =
      for_each (execute_one b c (limits c account s)) target.target_positions
        (record { store = s; cash = account.cash_balance; executed = []; skipped = [] })
      >>= λ done. ok (settle c account done)
