-- ===== src/Paper/Fill.antt =====
-- The two ways in which `PositionManager.execute_target_portfolio` (services/paper_trading/
-- position_manager.py) deals with a target: it skips it, or it opens a position. Alerts are left out:
-- they change no table.
use crypto_mas.Prelude.{Option, none, some, [], ◌∷◌, ◌++◌, if◌then◌else◌}
use crypto_mas.Numbers.{Numerics, ◌⊖◌, nought}
use crypto_mas.Domain.{
  Position, Store, Level, info, paper_broker, ExecutionStatus, executed, Reason, filled,
  TargetPosition, PaperExecutionItem,
}
use crypto_mas.Repository.Positions.{create_open_position}
use crypto_mas.Repository.Records.{record_trade_and_order, log_execution}
use crypto_mas.Paper.Calculator.{calculate_total_cost, calculate_sl_tp}
use crypto_mas.Paper.Session.{Broker, Call, Pass, opening_side}

module _ ⦃n : Numerics⦄ where
  open n use {Decimal, Float, quantize, to_float}

  -- What a skipped target reports, beside its symbol, side and weight.
  pub record Skip : Type 0 where
    pub status : ExecutionStatus
    pub notional : Float
    pub price : Option Float
    pub quantity : Option Float
    pub reason : Reason
    pub level : Level

  unfoldable pub skip : Broker → Call → TargetPosition → Skip → Pass → Pass
  unfolding log_execution
  skip b c t k s =
      let item : PaperExecutionItem = record {
        symbol = t.symbol;
        side = opening_side t.side;
        status = k.status;
        target_weight = t.target_weight;
        notional = k.notional;
        price = k.price;
        quantity = k.quantity;
        reason = k.reason;
      } in
      record s {
        store =
            log_execution b.is_backtest c.account_name k.level paper_broker c.cycle_id c.now
              s.store;
        skipped = s.skipped ++ item ∷ [];
      }

  -- The ATR of the higher timeframe. Its query names `time_provider.get_time`, which no time provider
  -- has: the AttributeError is caught, and the value stays None.
  abbrev pub entry_atr : Option Float
  entry_atr = none

  -- A price that an order can be filled at: none of the checks before the fill stops on it.
  pub record Fill : Type 0 where
    pub price : Decimal
    pub execution_price : Decimal
    pub quantity : Decimal
    pub notional : Decimal

  -- The position that an order opens.
  unfoldable pub open_row : Broker → Call → TargetPosition → Fill → Store → Position × Store
  unfolding create_open_position
  open_row b c t f s =
      let (sl, tp) =
        calculate_sl_tp b.calculator f.price t.side entry_atr t.sl_mult_override
          t.tp_mult_override in
      create_open_position c.account_name c.exchange t.symbol f.quantity f.price f.notional c.now
        (some sl) (some tp) (some b.calculator.strategy_mode) t.side s

  -- The position, its trade and order, the cash and the report of an order that is filled.
  unfoldable pub fill : Broker → Call → TargetPosition → Fill → Pass → Pass
  unfolding open_row record_trade_and_order log_execution
  fill b c t f s =
      let (total, fee) = calculate_total_cost b.calculator f.notional in
      let (position, created) = open_row b c t f s.store in
      let recorded =
        record_trade_and_order c.account_name c.exchange t.symbol (opening_side t.side) f.quantity
          f.execution_price f.notional (nought ⊖ fee)
          (if b.is_backtest then none else some position.id) c.cycle_id c.now created in
      let item : PaperExecutionItem = record {
        symbol = t.symbol;
        side = opening_side t.side;
        status = executed;
        target_weight = t.target_weight;
        notional = to_float f.notional;
        price = some (to_float f.execution_price);
        quantity = some (to_float f.quantity);
        reason = filled;
      } in
      record s {
        store =
            log_execution b.is_backtest c.account_name info paper_broker c.cycle_id c.now recorded;
        cash = quantize (s.cash ⊖ total);
        executed = s.executed ++ item ∷ [];
      }
