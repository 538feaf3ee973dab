-- ===== src/Repository/Records.antt =====
-- The rows that are only added: domain/repositories/{trade,order,execution_log,
-- feature_snapshot}_repository.py and services/paper_trading/execution_reporter.py.
use crypto_mas.Prelude.{
  ℕ, ◌+◌, Bool, ◌&&◌, Option, none, some, List, [], ◌∷◌, ◌++◌, String, leb, ltb, str_eq,
  if◌then◌else◌, filter,
}
use crypto_mas.Numbers.{Numerics}
use crypto_mas.Domain.{
  TradeSide, Level, Stage, Trade, OrderRow, ExecutionLog, FeatureSnapshot, Store,
}

module _ ⦃n : Numerics⦄ where
  open n use {Decimal}

  -- The row of the latest time; the first of those that share it.
  abbrev pub later : FeatureSnapshot → Option FeatureSnapshot → FeatureSnapshot
  later a none = a
  later a (some b) = if ltb a.timestamp b.timestamp then b else a

  unfoldable pub latest : List FeatureSnapshot → Option FeatureSnapshot
  latest [] = none
  latest (a ∷ rest) = some (later a (latest rest))

  unfoldable pub get_latest :
      String → String → String → ℕ → List FeatureSnapshot → Option FeatureSnapshot
  unfolding latest
  get_latest exchange symbol timeframe end_time rows = latest (
      filter
        (λ r.
          str_eq r.exchange exchange
          && str_eq r.symbol symbol
          && str_eq r.timeframe timeframe
          && leb r.timestamp end_time)
        rows)

  unfoldable pub record_trade_and_order :
      String
      → String
      → String
      → TradeSide
      → Decimal
      → Decimal
      → Decimal
      → Decimal
      → Option ℕ
      → Option ℕ
      → ℕ
      → Store
      → Store
  record_trade_and_order account exchange symbol side quantity price notional pnl position cycle now
        s =
      let trade : Trade = record {
        id = s.next_trade;
        account_name = account;
        exchange = exchange;
        symbol = symbol;
        side = side;
        quantity = quantity;
        price = price;
        notional = notional;
        realized_pnl = pnl;
        position_id = position;
        cycle_id = cycle;
        executed_at = now;
      } in
      let order : OrderRow = record {
        id = s.next_order;
        account_name = account;
        exchange = exchange;
        symbol = symbol;
        side = side;
        requested_quantity = quantity;
        filled_quantity = quantity;
        filled_price = price;
        trade_id = trade.id;
      } in
      record s {
        trades = s.trades ++ trade ∷ [];
        next_trade = s.next_trade + 1;
        orders = s.orders ++ order ∷ [];
        next_order = s.next_order + 1;
      }

  -- A backtest writes no log rows.
  unfoldable pub log_execution : Bool → String → Level → Stage → Option ℕ → ℕ → Store → Store
  log_execution is_backtest account level stage cycle now s =
      let log : ExecutionLog = record {
        account_name = account;
        cycle_id = cycle;
        level = level;
        stage = stage;
        created_at = now;
      } in
      record s { logs = if is_backtest then s.logs else s.logs ++ log ∷ [] }
