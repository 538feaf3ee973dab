-- ===== src/Paper/Tests.antt =====
-- A paper account of ten thousand that opens, marks and closes positions in two symbols, one of them
-- named twice. The numbers are those of `Numbers.Fixed`.
mod Orders
mod Positions
use crypto_mas.Paper.Valuation.{open_positions_value}
use crypto_mas.Repository.Accounts.{set_balances, get_by_name}
use crypto_mas.Paper.Close.{is_kept, close_positions_not_in_target}
use crypto_mas.Paper.Mark.{update_mark_prices}
use crypto_mas.Repository.Positions.Listing.{KeysUnique}
use crypto_mas.Paper.Fill.{skip, fill}
use crypto_mas.Repository.Records.{get_latest}
use crypto_mas.Paper.Calculator.{
  calculate_pnl, calculate_exit_price, friction, calculate_quantity, calculate_execution_price, new,
  calculate_total_cost, calculate_target_notional, is_thin_liquidity_or_excessive_spread,
  extract_close_price,
}
use crypto_mas.Repository.Positions.{
  list_open_positions, get_whipsaw_cooldown_symbols, get_recent_stop_loss_symbols,
  get_open_position,
}
use crypto_mas.Prelude.{
  arith, ◌*◌, ℕ, ◌≡◌, ◌≢◌, refl, Bool, true, false, Option, none, some, List, [], ◌∷◌, ◌++◌, String,
  length, ◌+◌, All, ◌^◌,
}
use crypto_mas.Prelude.Int.{ℤ, pos}
use crypto_mas.Numbers.{Numerics, nought, ◌≤?◌}
use crypto_mas.Numbers.Fixed.{fixed, fixed-IsOrdered, literal}
use crypto_mas.Domain.{
  no_features, long, short, swing, Position, PaperAccount, Features, FeatureSnapshot,
  TargetPosition, PortfolioTarget, PaperExecutionReport, Store, opened, PositionSide,
}
use crypto_mas.Repository.Positions.Queries.{OneOpen}
use crypto_mas.Paper.Session.{for_each, Broker, new_broker, Call, Outcome, ok, raised}
use crypto_mas.Paper.Execute.{execute_target_portfolio, limits}
use crypto_mas.Paper.Execute.Book.{IsNew}
use crypto_mas.Paper.Execute.Results.{execute_adds_positions, execute-OneOpen, execute_no_overdraft}

abbrev pub broker : Broker
broker = new_broker swing false

abbrev pub call : Call
call = record {
  account_name = "swing";
  exchange = "binance";
  timeframe = "1h";
  cycle_id = none;
  now = 600_000_000;
}

abbrev pub account : PaperAccount
account = record {
  name = "swing";
  exchange = "binance";
  base_currency = "USDT";
  initial_balance = literal 10_000 0;
  cash_balance = literal 10_000 0;
  equity = literal 10_000 0;
}

abbrev pub snapshot : String → ℕ → FeatureSnapshot
snapshot symbol price = record {
  exchange = "binance";
  symbol = symbol;
  timeframe = "1h";
  timestamp = 500_000_000;
  features = record no_features {
    close = some (literal price 0);
    high = some (literal price 0);
    low = some (literal price 0);
  };
}

abbrev pub store : Store
store = record {
  accounts = account ∷ [];
  positions = [];
  next_position = 1;
  trades = [];
  next_trade = 1;
  orders = [];
  next_order = 1;
  logs = [];
  snapshots = snapshot "BTCUSDT" 100 ∷ snapshot "ETHUSDT" 50 ∷ [];
}

abbrev pub wanted : String → PositionSide → TargetPosition
wanted symbol side = record {
  symbol = symbol;
  side = side;
  target_weight = literal 2 1;
  confidence = literal 1 0;
  final_score = literal 1 0;
  sl_mult_override = none;
  tp_mult_override = none;
}

abbrev pub target : PortfolioTarget
target = record {
  exchange = "binance";
  timeframe = "1h";
  target_positions = wanted "BTCUSDT" long ∷ wanted "ETHUSDT" short ∷ wanted "BTCUSDT" short ∷ [];
  cash_weight = literal 4 1;
  gross_exposure = literal 6 1;
  created_at = 600_000_000;
  close_reasons = [];
}

-- The report and the tables that a call ends with; those it began with, if it raised.
abbrev pub end_of : Store → Outcome (PaperExecutionReport × Store) → PaperExecutionReport × Store
end_of s (ok r) = r
end_of s (raised _) = (blank, s)
  where
    blank : PaperExecutionReport
    blank = record {
      account_name = "";
      exchange = "";
      starting_cash = literal 0 0;
      ending_cash = literal 0 0;
      starting_equity = literal 0 0;
      ending_equity = literal 0 0;
      executed = [];
      skipped = [];
      created_at = 0;
    }

-- Positions that were opened at 100 and at 50, and the prices that they meet.
abbrev pub position : ℕ → String → PositionSide → ℕ → ℕ → ℕ → Position
position id symbol side price stop goal = record {
  id = id;
  account_name = "swing";
  exchange = "binance";
  symbol = symbol;
  side = side;
  status = opened;
  quantity = literal 20 0;
  entry_price = literal price 0;
  current_price = literal price 0;
  notional_value = literal (20 * price) 0;
  unrealized_pnl = literal 0 0;
  realized_pnl = literal 0 0;
  stop_loss_price = some (literal stop 0);
  take_profit_price = some (literal goal 0);
  strategy_mode = some swing;
  opened_at = 1;
  closed_at = none;
  close_reason = none;
}

abbrev pub btc : Position
btc = position 1 "BTCUSDT" long 100 97 120

abbrev pub eth : Position
eth = position 2 "ETHUSDT" short 50 52 40

abbrev pub moved : Store
moved = record store {
  positions = btc ∷ eth ∷ [];
  next_position = 3;
  snapshots = snapshot "BTCUSDT" 110 ∷ snapshot "ETHUSDT" 53 ∷ [];
}
