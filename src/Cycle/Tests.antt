-- ===== src/Cycle/Tests.antt =====
-- A cycle over three symbols, of which one is open and one has no features, with a strategy that always buys.
mod Agents
mod Unexecuted
use crypto_mas.Repository.Records.{get_latest}
use crypto_mas.Repository.Accounts.{get_by_name}
use crypto_mas.Paper.Session.{for_each}
use crypto_mas.Portfolio.Selection.{retained_symbols, new_candidates}
use crypto_mas.Paper.Calculator.{extract_close_price, new, friction}
use crypto_mas.Paper.Execute.{settle}
use crypto_mas.Paper.Mark.{update_mark_prices}
use crypto_mas.Prelude.{
  sym, ap, ℕ, ◌≡◌, refl, Bool, true, false, Option, none, some, List, [], ◌∷◌, String, map,
}
use crypto_mas.Prelude.Int.{pos}
use crypto_mas.Numbers.Fixed.{fixed, literal}
use crypto_mas.Domain.{no_features, FeatureSnapshot, Store, swing, long}
use crypto_mas.MarketData.Schemas.{one_hour}
use crypto_mas.Strategy.{TradingDecision, consider_long}
use crypto_mas.Risk.Limits.{swing_limits}
use crypto_mas.Portfolio.Tests.{runtime, engine, decision}
use crypto_mas.Paper.Tests
use crypto_mas.Queue.{by_mode}
use crypto_mas.Cycle.Views.{FeatureStore}
use crypto_mas.Cycle.Strategies.{Attempt}
use crypto_mas.Cycle.Target.{TradingCycleService, value_of}
use crypto_mas.Cycle.Run.{World, CycleCall, run_cycle}
use crypto_mas.Repository.Positions.{
  get_open_position_symbols, list_open_positions, get_recent_stop_loss_symbols,
  get_whipsaw_cooldown_symbols,
}
use crypto_mas.Backtest.Snapshots.{is_of}
use crypto_mas.Backtest.Candles.{sort_by_time}
use crypto_mas.Backtest.Snapshots.Listing.{select_snapshots}

abbrev pub rising : String → FeatureSnapshot
rising symbol = record {
  exchange = "binance";
  symbol = symbol;
  timeframe = "1h";
  timestamp = 500_000_000;
  features = record no_features {
    close = some (literal 100 0);
    rsi_14 = some (literal 60 0);
    roc_14 = some (literal 1 0);
  };
}

-- The pipeline has computed its features already.
abbrev pub features : FeatureStore (List FeatureSnapshot)
features = record {
  list_by_symbol = λ rows symbol timeframe end limit.
      select_snapshots
        (record { exchange = "binance"; symbol = symbol; timeframe = value_of timeframe }) none end
        (some limit) rows;
  calculate_and_store = λ symbol timeframe end rows. (true, rows);
}

abbrev pub buying : String → List FeatureSnapshot → Bool → Option (Option TradingDecision)
buying symbol snapshots opened = some (some (decision symbol consider_long 90 90 none))

pub buying_answers :
    (symbol : String) (snapshots : List FeatureSnapshot) (opened : Bool) (d : TradingDecision)
    → buying symbol snapshots opened ≡ some (some d)
    → d.symbol ≡ symbol
buying_answers symbol snapshots opened d e =
    let same : decision symbol consider_long 90 90 none ≡ d = cc in ap (λ x. x.symbol) (sym same)

abbrev pub service : TradingCycleService
service = record {
  exchange = "binance";
  strategy_mode = swing;
  runtime = runtime;
  portfolio_engine = engine 5;
  limits = swing_limits;
}

abbrev pub cycle_call : CycleCall
cycle_call = record {
  account_name = "swing";
  symbols = "SOLUSDT" ∷ "XRPUSDT" ∷ [];
  timeframe = one_hour;
  strategy_name = "multi_agent";
  risk_level = pos 50;
  use_btc_shield = true;
  use_htf_shield = true;
  use_regime_shield = true;
  now = 600_000_000;
}

abbrev store : Store
store = record Tests.store { positions = Tests.position 1 "ETHUSDT" long 50 40 60 ∷ [] }

abbrev pub world : World (List FeatureSnapshot)
world = record {
  features = rising "BTCUSDT" ∷ rising "SOLUSDT" ∷ rising "ETHUSDT" ∷ [];
  executor_queue = record {
    sync_mode = false;
    queue = [];
    tables = record { store = store; cycles = [] };
    taken = 0;
  };
  next_cycle = 1;
}

abbrev after : Attempt (World (List FeatureSnapshot)) ℕ
after =
    run_cycle (λ x. "") features (λ symbols timeframe start end rows. (true, rows)) buying by_mode
      (λ k. 600_000_000) service cycle_call world

-- SOL is bought, ETH is kept, and XRP has no features.
put_test :
    map (λ t. map (λ p. p.symbol) t.target.target_positions) after.1.executor_queue.queue
    ≡ ("ETHUSDT" ∷ "SOLUSDT" ∷ []) ∷ []
unfolding run_cycle select_snapshots sort_by_time get_open_position_symbols is_of retained_symbols
    get_by_name update_mark_prices for_each list_open_positions extract_close_price get_latest new
    friction settle get_recent_stop_loss_symbols get_whipsaw_cooldown_symbols new_candidates
put_test = refl
