-- ===== src/Cycle/Tests/Agents.antt =====
-- A cycle with the multi-agent strategy: one symbol is open, and another rises.
use crypto_mas.Prelude.{ℕ, ◌≡◌, refl, true, some, List, [], ◌∷◌, map}
use crypto_mas.Prelude.Int.{pos}
use crypto_mas.Numbers.Fixed.{fixed, literal}
use crypto_mas.Domain.{no_features, FeatureSnapshot}
use crypto_mas.MarketData.Schemas.{one_hour}
use crypto_mas.Strategy.MultiAgent.{MultiAgent, multi_agent_decide}
use crypto_mas.Portfolio.Tests.{runtime-IsListing}
use crypto_mas.Queue.{by_mode}
use crypto_mas.Cycle.Strategies.{Attempt}
use crypto_mas.Cycle.Run.{World, run_cycle}
use crypto_mas.Cycle.Run.Agents.{Puts, agent_cycle-Puts}
use crypto_mas.Cycle.Tests.{rising, features, service, cycle_call, world}
use crypto_mas.Repository.Positions.{
  get_open_position_symbols, list_open_positions, get_recent_stop_loss_symbols,
  get_whipsaw_cooldown_symbols,
}
use crypto_mas.Backtest.Snapshots.{is_of}
use crypto_mas.Backtest.Candles.{sort_by_time}
use crypto_mas.Backtest.Snapshots.Listing.{select_snapshots}
use crypto_mas.Repository.Records.{get_latest}
use crypto_mas.Repository.Accounts.{get_by_name}
use crypto_mas.Paper.Session.{for_each}
use crypto_mas.Portfolio.Selection.{retained_symbols, new_candidates, group}
use crypto_mas.Paper.Calculator.{extract_close_price, new, friction}
use crypto_mas.Paper.Execute.{settle}
use crypto_mas.Paper.Mark.{update_mark_prices}

abbrev agent : MultiAgent
agent = record {
  exchange = "binance";
  timeframe = one_hour;
  risk_level = pos 50;
  use_regime_shield = true;
  scoring_agent = record { trend_weight = literal 55 2; momentum_weight = literal 45 2 };
}

abbrev trending : FeatureSnapshot
trending = record (rising "SOLUSDT") {
  features = record no_features {
    close = some (literal 100 0);
    ema_20 = some (literal 90 0);
    ema_50 = some (literal 80 0);
    atr_14 = some (literal 5 0);
    roc_14 = some (literal 5 0);
    rsi_14 = some (literal 60 0);
    macd = some (literal 4 0);
    macd_signal = some (literal 1 0);
    bb_upper = some (literal 105 0);
    bb_middle = some (literal 100 0);
    bb_lower = some (literal 95 0);
  };
}

abbrev trending_world : World (List FeatureSnapshot)
trending_world = record world { features = rising "BTCUSDT" ∷ trending ∷ rising "ETHUSDT" ∷ [] }

abbrev after_agents : Attempt (World (List FeatureSnapshot)) ℕ
after_agents =
    run_cycle (λ x. "") features (λ symbols timeframe start end rows. (true, rows))
      (multi_agent_decide (λ x. "") (λ x. x) agent) by_mode (λ k. 600_000_000) service cycle_call
      trending_world

agents_test :
    map (λ t. map (λ p. p.symbol) t.target.target_positions) after_agents.1.executor_queue.queue
    ≡ ("ETHUSDT" ∷ "SOLUSDT" ∷ []) ∷ []
unfolding run_cycle multi_agent_decide select_snapshots sort_by_time get_open_position_symbols is_of
    retained_symbols get_by_name update_mark_prices for_each list_open_positions extract_close_price
    get_latest new friction settle get_recent_stop_loss_symbols get_whipsaw_cooldown_symbols
    new_candidates group
agents_test = refl

agent_cycle-Puts_example :
    Puts
      (λ x. "")
      (λ x. "")
      (λ x. x)
      agent
      features
      (λ symbols timeframe start end rows. (true, rows))
      by_mode
      (λ k. 600_000_000)
      service
      cycle_call
      trending_world
      after_agents
agent_cycle-Puts_example =
    agent_cycle-Puts (λ x. "") (λ x. "") (λ x. x) agent features
      (λ symbols timeframe start end rows. (true, rows)) by_mode (λ k. 600_000_000) service
      cycle_call runtime-IsListing trending_world refl tt
