-- ===== src/Cycle/Tests/Unexecuted.antt =====
-- A cycle of an account that is not there.
use crypto_mas.Prelude.{ℕ, ◌≡◌, refl, true, some, none, List, [], ◌∷◌, ◌++◌}
use crypto_mas.Numbers.Fixed.{fixed}
use crypto_mas.Domain.{FeatureSnapshot}
use crypto_mas.Portfolio.Tests.{runtime-IsListing}
use crypto_mas.Queue.{by_mode, worker, completed, TradingCycle}
use crypto_mas.Cycle.Strategies.{Attempt}
use crypto_mas.Cycle.Run.{World, CycleCall, run_cycle}
use crypto_mas.Cycle.Run.Unexecuted.{worker-run_cycle_unknown}
use crypto_mas.Cycle.Tests.{features, service, cycle_call, world, buying, buying_answers}
use crypto_mas.Repository.Positions.{
  get_open_position_symbols, list_open_positions, get_recent_stop_loss_symbols,
  get_whipsaw_cooldown_symbols,
}
use crypto_mas.Backtest.Snapshots.{is_of}
use crypto_mas.Backtest.Candles.{sort_by_time}
use crypto_mas.Backtest.Snapshots.Listing.{select_snapshots}
use crypto_mas.Repository.Records.{get_latest}
use crypto_mas.Repository.Accounts.{get_by_name}
use crypto_mas.Paper.Session.{for_each}
use crypto_mas.Portfolio.Selection.{retained_symbols, new_candidates}
use crypto_mas.Paper.Calculator.{extract_close_price, new, friction}
use crypto_mas.Paper.Execute.{settle}
use crypto_mas.Paper.Mark.{update_mark_prices}

abbrev unknown_call : CycleCall
unknown_call = record cycle_call { account_name = "nobody" }

abbrev after_unknown : Attempt (World (List FeatureSnapshot)) ℕ
after_unknown =
    run_cycle (λ x. "") features (λ symbols timeframe start end rows. (true, rows)) buying by_mode
      (λ k. 600_000_000) service unknown_call world

returns : after_unknown ≡ (some 1, after_unknown.1)
unfolding run_cycle select_snapshots sort_by_time get_open_position_symbols is_of retained_symbols
    get_by_name update_mark_prices for_each list_open_positions extract_close_price get_latest new
    friction settle get_recent_stop_loss_symbols get_whipsaw_cooldown_symbols new_candidates
returns = refl

nobody : get_by_name "nobody" after_unknown.1.executor_queue.tables.store.accounts ≡ none
unfolding run_cycle select_snapshots sort_by_time get_open_position_symbols is_of retained_symbols
    get_by_name update_mark_prices for_each list_open_positions extract_close_price get_latest new
    friction settle get_recent_stop_loss_symbols get_whipsaw_cooldown_symbols new_candidates
nobody = refl

worker-run_cycle_unknown_example :
    let w = after_unknown.1 in
    let q = worker by_mode (λ k. 600_000_000) w.executor_queue in
    (q.queue ≡ [])
    × (q.tables ≡ w.executor_queue.tables)
    × (row : TradingCycle) × (q.tables.cycles ≡ [] ++ row ∷ [])
    × (row.id ≡ 1)
    × (row.status ≡ completed)
worker-run_cycle_unknown_example =
    worker-run_cycle_unknown (λ x. "") features (λ symbols timeframe start end rows. (true, rows))
      buying by_mode (λ k. 600_000_000) service unknown_call buying_answers runtime-IsListing world
      refl tt refl returns nobody
