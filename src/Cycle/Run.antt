-- ===== src/Cycle/Run.antt =====
-- services/trading_cycle_service/cycle_orchestrator.py, `TradingCycleService.run_cycle`, of a cycle that is not a
-- backtest's, whose queue is then not in the synchronous mode. Rows of the log are left out, and so are the
-- subscriptions of the websocket client.
pub mod Outcomes
pub mod Agents
pub mod Unexecuted
use crypto_mas.Prelude.{
  ℕ, suc, ◌+◌, Bool, true, false, Option, none, some, List, [], ◌∷◌, ◌++◌, map, String, ◌==◌,
  if◌then◌else◌, length,
}
use crypto_mas.Prelude.Dict.{to_set}
use crypto_mas.Prelude.Int.{ℤ}
use crypto_mas.Numbers.{Numerics}
use crypto_mas.Domain.{FeatureSnapshot, Store}
use crypto_mas.MarketData.Schemas.{Timeframe}
use crypto_mas.Strategy.{TradingDecision}
use crypto_mas.Repository.Positions.{get_open_position_symbols}
use crypto_mas.Paper.Session.{Call, new_broker, ok, raised}
use crypto_mas.Paper.Broker.{broker_mark}
use crypto_mas.Queue.{
  CycleStatus, running, completed, failed, BrokerFactory, TradingCycle, Tables, OrderExecutorQueue,
  enqueue,
}
use crypto_mas.Cycle.Views.{FeatureStore, PositionView, view_of_table}
use crypto_mas.Cycle.Strategies.{Attempt, and_then, Settings, run_strategies_and_score}
use crypto_mas.Cycle.MarketData.{with_open, htf_map, fetch_data_for_symbols}
use crypto_mas.Cycle.Target.{TradingCycleService, value_of, apply_risk_and_execute}

module _ ⦃n : Numerics⦄ where
  open n use {float_lit}

  -- The arguments of a call, its symbols resolved, and the time.
  pub record CycleCall : Type 0 where
    pub account_name : String
    pub symbols : List String
    pub timeframe : Timeframe
    pub strategy_name : String
    pub risk_level : ℤ
    pub use_btc_shield : Bool
    pub use_htf_shield : Bool
    pub use_regime_shield : Bool
    pub now : ℕ

  -- What the service works on: candles and features, the queue with the tables, and the next number of a
  -- cycle.
  pub record World (S : Type 0) : Type 0 where
    pub features : S
    pub executor_queue : OrderExecutorQueue
    pub next_cycle : ℕ

  pub new_cycle : ℕ → TradingCycle
  new_cycle id = record {
    id = id;
    status = running;
    symbols_processed = 0;
    decisions_made = 0;
    trades_executed = 0;
    starting_equity = float_lit 0 0;
    ending_equity = float_lit 0 0;
    cycle_pnl = float_lit 0 0;
    finished_at = none;
  }

  -- The row of a number.
  pub update_cycle : ℕ → (TradingCycle → TradingCycle) → List TradingCycle → List TradingCycle
  update_cycle id f [] = []
  update_cycle id f (r ∷ rs) = (if r.id == id then f r else r) ∷ update_cycle id f rs

  -- `update_status`, and the columns that a cycle writes at its end.
  pub update_status : CycleStatus → TradingCycle → TradingCycle
  update_status status r = record r { status = status }

  pub complete_cycle : ℕ → ℕ → TradingCycle → TradingCycle
  complete_cycle symbols decisions r = record r {
    status = completed;
    symbols_processed = symbols;
    decisions_made = decisions;
    trades_executed = decisions;
  }

  abbrev pub settings_of : CycleCall → Bool → Settings
  settings_of a crashing = record {
    strategy_name = a.strategy_name;
    timeframe = a.timeframe;
    htf = htf_map a.timeframe;
    now = a.now;
    is_backtest = false;
    btc_is_crashing = crashing;
    use_btc_shield = a.use_btc_shield;
    use_htf_shield = a.use_htf_shield;
    use_regime_shield = a.use_regime_shield;
  }

  module _ {S : Type 0} where
    abbrev pub with_tables : (Tables → Tables) → World S → World S
    with_tables f w = record w {
      executor_queue = record w.executor_queue { tables = f w.executor_queue.tables };
    }

    abbrev pub positions_view : TradingCycleService → CycleCall → World S → PositionView
    positions_view b a w =
        view_of_table a.account_name b.exchange a.now w.executor_queue.tables.store.positions

    -- The row of the cycle is added.
    abbrev pub start_cycle : World S → World S
    start_cycle w =
        with_tables (λ t. record t { cycles = t.cycles ++ new_cycle w.next_cycle ∷ [] })
          (record w { next_cycle = suc w.next_cycle })

    abbrev pub on_features : {A : Type 0} → (S → Attempt S A) → World S → Attempt (World S) A
    on_features f w = ((f w.features).0, record w { features = (f w.features).1 })

    -- The pass before the strategies, whose exception is only logged.
    pub marked : TradingCycleService → CycleCall → ℕ → World S → World S
    unfolding new_broker broker_mark
    marked b a id w =
        let call : Call = record {
          account_name = a.account_name;
          exchange = b.exchange;
          timeframe = value_of a.timeframe;
          cycle_id = some id;
          now = a.now;
        } in
        with_tables
          (λ t. record t {
            store = elim (broker_mark (new_broker b.strategy_mode false) none call t.store) [
              | ok r ↦ r.1
              | raised s ↦ s
            ];
          })
          w

    module _ (one_place : n.Float → String) (store : FeatureStore S)
        (backfill : List String → Timeframe → ℕ → ℕ → S → Bool × S)
        (decide : String → List FeatureSnapshot → Bool → Option (Option TradingDecision))
        (factory : BrokerFactory) (clock : ℕ → ℕ) (b : TradingCycleService) (a : CycleCall) where
      -- The symbols of the call, and those that are open.
      pub cycle_symbols : World S → List String
      cycle_symbols w =
          with_open a.symbols (b.runtime.arrange (to_set (positions_view b a w).open_symbols))

      -- The strategies, after the pass.
      pub strategies : List String → Bool → World S → Attempt (World S) (List TradingDecision)
      unfolding run_strategies_and_score
      strategies symbols crashing w =
          on_features
            (run_strategies_and_score one_place store decide (positions_view b a w)
              (settings_of a crashing) symbols)
            w

      put_task : ℕ → List String → List TradingDecision → World S → Attempt (World S) ℕ
      unfolding apply_risk_and_execute enqueue complete_cycle update_cycle
      put_task id symbols ds w =
          let task =
            apply_risk_and_execute b a.timeframe a.account_name id ds
              (positions_view b a w).open_symbols a.risk_level a.now in
          let queued = record w { executor_queue = enqueue factory clock task w.executor_queue } in
          (
            some id,
            with_tables
                (λ t. record t {
                  cycles = update_cycle id (complete_cycle (length symbols) (length ds)) t.cycles;
                })
                queued,
          )

      -- What stands under `try`.
      work : ℕ → World S → Attempt (World S) ℕ
      unfolding fetch_data_for_symbols strategies put_task marked cycle_symbols
      work id w =
          let symbols = cycle_symbols w in
          and_then
            (on_features
              (fetch_data_for_symbols store backfill symbols a.timeframe a.now a.use_btc_shield) w)
            (λ crashing w1.
              and_then (strategies symbols crashing (marked b a id w1))
                (λ ds w2. put_task id symbols ds w2))

      -- An exception marks the row as failed, and is raised again.
      conclude : ℕ → Attempt (World S) ℕ → Attempt (World S) ℕ
      unfolding update_cycle update_status
      conclude id (some done, w) = (some done, w)
      conclude id (none, w) = (
        none,
        with_tables (λ t. record t { cycles = update_cycle id (update_status failed) t.cycles }) w,
      )

      unfoldable pub run_cycle : World S → Attempt (World S) ℕ
      unfolding conclude work new_cycle
      run_cycle w = conclude w.next_cycle (work w.next_cycle (start_cycle w))
