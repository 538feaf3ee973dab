-- ===== src/Cycle/Run/Unexecuted.antt =====
-- services/trading_cycle_service: a cycle of cycle_orchestrator.py whose task executor_queue.py cannot execute.
use crypto_mas.Prelude.{
  ℕ, Bool, false, Option, none, some, List, [], ◌∷◌, ◌++◌, String, ◌≡◌, sym, ap, subst, ◌∙◌, All,
  ◌==◌,
}
use crypto_mas.Numbers.{Numerics}
use crypto_mas.Domain.{FeatureSnapshot}
use crypto_mas.MarketData.Schemas.{Timeframe}
use crypto_mas.Strategy.{TradingDecision}
use crypto_mas.Repository.Accounts.{get_by_name}
use crypto_mas.Portfolio.Selection.Candidates.{IsListing}
use crypto_mas.Queue.{BrokerFactory, TradingCycle, completed, worker}
use crypto_mas.Queue.Failures.{worker_drops}
use crypto_mas.Cycle.Views.{FeatureStore}
use crypto_mas.Cycle.Target.{TradingCycleService}
use crypto_mas.Cycle.Run.{CycleCall, World, run_cycle}
use crypto_mas.Cycle.Run.Outcomes.{Concluded, run_cycle-Concluded}

module _ ⦃n : Numerics⦄ where
  module _ (one_place : n.Float → String) {S : Type 0} (store : FeatureStore S)
      (backfill : List String → Timeframe → ℕ → ℕ → S → Bool × S)
      (decide : String → List FeatureSnapshot → Bool → Option (Option TradingDecision))
      (factory : BrokerFactory) (clock : ℕ → ℕ) (b : TradingCycleService) (a : CycleCall) where
    -- If the strategy decides on the symbol that it is asked about, a set is listed by its members, the
    -- queue is empty and not in the synchronous mode, and the next number is none of a row: after a cycle
    -- that returns, a worker that takes its task when the account is not in the table empties the queue
    -- and changes no table; so the last row of the cycles has the number of this one and still says
    -- completed, though nothing was executed.
    pub worker-run_cycle_unknown :
        (answers : (symbol : String) (snapshots : List FeatureSnapshot) (opened : Bool)
            (d : TradingDecision)
          → decide symbol snapshots opened ≡ some (some d)
          → d.symbol ≡ symbol)
        (listing : IsListing b.runtime) (w : World S) {id : ℕ} {w' : World S}
        → w.executor_queue.sync_mode ≡ false
        → All (λ r. (r.id == w.next_cycle) ≡ false) w.executor_queue.tables.cycles
        → w.executor_queue.queue ≡ []
        → run_cycle one_place store backfill decide factory clock b a w ≡ (some id, w')
        → get_by_name a.account_name w'.executor_queue.tables.store.accounts ≡ none
        → let q = worker factory clock w'.executor_queue in
          (q.queue ≡ [])
          × (q.tables ≡ w'.executor_queue.tables)
          × (row : TradingCycle) × (q.tables.cycles ≡ w.executor_queue.tables.cycles ++ row ∷ [])
          × (row.id ≡ id)
          × (row.status ≡ completed)
    worker-run_cycle_unknown answers listing w {id} {w'} waits fresh empty returned unknown =
        let (number, ends, queued) =
          subst (Concluded one_place store backfill decide factory clock b a w) returned (
            run_cycle-Concluded one_place store backfill decide factory clock b a answers listing w
              waits fresh) in
        let alone : w'.executor_queue.queue ≡ queued.task ∷ [] =
          queued.put ∙ ap (λ q. q ++ queued.task ∷ []) empty in
        let of_it : get_by_name queued.task.account_name w'.executor_queue.tables.store.accounts
            ≡ none =
          rw queued.of_account unknown in
        let (drained, same) =
          worker_drops factory clock queued.task w'.executor_queue alone of_it in
        (
          drained,
          same,
          ends.row,
          ap (λ t. t.cycles) same ∙ ends.rows,
          ends.number ∙ sym number,
          ends.ended,
        )
