-- ===== src/Cycle/Run/Agents.antt =====
-- services/trading_cycle_service/cycle_orchestrator.py: a cycle with the strategy of engine/strategy/multi_agent.py.
use crypto_mas.Prelude.{
  ℕ, Bool, true, false, Option, none, some, List, [], ◌∷◌, ◌++◌, String, ◌≡◌, ◌⊎◌, inl, inr, All,
  All-map_of, ◌==◌, refl, subst,
}
use crypto_mas.Prelude.Dict.{contains}
use crypto_mas.Numbers.{Numerics}
use crypto_mas.Domain.{FeatureSnapshot}
use crypto_mas.MarketData.Schemas.{Timeframe}
use crypto_mas.Risk.Models.{last}
use crypto_mas.Portfolio.Selection.Candidates.{IsListing}
use crypto_mas.Strategy.{
  is_consider, is_consider_long, is_consider_short, DecisionAction, consider_long, consider_short,
  close_long, close_short, hold, avoid, TradingDecision,
}
use crypto_mas.Strategy.Signals.{TrendInputs, trend_inputs, is_bullish, is_bearish}
use crypto_mas.Strategy.MultiAgent.{MultiAgent, multi_agent_decide}
use crypto_mas.Strategy.MultiAgent.Verdicts.{Verdict, multi_agent_decide-Verdict}
use crypto_mas.Queue.{BrokerFactory, ExecutionTask}
use crypto_mas.Cycle.Views.{FeatureStore, PositionView}
use crypto_mas.Cycle.Strategies.{Attempt, Settings}
use crypto_mas.Cycle.Strategies.Admitted.{seen, Reached, Fresh}
use crypto_mas.Cycle.Target.{TradingCycleService}
use crypto_mas.Cycle.Target.Fresh.{Admissible}
use crypto_mas.Cycle.Run.{CycleCall, World, run_cycle}
use crypto_mas.Cycle.Run.Outcomes.{held, told, fetched, Concluded, run_cycle-Concluded}

either_side :
    (x : DecisionAction)
    → is_consider x ≡ true
    → (is_consider_long x ≡ true) ⊎ (is_consider_short x ≡ true)
either_side consider_long h = inl refl
either_side consider_short h = inr refl
either_side close_long h = absurd (cc)
either_side close_short h = absurd (cc)
either_side hold h = absurd (cc)
either_side avoid h = absurd (cc)

granted : {P : Type 0} (b : Bool) → b ≡ true → (b ≡ false) ⊎ P → P
granted b h (inl k) = absurd (cc)
granted b h (inr p) = p

module _ ⦃n : Numerics⦄ where
  module _ {S : Type 0} (store : FeatureStore S) (v : PositionView) (c : Settings) (start : S) where
    -- A symbol that is open; or one whose own features, in the store when its turn comes, are fresh, have
    -- all a signal needs and show a trend, with no stop of late.
    abbrev pub Grounded : String → Type 0
    Grounded s =
        (contains s v.open_symbols ≡ true)
        ⊎ ((before : S) × Reached store c start before
            × (latest : FeatureSnapshot) × Fresh store c s before latest
            × (f : TrendInputs) × (trend_inputs latest.features ≡ some f)
            × ((is_bullish f ≡ true) ⊎ (is_bearish f ≡ true))
            × (contains s (v.recent_stop_loss 120) ≡ false))

  same_latest :
      (x y : FeatureSnapshot) (o : Option FeatureSnapshot) → o ≡ some x → o ≡ some y → x ≡ y
  same_latest x y o h k = cc

  module _ (three_places one_place : n.Float → String) (tanh : n.Float → n.Float)
      (agent : MultiAgent) {S : Type 0} (store : FeatureStore S) (v : PositionView) (c : Settings)
      (start : S) where
    abbrev own_decide : String → List FeatureSnapshot → Bool → Option (Option TradingDecision)
    own_decide = multi_agent_decide three_places tanh agent

    trend_of :
        (s : String) (snapshots : List FeatureSnapshot) (d : TradingDecision)
        → is_consider d.action ≡ true
        → (w : Verdict three_places tanh agent s snapshots d)
        → (f : TrendInputs) × (trend_inputs w.latest.features ≡ some f)
          × ((is_bullish f ≡ true) ⊎ (is_bearish f ≡ true))
    trend_of s snapshots d h w = elim (either_side d.action h) [
      | inl k ↦
          let (f, e, up, reached) = granted (is_consider_long d.action) k w.long in (f, e, inl up)
      | inr k ↦
          let (f, e, down, reached) = granted (is_consider_short d.action) k w.short in
          (f, e, inr down)
    ]

    entered-Grounded :
        (s : String)
        → Admissible one_place store own_decide v c start s
        → Grounded store v c start s
    entered-Grounded s (inl opened) = inl opened
    entered-Grounded s (inr (d, h, e)) =
        let snapshots = seen store c s e.before in
        let w =
          multi_agent_decide-Verdict three_places tanh agent s snapshots (contains s v.open_symbols)
            d e.own in
        let (f, g, t) = trend_of s snapshots d h w in
        let same : w.latest ≡ e.latest =
          same_latest w.latest e.latest (last snapshots) w.among e.fresh.among in
        let needed : trend_inputs e.latest.features ≡ some f =
          subst (λ x. trend_inputs x.features ≡ some f) same g in
        inr (e.before, e.reached, e.latest, e.fresh, f, needed, t, e.passes.free.rested)

  module _ (three_places one_place : n.Float → String) (tanh : n.Float → n.Float)
      (agent : MultiAgent) {S : Type 0} (store : FeatureStore S)
      (backfill : List String → Timeframe → ℕ → ℕ → S → Bool × S) (factory : BrokerFactory)
      (clock : ℕ → ℕ) (b : TradingCycleService) (a : CycleCall) where
    abbrev agent_cycle : World S → Attempt (World S) ℕ
    agent_cycle w =
        run_cycle one_place store backfill (multi_agent_decide three_places tanh agent) factory
          clock b a w

    abbrev pub own_decision : String → List FeatureSnapshot → Bool → Option (Option TradingDecision)
    own_decision = multi_agent_decide three_places tanh agent

    -- What the cycle puts into the queue.
    abbrev pub Puts : World S → Attempt (World S) ℕ → Type 0
    Puts w (some id, w') =
        (task : ExecutionTask) × (w'.executor_queue.queue ≡ w.executor_queue.queue ++ task ∷ [])
        × All
            (λ p.
              Grounded store (held one_place store backfill own_decision factory clock b a w')
                (told one_place store backfill own_decision factory clock b a w)
                (fetched one_place store backfill own_decision factory clock b a w) p.symbol)
            task.target.target_positions
    Puts w (none, w') = w'.executor_queue.queue ≡ w.executor_queue.queue

    Concluded-Puts :
        (w : World S) (o : Attempt (World S) ℕ)
        → Concluded one_place store backfill
            (multi_agent_decide three_places tanh agent)
            factory
            clock
            b
            a
            w
            o
        → Puts w o
    Concluded-Puts w (none, w') h = h.1
    Concluded-Puts w (some id, w') h =
        let q = h.2 in
        (
          q.task,
          q.put,
          All-map_of _ _ q.task.target.target_positions
              (λ p k. entered-Grounded three_places one_place tanh agent store _ _ _ p.symbol k)
              q.admissible,
        )

    -- A cycle with the multi-agent strategy, where a set is listed by its members, the queue is not in the
    -- synchronous mode and the next number is none of a row, puts nothing into the queue if it raises, and
    -- else one task. Each position of the task's target is of a symbol that is open; or of one that no stop
    -- closed within the last 120 minutes, and of whose own snapshots the last, as the store has them after
    -- fetching and refreshing, is at most a bar and a quarter of an hour old, has all a signal needs and
    -- shows a rise or a fall.
    pub agent_cycle-Puts :
        (listing : IsListing b.runtime) (w : World S)
        → w.executor_queue.sync_mode ≡ false
        → All (λ r. (r.id == w.next_cycle) ≡ false) w.executor_queue.tables.cycles
        → Puts w (
            run_cycle one_place store backfill
              (multi_agent_decide three_places tanh agent)
              factory
              clock
              b
              a
              w)
    agent_cycle-Puts listing w waits h = Concluded-Puts w (agent_cycle w) (
        run_cycle-Concluded one_place store backfill (multi_agent_decide three_places tanh agent)
          factory clock b a
          (λ s snapshots opened d k.
            (multi_agent_decide-Verdict three_places tanh agent s snapshots opened d k).own)
          listing w waits h)
