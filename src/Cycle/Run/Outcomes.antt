-- ===== src/Cycle/Run/Outcomes.antt =====
-- services/trading_cycle_service/cycle_orchestrator.py: how a cycle ends.
use crypto_mas.Cycle.MarketData.{htf_map, fetch_data_for_symbols}
use crypto_mas.Portfolio.Selection.Candidates.{IsListing}
use crypto_mas.Cycle.Target.{apply_risk_and_execute, TradingCycleService}
use crypto_mas.Strategy.{TradingDecision}
use crypto_mas.Domain.{FeatureSnapshot}
use crypto_mas.MarketData.Schemas.{Timeframe}
use crypto_mas.Cycle.Views.{FeatureStore, PositionView, view_of_table}
use crypto_mas.Numbers.{Numerics}
use crypto_mas.Cycle.Run.{
  and_then, some, update_cycle, new_cycle, complete_cycle, update_status, World, CycleCall,
  run_cycle, conclude, work, put_task, strategies, cycle_symbols, marked, positions_view,
  start_cycle, settings_of, on_features,
}
use crypto_mas.Cycle.Target.Fresh.{Admissible, apply_risk_and_execute-Admissible}
use crypto_mas.Cycle.Strategies.Admitted.{Gives, Leaves}
use crypto_mas.Cycle.MarketData.Fetched.{ready, btc_crashes, fetch_data-Leaves}
use crypto_mas.Cycle.Strategies.{run_strategies_and_score, Attempt, Settings}
use crypto_mas.Queue.{
  enqueue, BrokerFactory, CycleStatus, completed, failed, TradingCycle, ExecutionTask,
}
use crypto_mas.Prelude.{
  length, Option, Bool, suc, [], String, ℕ, inr, inl, Option-cases, ◌∙◌, ap, arith, ◌==◌, none, ◌∷◌,
  subst, All, ◌++◌, ◌≡◌, refl, false, List,
}

Gives-some :
    {S A : Type 0} (P : A → Type 0) (m : Attempt S A) (a : A) → m.0 ≡ some a → Gives P m → P a
Gives-some P (none, s) a e h = absurd (cc)
Gives-some P (some b, s) a e h = (let same : b ≡ a = cc in subst P same h)

Leaves-some :
    {S A : Type 0} (P : A → S → Type 0) (m : Attempt S A) (a : A)
    → m.0 ≡ some a
    → Leaves P m
    → P a m.1
Leaves-some P (none, s) a e h = absurd (cc)
Leaves-some P (some b, s) a e h = (let same : b ≡ a = cc in subst (λ x. P x s) same h)

module _ ⦃n : Numerics⦄ where
  -- Only the row with the number changes: the last.
  update_last :
      (id : ℕ) (f : TradingCycle → TradingCycle) (rs : List TradingCycle) (x : TradingCycle)
      → x.id ≡ id
      → All (λ r. (r.id == id) ≡ false) rs
      → update_cycle id f (rs ++ x ∷ []) ≡ rs ++ f x ∷ []
  unfolding update_cycle
  update_last id f [] x same h = rw (same) (ground arith)
  update_last id f (r ∷ rs) x same h = rw (h.0) (ap (λ k. r ∷ k) (update_last id f rs x same h.1))

  module _ {S : Type 0} where
    -- A row of the number, with the status, is added after the other rows, which stay.
    pub record Ends (w w' : World S) (status : CycleStatus) : Type 0 where
      pub row : TradingCycle
      pub rows : w'.executor_queue.tables.cycles ≡ w.executor_queue.tables.cycles ++ row ∷ []
      pub number : row.id ≡ w.next_cycle
      pub ended : row.status ≡ status
      pub counter : w'.next_cycle ≡ suc w.next_cycle

    module _ (one_place : n.Float → String) (store : FeatureStore S)
        (backfill : List String → Timeframe → ℕ → ℕ → S → Bool × S)
        (decide : String → List FeatureSnapshot → Bool → Option (Option TradingDecision))
        (factory : BrokerFactory) (clock : ℕ → ℕ) (b : TradingCycleService) (a : CycleCall) where
      -- The candles and features that the strategies start with: what fetching for the symbols of the cycle
      -- leaves.
      abbrev pub fetched : World S → S
      fetched w =
          ready store backfill a.timeframe a.now
            (cycle_symbols one_place store backfill decide factory clock b a w) a.use_btc_shield
            w.features

      -- What the strategies are told, of the call and of Bitcoin.
      abbrev pub told : World S → Settings
      told w = record {
        strategy_name = a.strategy_name;
        timeframe = a.timeframe;
        htf = htf_map a.timeframe;
        now = a.now;
        is_backtest = false;
        btc_is_crashing = btc_crashes store backfill a.timeframe a.now a.use_btc_shield (fetched w);
        use_btc_shield = a.use_btc_shield;
        use_htf_shield = a.use_htf_shield;
        use_regime_shield = a.use_regime_shield;
      }

      -- The positions of the account on the exchange.
      abbrev pub held : World S → PositionView
      held w = view_of_table a.account_name b.exchange a.now w.executor_queue.tables.store.positions

      -- One task is added to the queue, with the number of the cycle; its target holds open symbols and
      -- symbols that the strategy may enter, as the positions stand when it decides.
      pub record Queued (w w' : World S) : Type 0 where
        pub task : ExecutionTask
        pub put : w'.executor_queue.queue ≡ w.executor_queue.queue ++ task ∷ []
        pub of_cycle : task.cycle_id ≡ some w.next_cycle
        pub of_account : task.account_name ≡ a.account_name
        pub admissible :
            All
              (λ p. Admissible one_place store decide (held w') (told w) (fetched w) p.symbol)
              task.target.target_positions

      abbrev pub Concluded : World S → Attempt (World S) ℕ → Type 0
      Concluded w (some id, w') = (id ≡ w.next_cycle) × Ends w w' completed × Queued w w'
      Concluded w (none, w') = Ends w w' failed × (w'.executor_queue.queue ≡ w.executor_queue.queue)

      -- A state in the middle of a cycle.
      record Started (w w1 : World S) : Type 0 where
        rows :
            w1.executor_queue.tables.cycles
            ≡ w.executor_queue.tables.cycles ++ new_cycle w.next_cycle ∷ []
        same_queue : w1.executor_queue.queue ≡ w.executor_queue.queue
        waits : w1.executor_queue.sync_mode ≡ false
        counter : w1.next_cycle ≡ suc w.next_cycle

      failed-Ends :
          (w w1 : World S)
          → All (λ r. (r.id == w.next_cycle) ≡ false) w.executor_queue.tables.cycles
          → Started w w1
          → Concluded w
              (conclude one_place store backfill decide factory clock b a w.next_cycle (none, w1))
      unfolding conclude update_status new_cycle
      failed-Ends w w1 h st = (
        record {
          row = update_status failed (new_cycle w.next_cycle);
          rows =
              ap (update_cycle w.next_cycle (update_status failed)) st.rows
              ∙ update_last w.next_cycle (update_status failed) w.executor_queue.tables.cycles _
                  refl h;
          number = refl;
          ended = refl;
          counter = st.counter;
        },
        st.same_queue,
      )

      on_features-Started :
          {A : Type 0} (f : S → Attempt S A) (w w1 : World S)
          → Started w w1
          → Started w (on_features f w1).1
      on_features-Started f w w1 st = record {
        rows = st.rows;
        same_queue = st.same_queue;
        waits = st.waits;
        counter = st.counter;
      }

      -- A step on the features, and what follows it.
      then-Concluded :
          {A : Type 0} (f : S → Attempt S A) (g : A → World S → Attempt (World S) ℕ)
          (w w1 : World S)
          → All (λ r. (r.id == w.next_cycle) ≡ false) w.executor_queue.tables.cycles
          → Started w w1
          → ((x : A)
              → (f w1.features).0 ≡ some x
              → Concluded w (
                  conclude one_place store backfill decide factory clock b a w.next_cycle
                    (g x (on_features f w1).1)))
          → Concluded w (
              conclude one_place store backfill decide factory clock b a w.next_cycle
                (and_then (on_features f w1) g))
      then-Concluded f g w w1 h st k = elim (Option-cases (f w1.features).0) [
        | inl o ↦ rw o (failed-Ends w (on_features f w1).1 h (on_features-Started f w w1 st))
        | inr (x, o) ↦ rw o (k x o)
      ]

      queued-Concluded :
          (ds : List TradingDecision) (symbols : List String) (w w1 : World S)
          → All (λ r. (r.id == w.next_cycle) ≡ false) w.executor_queue.tables.cycles
          → Started w w1
          → All
              (λ p. Admissible one_place store decide (held w1) (told w) (fetched w) p.symbol)
              (apply_risk_and_execute b a.timeframe a.account_name w.next_cycle ds
                (positions_view b a w1).open_symbols
                a.risk_level
                a.now).target.target_positions
          → Concluded w (
              conclude one_place store backfill decide factory clock b a w.next_cycle (
                put_task one_place store backfill decide factory clock b a w.next_cycle symbols ds
                  w1))
      unfolding put_task conclude enqueue complete_cycle new_cycle apply_risk_and_execute
      queued-Concluded ds symbols w w1 h st k =
          let task =
            apply_risk_and_execute b a.timeframe a.account_name w.next_cycle ds
              (positions_view b a w1).open_symbols a.risk_level a.now in
          let put = complete_cycle (length symbols) (length ds) in
          rw (st.waits) (
            refl,
            record {
              row = put (new_cycle w.next_cycle);
              rows =
                  ap (update_cycle w.next_cycle put) st.rows
                  ∙ update_last w.next_cycle put w.executor_queue.tables.cycles _ refl h;
              number = refl;
              ended = refl;
              counter = st.counter;
            },
            record {
              task = task;
              put = ap (λ q. q ++ task ∷ []) st.same_queue;
              of_cycle = refl;
              of_account = refl;
              admissible = k;
            },
          )

      pub run_cycle-Concluded :
          (answers : (symbol : String) (snapshots : List FeatureSnapshot) (opened : Bool)
              (d : TradingDecision)
            → decide symbol snapshots opened ≡ some (some d)
            → d.symbol ≡ symbol)
          (listing : IsListing b.runtime) (w : World S)
          → w.executor_queue.sync_mode ≡ false
          → All (λ r. (r.id == w.next_cycle) ≡ false) w.executor_queue.tables.cycles
          → Concluded w (run_cycle one_place store backfill decide factory clock b a w)
      unfolding run_cycle work strategies marked cycle_symbols
      run_cycle-Concluded answers listing w waits h =
          let w1 = start_cycle w in
          let symbols = cycle_symbols one_place store backfill decide factory clock b a w1 in
          let fetch =
            fetch_data_for_symbols store backfill symbols a.timeframe a.now a.use_btc_shield in
          then-Concluded fetch
            (λ crashing w2.
              and_then
                (strategies one_place store backfill decide factory clock b a symbols crashing
                  (marked b a w.next_cycle w2))
                (λ ds w3.
                  put_task one_place store backfill decide factory clock b a w.next_cycle symbols ds
                    w3))
            w w1 h (record { rows = refl; same_queue = refl; waits = waits; counter = refl })
            (λ crashing o.
              let w2 = on_features fetch w1 in
              let w3 = marked b a w.next_cycle w2.1 in
              let v = positions_view b a w3 in
              let run =
                run_strategies_and_score one_place store decide v (settings_of a crashing)
                  symbols in
              let f = Leaves-some _ (fetch w1.features) crashing o (
                fetch_data-Leaves store backfill a.timeframe a.now symbols a.use_btc_shield
                  w1.features) in
              let crash : crashing ≡ (told w).btc_is_crashing =
                f.0 ∙ ap (btc_crashes store backfill a.timeframe a.now a.use_btc_shield) f.1 in
              then-Concluded run
                (λ ds w4.
                  put_task one_place store backfill decide factory clock b a w.next_cycle symbols ds
                    w4)
                w w3 h (record { rows = refl; same_queue = refl; waits = waits; counter = refl })
                (λ ds e.
                  let allowed : Bool → S → Type 0 = λ x t.
                    All (λ p. Admissible one_place store decide v (settings_of a x) t p.symbol)
                      (apply_risk_and_execute b a.timeframe a.account_name w.next_cycle ds
                        v.open_symbols a.risk_level a.now).target.target_positions in
                  queued-Concluded ds symbols w (on_features run w3).1 h
                    (record { rows = refl; same_queue = refl; waits = waits; counter = refl })
                    (subst (allowed _) f.1 (
                      subst (λ x. allowed x w3.features) crash
                        (Gives-some _ (run w3.features) ds e (
                          apply_risk_and_execute-Admissible one_place store decide v
                            (settings_of a crashing) w3.features answers b listing symbols
                            a.account_name w.next_cycle a.risk_level))))))
