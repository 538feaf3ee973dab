-- ===== src/Cycle/Strategies/Admitted.antt =====
-- services/trading_cycle_service/strategy_orchestrator.py: what is known of the decisions in the list.
use crypto_mas.Prelude.Dict.Laws.{str_eq_refl}
use crypto_mas.Risk.Models.{last, Context}
use crypto_mas.MarketData.Schemas.{Timeframe}
use crypto_mas.Repository.Positions.{minutes}
use crypto_mas.Prelude.Dict.{contains}
use crypto_mas.Strategy.{is_consider, is_hold, TradingDecision}
use crypto_mas.Domain.{FeatureSnapshot}
use crypto_mas.Cycle.Views.{PositionView, FeatureStore, get_timedelta}
use crypto_mas.Numbers.{Numerics}
use crypto_mas.Prelude.{
  ◌&&◌, [], sym, subst, inr, Bool-cases, arith, inl, All-map_of, ◌∷◌, some, ◌⊎◌, All, Option-cases,
  if◌then◌else◌, ap, ℕ, ◌+◌, ◌≤◌, Option, Bool, none, String, ◌≡◌, refl, false, true, not, List,
}
use crypto_mas.Cycle.Strategies.{
  Attempt, and_then, refresh, htf_of, Settings, is_stale, add_listed, listed, decided, answer,
  consult, look, visit, run_strategies_and_score,
}
use crypto_mas.Cycle.Gates.Passed.{Passes, gates-Passes}
use crypto_mas.Cycle.Gates.{gates, is_listed, is_avoid}

-- Of what an attempt gives, if it gives anything, the property holds.
abbrev pub Gives : {S A : Type 0} → (A → Type 0) → Attempt S A → Type 0
Gives P (none, s) = Unit
Gives P (some a, s) = P a

-- Likewise, of the value and of the state that it leaves.
abbrev pub Leaves : {S A : Type 0} → (A → S → Type 0) → Attempt S A → Type 0
Leaves P (none, s) = Unit
Leaves P (some a, s) = P a s

pub Leaves-then :
    {S A B : Type 0} (P : A → S → Type 0) (Q : B → S → Type 0) (m : Attempt S A)
    (f : A → S → Attempt S B)
    → Leaves P m
    → ((a : A) (s : S) → P a s → Leaves Q (f a s))
    → Leaves Q (and_then m f)
Leaves-then P Q (none, s) f h k = tt
Leaves-then P Q (some a, s) f h k = k a s h

Gives-left :
    {S A : Type 0} (P : A → Type 0) (Q : A → S → Type 0) (m : Attempt S A)
    → Leaves (λ a s. P a × Q a s) m
    → Gives P m
Gives-left P Q (none, s) h = tt
Gives-left P Q (some a, s) h = h.0

pub returned-Leaves :
    {S : Type 0} (x : Bool × S) → Leaves (λ a s. s ≡ x.1) (if x.0 then some true else none, x.1)
returned-Leaves (true, s) = refl
returned-Leaves (false, s) = tt

either_way :
    {S A : Type 0} (R : S → Type 0) (b : Bool) (x y : A) (m k : Attempt S A)
    → Leaves (λ a s. (a ≡ x) × R s) m
    → Leaves (λ a s. (a ≡ y) × R s) k
    → Leaves (λ a s. (a ≡ (if b then x else y)) × R s) (if b then m else k)
either_way R true x y m k h g = h
either_way R false x y m k h g = g

held_or_open : (a b c : Bool) → (not a && not (b && not c)) ≡ true → (b ≡ false) ⊎ (c ≡ true)
held_or_open a true true h = inr refl
held_or_open true true false h = absurd (cc)
held_or_open false true false h = absurd (cc)
held_or_open a false c h = inl refl

module _ ⦃n : Numerics⦄ where
  module _ {S : Type 0} (store : FeatureStore S) (c : Settings) where
    -- The features after the pipeline has written those of a symbol.
    abbrev pub written : String → Timeframe → Option ℕ → S → S
    written symbol timeframe end s =
        if c.is_backtest then s else (store.calculate_and_store symbol timeframe end s).1

    -- What is read of a symbol: its last five snapshots up to now, of the cycle's timeframe and, where the
    -- shield asks for it, of the higher one.
    abbrev pub now_written : String → S → S
    now_written symbol = written symbol c.timeframe (some c.now)

    abbrev pub seen : String → S → List FeatureSnapshot
    seen symbol s = store.list_by_symbol (now_written symbol s) symbol c.timeframe (some c.now) 5

    abbrev pub higher : Option Timeframe → String → S → List FeatureSnapshot
    higher none symbol s = []
    higher (some htf) symbol s =
        if c.use_htf_shield
        then store.list_by_symbol (written symbol htf none s) symbol htf (some c.now) 5
        else []

    -- The features that a loop over symbols comes to, from those it starts with: only the pipeline has
    -- written to them, and only symbols of the two timeframes, up to now.
    pub data Reached (start : S) : S → Type 0 where
      begun : Reached start start
      after_symbol :
          (symbol : String) {s : S} → Reached start s → Reached start (now_written symbol s)
      after_higher :
          (symbol : String) (htf : Timeframe) {s : S}
          → c.htf ≡ some htf
          → Reached start s
          → Reached start (written symbol htf none s)

    -- The context of the shields.
    abbrev pub shielding : String → S → Context
    shielding symbol s = record {
      use_btc_shield = c.use_btc_shield;
      btc_is_crashing = c.btc_is_crashing;
      use_htf_shield = c.use_htf_shield;
      htf_snapshots = higher c.htf symbol (now_written symbol s);
      use_regime_shield = c.use_regime_shield;
    }

    -- The last snapshot that is seen is of the last bar, or a quarter of an hour older.
    pub record Fresh (symbol : String) (s : S) (latest : FeatureSnapshot) : Type 0 where
      pub among : last (seen symbol s) ≡ some latest
      pub recent : c.now ≤ latest.timestamp + (get_timedelta c.timeframe + minutes 15)

  module _ (one_place : n.Float → String) {S : Type 0} (store : FeatureStore S)
      (decide : String → List FeatureSnapshot → Bool → Option (Option TradingDecision))
      (v : PositionView) (c : Settings) (start : S) where
    -- What stands behind a decision to enter: the strategy's own decision, on the fresh features of the
    -- symbol that are in the store when its turn comes.
    pub record Entered (symbol : String) (d : TradingDecision) : Type 0 where
      pub before : S
      pub reached : Reached store c start before
      pub latest : FeatureSnapshot
      pub fresh : Fresh store c symbol before latest
      pub own :
          decide symbol (seen store c symbol before) (contains symbol v.open_symbols)
          ≡ some (some d)
      pub passes : Passes v (shielding store c symbol before) symbol latest.features d

    -- A decision of the list, on a symbol.
    pub record Listed (symbol : String) (d : TradingDecision) : Type 0 where
      pub wanted : is_avoid d.action ≡ false
      pub held : (is_hold d.action ≡ false) ⊎ (contains symbol v.open_symbols ≡ true)
      pub entered : (is_consider d.action ≡ false) ⊎ Entered symbol d

    abbrev MaybeListed : String → Option TradingDecision → Type 0
    MaybeListed symbol none = Unit
    MaybeListed symbol (some d) = Listed symbol d

    kept-Listed :
        (symbol : String) (before : S) (latest : FeatureSnapshot) (d : TradingDecision)
        → Reached store c start before
        → Fresh store c symbol before latest
        → decide symbol (seen store c symbol before) (contains symbol v.open_symbols)
          ≡ some (some d)
        → let r =
            gates one_place v c.strategy_name
              (shielding store c symbol before)
              symbol
              latest.features
              d in
          is_listed v symbol r ≡ true → Listed symbol r
    unfolding is_listed
    kept-Listed symbol before latest d reached fresh o kept =
        let x = shielding store c symbol before in
        let r = gates one_place v c.strategy_name x symbol latest.features d in
        record {
          wanted = ground arith;
          held =
              held_or_open (is_avoid r.action) (is_hold r.action) (contains symbol v.open_symbols)
                kept;
          entered = elim (Bool-cases (is_consider r.action)) [
            | inr other ↦ inl other
            | inl enters ↦
                let (e, p) =
                  gates-Passes one_place v c.strategy_name x symbol latest.features d enters in
                inr (
                  subst (Entered symbol) (sym e) (record {
                    before = before;
                    reached = reached;
                    latest = latest;
                    fresh = fresh;
                    own = o;
                    passes = p;
                  }))
          ];
        }

    -- What a turn finds, and the features that it leaves.
    abbrev Turn : String → Option TradingDecision → S → Type 0
    Turn symbol found s = MaybeListed symbol found × Reached store c start s

    decided-Listed :
        (symbol : String) (before : S) (latest : FeatureSnapshot) (made : Option TradingDecision)
        → Reached store c start before
        → Fresh store c symbol before latest
        → decide symbol (seen store c symbol before) (contains symbol v.open_symbols) ≡ some made
        → MaybeListed symbol (
            decided one_place store decide v c symbol latest
              (higher store c c.htf symbol (now_written store c symbol before))
              made)
    unfolding decided listed
    decided-Listed symbol before latest none reached fresh o = tt
    decided-Listed symbol before latest (some d) reached fresh o =
        let x = shielding store c symbol before in
        let r = gates one_place v c.strategy_name x symbol latest.features d in
        elim (Bool-cases (is_listed v symbol r)) [
          | inr out ↦ rw out tt
          | inl kept ↦ rw kept (kept-Listed symbol before latest d reached fresh o kept)
        ]

    answer-Turn :
        (symbol : String) (before s : S) (latest : FeatureSnapshot)
        → Reached store c start before
        → Reached store c start s
        → Fresh store c symbol before latest
        → Leaves (Turn symbol) (
            answer one_place store decide v c symbol
              (seen store c symbol before)
              latest
              (higher store c c.htf symbol (now_written store c symbol before))
              s)
    unfolding answer
    answer-Turn symbol before s latest reached after fresh =
        let snapshots = seen store c symbol before in
        elim (Option-cases (decide symbol snapshots (contains symbol v.open_symbols))) [
          | inl o ↦ rw (o, answer) tt
          | inr (made, o) ↦
              rw (o, answer) (decided-Listed symbol before latest made reached fresh o, after)
        ]

    refresh-Leaves :
        (symbol : String) (timeframe : Timeframe) (end : Option ℕ) (s : S)
        → Leaves
            (λ a t. t ≡ written store c symbol timeframe end s)
            (refresh one_place store decide v c symbol timeframe end s)
    unfolding refresh
    refresh-Leaves symbol timeframe end s = elim (Bool-cases c.is_backtest) [
      | inl k ↦ rw k refl
      | inr k ↦ rw k (returned-Leaves (store.calculate_and_store symbol timeframe end s))
    ]

    htf_of-Leaves :
        (symbol : String) (htf : Option Timeframe) (s : S)
        → c.htf ≡ htf
        → Reached store c start s
        → Leaves
            (λ h t. (h ≡ higher store c htf symbol s) × Reached store c start t)
            (htf_of one_place store decide v c symbol htf s)
    unfolding htf_of
    htf_of-Leaves symbol none s e reached = (refl, reached)
    htf_of-Leaves symbol (some htf) s e reached =
        let now = written store c symbol htf none s in
        let read : S → List FeatureSnapshot =
          λ t. store.list_by_symbol t symbol htf (some c.now) 5 in
        either_way (Reached store c start) c.use_htf_shield (read now) [] _ _
          (Leaves-then (λ a t. t ≡ now) (λ h t. (h ≡ read now) × Reached store c start t)
            (refresh one_place store decide v c symbol htf none s) (λ a t. (some (read t), t))
            (refresh-Leaves symbol htf none s)
            (λ a t k. (
              ap read k,
              subst (Reached store c start) (sym k) (after_higher symbol htf e reached),
            )))
          (refl, reached)

    consult-Turn :
        (symbol : String) (before : S) (latest : FeatureSnapshot)
        → Reached store c start before
        → last (seen store c symbol before) ≡ some latest
        → Leaves (Turn symbol) (
            consult one_place store decide v c symbol
              (seen store c symbol before)
              latest
              (now_written store c symbol before))
    unfolding consult is_stale
    consult-Turn symbol before latest reached l =
        let snapshots = seen store c symbol before in
        let now = now_written store c symbol before in
        let after : Reached store c start now = after_symbol symbol reached in
        elim (Bool-cases (is_stale c.timeframe c.now latest)) [
          | inl old ↦ rw (old, consult) (tt, after)
          | inr k ↦
              rw (k, consult)
                (Leaves-then
                  (λ h t. (h ≡ higher store c c.htf symbol now) × Reached store c start t)
                  (Turn symbol) _
                  (λ h t. answer one_place store decide v c symbol snapshots latest h t)
                  (htf_of-Leaves symbol c.htf now refl after)
                  (λ h t (e, r).
                    subst
                      (λ x.
                        Leaves (Turn symbol)
                          (answer one_place store decide v c symbol snapshots latest x t))
                      (sym e)
                      (answer-Turn symbol before t latest reached r
                        (record { among = l; recent = ground (arith, k) }))))
        ]

    look-Turn :
        (symbol : String) (s : S)
        → Reached store c start s
        → Leaves (Turn symbol) (
            look one_place store decide v c symbol
              (seen store c symbol s)
              (now_written store c symbol s))
    unfolding look
    look-Turn symbol s reached = elim (Option-cases (last (seen store c symbol s))) [
      | inl e ↦ rw (e, look) (tt, after_symbol symbol reached)
      | inr (latest, e) ↦ rw (e, look) (consult-Turn symbol s latest reached e)
    ]

    visit-Turn :
        (symbol : String) (s : S)
        → Reached store c start s
        → Leaves (Turn symbol) (visit one_place store decide v c symbol s)
    unfolding visit
    visit-Turn symbol s reached =
        let now = now_written store c symbol s in
        let read : S → List FeatureSnapshot =
          λ t. store.list_by_symbol t symbol c.timeframe (some c.now) 5 in
        Leaves-then (λ a t. t ≡ now) (Turn symbol)
          (refresh one_place store decide v c symbol c.timeframe (some c.now) s)
          (λ a t. look one_place store decide v c symbol (read t) t)
          (refresh-Leaves symbol c.timeframe (some c.now) s)
          (λ a t e.
            subst (λ t. Leaves (Turn symbol) (look one_place store decide v c symbol (read t) t))
              (sym e) (look-Turn symbol s reached))

    -- A decision of the list, on one of the symbols.
    abbrev pub OnOne : List String → TradingDecision → Type 0
    OnOne symbols d = (symbol : String) × (contains symbol symbols ≡ true) × Listed symbol d

    with_more :
        (x : String) (symbols : List String) (ds : List TradingDecision)
        → All (OnOne symbols) ds
        → All (OnOne (x ∷ symbols)) ds
    with_more x symbols ds h =
        All-map_of (OnOne symbols) (OnOne (x ∷ symbols)) ds
          (λ d (symbol, among, k). (symbol, ground arith, k)) h

    add-Listed :
        (symbol : String) (symbols : List String) (found : Option TradingDecision)
        (rest : List TradingDecision)
        → MaybeListed symbol found
        → All (OnOne symbols) rest
        → All (OnOne (symbol ∷ symbols)) (add_listed one_place store decide v c found rest)
    add-Listed symbol symbols none rest h k = with_more symbol symbols rest k
    add-Listed symbol symbols (some d) rest h k =
        ((symbol, rw (str_eq_refl symbol) refl, h), with_more symbol symbols rest k)

    -- Each decision of the list is not one to avoid; is one to hold only if its symbol is open; and is one
    -- to enter only if the strategy made it of the fresh features of its symbol, the symbol is neither open
    -- nor cooling down, and no shield would have blocked it.
    pub run_strategies_and_score-Listed :
        (symbols : List String) (s : S)
        → Reached store c start s
        → Leaves
            (λ ds t. All (OnOne symbols) ds × Reached store c start t)
            (run_strategies_and_score one_place store decide v c symbols s)
    unfolding run_strategies_and_score
    run_strategies_and_score-Listed [] s reached = (tt, reached)
    run_strategies_and_score-Listed (symbol ∷ symbols) s reached =
        Leaves-then (Turn symbol) _ _ _ (visit-Turn symbol s reached) (λ found s' h.
          Leaves-then (λ ds t. All (OnOne symbols) ds × Reached store c start t) _ _ _
            (run_strategies_and_score-Listed symbols s' h.1)
            (λ rest s'' k. (add-Listed symbol symbols found rest h.0 k.0, k.1)))

  -- The list of a loop, from the features it starts with.
  pub listed_from :
      (one_place : n.Float → String) {S : Type 0} (store : FeatureStore S)
      (decide : String → List FeatureSnapshot → Bool → Option (Option TradingDecision))
      (v : PositionView) (c : Settings) (symbols : List String) (s : S)
      → Gives
          (All (OnOne one_place store decide v c s symbols))
          (run_strategies_and_score one_place store decide v c symbols s)
  listed_from one_place store decide v c symbols s =
      Gives-left (All (OnOne one_place store decide v c s symbols)) (λ ds t. Reached store c s t) _
        (run_strategies_and_score-Listed one_place store decide v c s symbols s begun)
