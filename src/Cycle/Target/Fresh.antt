-- ===== src/Cycle/Target/Fresh.antt =====
-- services/trading_cycle_service: what the task of a cycle holds, from the strategy to the queue.
use crypto_mas.Portfolio.Weights.{build_target_portfolio}
use crypto_mas.Prelude.Int.{ℤ}
use crypto_mas.Portfolio.Selection.Candidates.{IsListing}
use crypto_mas.Prelude.Dict.{contains}
use crypto_mas.Strategy.{is_consider, TradingDecision}
use crypto_mas.Domain.{TargetPosition, PortfolioTarget, FeatureSnapshot}
use crypto_mas.Risk.Limits.{RiskLimits}
use crypto_mas.Cycle.Views.{PositionView, FeatureStore}
use crypto_mas.Numbers.{Numerics}
use crypto_mas.Prelude.{
  All-map_of, [], ap, ◌∷◌, none, some, Among, All-take, take, All-map, sym, ◌⊎◌, subst, All-map_inv,
  inr, inl, Option, All, ℕ, Bool, String, ◌≡◌, true, List,
}
use crypto_mas.Cycle.Strategies.Admitted.{OnOne, Listed, Entered, listed_from, Gives}
use crypto_mas.Cycle.Strategies.{run_strategies_and_score, Settings, Attempt}
use crypto_mas.Cycle.Target.{
  approved_portfolio, cash_target, apply_risk_and_execute, TradingCycleService, value_of,
}
use crypto_mas.Portfolio.Results.{build_target_portfolio-sources, Source}
use crypto_mas.Portfolio.Weights.Headings.{heading}
use crypto_mas.Risk.Engine.Decisions.{assess_cases, try_reduce_positions}
use crypto_mas.Risk.Engine.{try_reduce}

among_All : {A : Type 0} (P : A → Type 0) (x : A) (xs : List A) → All P xs → Among x xs → P x
among_All P x [] h m = absurd m
among_All P x (y ∷ ys) h (inl e) = subst P (sym e) h.0
among_All P x (y ∷ ys) h (inr m) = among_All P x ys h.1 m

Gives-map :
    {S A : Type 0} (P Q : A → Type 0) (m : Attempt S A)
    → ((a : A) → P a → Q a)
    → Gives P m
    → Gives Q m
Gives-map P Q (none, s) f h = tt
Gives-map P Q (some a, s) f h = f a h

module _ ⦃n : Numerics⦄ where
  -- The symbols of the approved target are among those of the target.
  approved_symbols :
      (P : String → Type 0) (limits : RiskLimits) (t : PortfolioTarget) (now : ℕ)
      → All (λ p. P p.symbol) t.target_positions
      → All (λ p. P p.symbol) (approved_portfolio limits t now).target_positions
  unfolding approved_portfolio cash_target
  approved_symbols P limits t now h = elim (assess_cases limits t) [
    | inl (s, e, w) ↦ rw (e, approved_portfolio) h
    | inr (inl (s, e, w, u)) ↦
        rw (e, approved_portfolio)
          (let (same, plain) = try_reduce_positions limits t in
            All-map_inv P (λ p. p.symbol) (try_reduce limits t).target_positions
              (subst (All P) (sym same) (
                All-map P (λ p. p.symbol) (take limits.max_positions t.target_positions)
                  (All-take (λ p. P p.symbol) limits.max_positions t.target_positions h))))
    | inr (inr (s, e, w, u)) ↦ rw (e, approved_portfolio) tt
  ]

  module _ (one_place : n.Float → String) {S : Type 0} (store : FeatureStore S)
      (decide : String → List FeatureSnapshot → Bool → Option (Option TradingDecision))
      (v : PositionView) (c : Settings) (start : S) where
    -- A symbol that is open, or that the strategy may enter: on the evidence of its own fresh features in
    -- the store, which starts as `start`, with no stop of late.
    abbrev pub Admissible : String → Type 0
    Admissible s =
        (contains s v.open_symbols ≡ true)
        ⊎ ((d : TradingDecision) × (is_consider d.action ≡ true)
            × Entered one_place store decide v c start s d)

    module _
        (answers : (symbol : String) (snapshots : List FeatureSnapshot) (opened : Bool)
            (d : TradingDecision)
          → decide symbol snapshots opened ≡ some (some d)
          → d.symbol ≡ symbol) where
      entered_of :
          (symbol : String) (d : TradingDecision)
          → is_consider d.action ≡ true
          → Listed one_place store decide v c start symbol d
          → Admissible d.symbol
      entered_of symbol d h k = elim k.entered [
        | inl other ↦ absurd (cc)
        | inr e ↦
            let same : d.symbol ≡ symbol = answers symbol _ _ d e.own in
            inr (d, h, subst (λ s. Entered one_place store decide v c start s d) (sym same) e)
      ]

      Source-Admissible :
          (b : TradingCycleService) (symbols : List String) (ds : List TradingDecision)
          (p : TargetPosition)
          → All (OnOne one_place store decide v c start symbols) ds
          → Source b.runtime b.portfolio_engine ds v.open_symbols (heading p)
          → Admissible p.symbol
      Source-Admissible b symbols ds p h (inl (stays, side)) = inl stays.0
      Source-Admissible b symbols ds p h (inr (d, among, same, enters, c1, c2, c3)) =
          let (symbol, asked, k) =
            among_All (OnOne one_place store decide v c start symbols) d ds h among in
          subst Admissible (sym (ap (λ e. e.0) same)) (entered_of symbol d enters k)

      -- If the strategy decides on the symbol that it is asked about: whatever it decides, each position
      -- of the target that a cycle puts into the queue is of a symbol that is open; or of one in which
      -- the strategy made a decision to enter, of the features of that symbol which the store then has and
      -- which are not stale, where the symbol is not open and not cooling down and no shield would have
      -- blocked the decision.
      pub apply_risk_and_execute-Admissible :
          (b : TradingCycleService) (listing : IsListing b.runtime) (symbols : List String)
          (account : String) (cycle_id : ℕ) (risk_level : ℤ)
          → Gives
              (λ ds.
                All
                  (λ p. Admissible p.symbol)
                  (apply_risk_and_execute b c.timeframe account cycle_id ds v.open_symbols
                    risk_level c.now).target.target_positions)
              (run_strategies_and_score one_place store decide v c symbols start)
      unfolding apply_risk_and_execute
      apply_risk_and_execute-Admissible b listing symbols account cycle_id risk_level =
          Gives-map (All (OnOne one_place store decide v c start symbols)) _
            (run_strategies_and_score one_place store decide v c symbols start)
            (λ ds h.
              let t =
                build_target_portfolio b.runtime b.portfolio_engine b.exchange
                  (value_of c.timeframe) ds v.open_symbols risk_level c.now in
              approved_symbols Admissible b.limits t c.now (
                All-map_of (λ p. Source b.runtime b.portfolio_engine ds v.open_symbols (heading p))
                  (λ p. Admissible p.symbol) t.target_positions
                  (λ p k. Source-Admissible b symbols ds p h k)
                  (build_target_portfolio-sources b.runtime listing b.portfolio_engine ds
                    v.open_symbols b.exchange (value_of c.timeframe) risk_level c.now)))
            (listed_from one_place store decide v c symbols start)
