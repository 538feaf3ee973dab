-- ===== src/Portfolio/Results.antt =====
-- engine/portfolio/portfolio.py: what the target says of the open positions and of the decisions.
use crypto_mas.Prelude.Dict.Laws.{contains-append}
use crypto_mas.Portfolio.Replacement.Chosen.{length-select, select-All, select_accounts}
use crypto_mas.Portfolio.Weights.Headings.{
  target_from-reasons, heading-target_from, entry, held, heading,
}
use crypto_mas.Portfolio.Weights.{build_target_portfolio}
use crypto_mas.Portfolio.Replacement.{all_close_reasons, select, Selection}
use crypto_mas.Strategy.{is_consider, TradingDecision}
use crypto_mas.Portfolio.Selection.Candidates.{
  adjust_bear, is_bear_long, All-new_candidates, adjust-Adjusted, All-retained_symbols,
  retained_or_closed, candidate_tests, Comes, Stays, IsListing,
}
use crypto_mas.Portfolio.Selection.{
  in_group, adjust, new_candidates, retained_symbols, PortfolioEngine, Runtime,
}
use crypto_mas.Numbers.{float_lt, Numerics}
use crypto_mas.Prelude.Int.{ℤ}
use crypto_mas.Prelude.Dict.{contains, has}
use crypto_mas.Prelude.{
  eq_iff, Bool-cases, str_eq, All-map, All-append, All-map_inv, length-append, map_same, length-map,
  All-map_of, map-append, ap, ◌-◌, min, ◌∙◌, Among, map-map, ◌+◌, ◌⊎◌, sym, length, All, map, ℕ,
  String, ◌≡◌, arith, List, ◌++◌, inl, inr, refl, true, false,
}
use crypto_mas.Domain.{TargetPosition, PortfolioTarget, PositionSide, long}

module _ ⦃n : Numerics⦄ where
  open n use {Float, float_lit, float_le}

  -- Where a position of the target comes from, by its symbol and side.
  abbrev pub Source :
      Runtime
      → PortfolioEngine
      → List TradingDecision
      → List String
      → String × PositionSide
      → Type 0
  Source rt e ds open_positions h =
      (Stays ds open_positions h.0 × (h.1 ≡ long))
      ⊎ ((d : TradingDecision) × Among d ds
          × (h ≡ entry d)
          × (is_consider d.action ≡ true)
          × (float_le e.min_confidence (adjust e d).confidence ≡ true)
          × (float_lt (float_lit 0 0) d.final_score ≡ true)
          × (contains d.symbol (retained_symbols rt ds open_positions) ≡ false))

  abbrev pub Quality :
      PortfolioEngine → List TradingDecision → List String → TargetPosition → Type 0
  Quality e ds open_positions p =
      (contains p.symbol open_positions ≡ true)
      ⊎ ((d : TradingDecision) × Among d ds
          × (heading p ≡ entry d)
          × ((is_bear_long d ≡ false) ⊎ (in_group e "TOP10" d ≡ true)))

  abbrev Longs : String → TargetPosition → Type 0
  Longs s p = (str_eq p.symbol s ≡ false) ⊎ (p.side ≡ long)

  module _ (rt : Runtime) (listing : IsListing rt) (e : PortfolioEngine) (ds : List TradingDecision)
      (open_positions : List String) (exchange timeframe : String) (risk_level : ℤ) (now : ℕ) where
    abbrev pub target : PortfolioTarget
    target = build_target_portfolio rt e exchange timeframe ds open_positions risk_level now

    abbrev chosen : Selection
    chosen = select rt e ds open_positions

    heading-target :
        map heading target.target_positions
        ≡ map held chosen.retained ++ map entry chosen.selected_new
    unfolding build_target_portfolio
    heading-target = heading-target_from e exchange timeframe risk_level now chosen

    symbols-target :
        map (λ p. p.symbol) target.target_positions
        ≡ chosen.retained ++ map (λ d. d.symbol) chosen.selected_new
    symbols-target =
        sym (map-map (λ h. h.0) heading target.target_positions)
        ∙ ap (map (λ h. h.0)) heading-target
        ∙ map-append (λ h. h.0) (map held chosen.retained) (map entry chosen.selected_new)
        ∙ rw (map-map (λ h. h.0) held chosen.retained, map-map (λ h. h.0) entry chosen.selected_new)
            (ap (λ r. r ++ map (λ d. d.symbol) chosen.selected_new) (map_same chosen.retained))

    reasons-target : target.close_reasons ≡ all_close_reasons chosen
    unfolding build_target_portfolio
    reasons-target = target_from-reasons e exchange timeframe risk_level now chosen

    -- The target has as many positions as open symbols were kept at first, and as candidates found a
    -- slot: a replacement changes who holds a place, and never how many places there are.
    pub build_target_portfolio-length :
        length target.target_positions
        ≡ length (retained_symbols rt ds open_positions)
          + min
              (e.max_positions - length (retained_symbols rt ds open_positions))
              (length (new_candidates e (retained_symbols rt ds open_positions) ds))
    build_target_portfolio-length = omega (
      arith,
      length-map heading target.target_positions,
      ap length heading-target,
      length-append (map held chosen.retained) (map entry chosen.selected_new),
      length-map held chosen.retained,
      length-map entry chosen.selected_new,
      length-select rt e ds open_positions,
    )

    -- No open position is forgotten: the target holds each open symbol, or gives a reason to close it.
    pub build_target_portfolio-accounts :
        (s : String)
        → contains s open_positions ≡ true
        → (contains s (map (λ p. p.symbol) target.target_positions) ≡ true)
          ⊎ (has s target.close_reasons ≡ true)
    build_target_portfolio-accounts s h =
        elim (select_accounts rt e ds open_positions s
          (retained_or_closed rt listing ds open_positions s h)) [
            | inl k ↦ inl (rw symbols-target (contains-append s chosen.retained _ k))
            | inr k ↦ inr (rw reasons-target k)
          ]

    candidate-Source :
        (c : TradingDecision)
        → Comes e (retained_symbols rt ds open_positions) ds c
        → Source rt e ds open_positions (entry c)
    candidate-Source c (d, among, same, passes) =
        let tests = candidate_tests e (retained_symbols rt ds open_positions) c passes in
        let adjusted = adjust-Adjusted e d in
        inr (
          d,
          among,
          rw (same, adjusted.same_symbol, adjusted.same_action),
          ap is_consider (sym adjusted.same_action) ∙ rw (← same) tests.0,
          rw (← same) tests.1,
          ap (float_lt (float_lit 0 0)) (sym adjusted.same_score) ∙ rw (← same) tests.2,
          ap (λ s. contains s (retained_symbols rt ds open_positions)) (sym adjusted.same_symbol)
              ∙ rw (← same) tests.3,
        )

    -- Each position of the target is an open symbol that no decision closes, held as a long one; or it
    -- comes from a decision of the list to enter, on that decision's side, whose adjusted confidence
    -- reaches the minimum, whose score is positive, and whose symbol was not kept at first.
    pub build_target_portfolio-sources :
        All (λ p. Source rt e ds open_positions (heading p)) target.target_positions
    build_target_portfolio-sources =
        let found =
          select-All rt e ds open_positions (λ s. Source rt e ds open_positions (held s))
            (λ c. Source rt e ds open_positions (entry c))
            (All-map_of (Stays ds open_positions) (λ s. Source rt e ds open_positions (held s)) _
              (λ s h. inl (h, refl)) (All-retained_symbols rt listing ds open_positions))
            (All-map_of (Comes e (retained_symbols rt ds open_positions) ds)
              (λ c. Source rt e ds open_positions (entry c)) _ candidate-Source
              (All-new_candidates e (retained_symbols rt ds open_positions) ds)) in
        All-map_inv (Source rt e ds open_positions) heading target.target_positions (
          rw heading-target (
            All-append (Source rt e ds open_positions) (map held chosen.retained)
              (map entry chosen.selected_new)
              (All-map (Source rt e ds open_positions) held chosen.retained found.0)
              (All-map (Source rt e ds open_positions) entry chosen.selected_new found.1)))

    Source-Quality :
        float_le e.min_confidence (float_lit 0 0) ≡ false
        → (p : TargetPosition) → Source rt e ds open_positions (heading p)
        → Quality e ds open_positions p
    Source-Quality strict p (inl (stays, side)) = inl stays.0
    Source-Quality strict p (inr (d, among, same, enters, sure, good, new)) = inr (
      d,
      among,
      same,
      elim (Bool-cases (is_bear_long d)) [
        | inr calm ↦ inl calm
        | inl falling ↦ elim (Bool-cases (in_group e "TOP10" d)) [
          | inl top ↦ inr top
          | inr other ↦ absurd (cc (strict, sure, adjust_bear e d falling other))
        ]
      ],
    )

    -- With a minimal confidence above zero, a symbol that was not open enters the target by a decision of
    -- the list that is not to buy in a falling market, or whose symbol is of the group TOP10.
    pub build_target_portfolio-flight :
        float_le e.min_confidence (float_lit 0 0) ≡ false
        → All (Quality e ds open_positions) target.target_positions
    build_target_portfolio-flight strict =
        All-map_of (λ p. Source rt e ds open_positions (heading p)) (Quality e ds open_positions)
          target.target_positions (Source-Quality strict) build_target_portfolio-sources

    -- A symbol that was kept at first stands in the target as a long position only.
    pub retained_as_long :
        (s : String)
        → contains s (retained_symbols rt ds open_positions) ≡ true
        → All (Longs s) target.target_positions
    retained_as_long s h =
        All-map_of (λ p. Source rt e ds open_positions (heading p)) (Longs s)
          target.target_positions (longs s h) build_target_portfolio-sources
      where
        longs :
            (s : String)
            → contains s (retained_symbols rt ds open_positions) ≡ true
            → (p : TargetPosition) → Source rt e ds open_positions (heading p)
            → Longs s p
        longs s h p (inl (stays, side)) = inr side
        longs s h p (inr (d, among, same, enters, sure, good, new)) =
            elim (Bool-cases (str_eq p.symbol s)) [
              | inr q ↦ inl q
              | inl q ↦ absurd (cc (h, new, ap (λ x. x.0) same, (eq_iff p.symbol s).0 q))
            ]
