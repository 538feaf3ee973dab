-- ===== src/Portfolio/Weights/Headings.antt =====
-- engine/portfolio/portfolio.py: whose positions a target holds, and on which side.
use crypto_mas.Portfolio.Replacement.{all_close_reasons, Selection}
use crypto_mas.Prelude.Int.{ℤ}
use crypto_mas.Risk.Engine.{sum_weights}
use crypto_mas.Strategy.{TradingDecision}
use crypto_mas.Portfolio.Selection.{PortfolioEngine, is_empty}
use crypto_mas.Portfolio.Weights.{
  available_exposure, is_correlated, a_weight_base, side_of, to_target_position, map, no_candidates,
  rescale, weigh, positions_of, scale_down, target_from, target_of, cap_correlated,
  retained_position,
}
use crypto_mas.Numbers.{float_lt, Numerics}
use crypto_mas.Prelude.{
  filter, ℕ, length, map-append, drop-append, take-append, length-map, sym, ◌∙◌, and_true, ◌&&◌,
  suc, Bool-cases, ap, String, ◌≡◌, arith, List, [], ◌∷◌, ◌++◌, inl, inr, refl, true,
}
use crypto_mas.Domain.{PositionSide, TargetPosition, long}

module _ ⦃n : Numerics⦄ where
  open n use {Float, float_lit, float_div, round_six}

  abbrev pub heading : TargetPosition → String × PositionSide
  heading p = (p.symbol, p.side)

  abbrev pub entry : TradingDecision → String × PositionSide
  entry d = (d.symbol, side_of d.action)

  abbrev pub held : String → String × PositionSide
  held s = (s, long)

  heading-weigh :
      (ds : List TradingDecision) (base available : Float)
      → map heading (weigh base available ds) ≡ map entry ds
  unfolding weigh to_target_position
  heading-weigh [] base available = refl
  heading-weigh (d ∷ ds) base available = ap (λ r. entry d ∷ r) (heading-weigh ds base _)

  length-weigh :
      (ds : List TradingDecision) (base available : Float)
      → length (weigh base available ds) ≡ length ds
  unfolding weigh
  length-weigh [] base available = refl
  length-weigh (d ∷ ds) base available = ap suc (length-weigh ds base _)

  heading-rescale :
      (e : PortfolioEngine) (scale : Float) (ps : List TargetPosition) (ds : List TradingDecision)
      → length ps ≡ length ds
      → map heading (rescale e scale ps ds) ≡ map entry ds
  unfolding rescale to_target_position
  heading-rescale e scale (p ∷ ps) (d ∷ ds) h =
      ap (λ r. entry d ∷ r) (heading-rescale e scale ps ds (omega (arith, h)))
  heading-rescale e scale [] [] h = refl
  heading-rescale e scale [] (d ∷ ds) h = absurd (omega (arith, h))
  heading-rescale e scale (p ∷ ps) [] h = absurd (omega (arith, h))

  heading-retained : (ss : List String) → map heading (map retained_position ss) ≡ map held ss
  unfolding retained_position
  heading-retained [] = refl
  heading-retained (s ∷ ss) = ap (λ r. held s ∷ r) (heading-retained ss)

  heading-scale_down :
      (k : Float) (ps : List TargetPosition) → map heading (map (scale_down k) ps) ≡ map heading ps
  unfolding scale_down
  heading-scale_down k [] = refl
  heading-scale_down k (p ∷ ps) = ap (λ r. heading p ∷ r) (heading-scale_down k ps)

  heading-cap_correlated :
      (e : PortfolioEngine) (ss : List String) (ds : List TradingDecision)
      (ps : List TargetPosition)
      → map heading ps ≡ map entry ds
      → length ps ≡ length ds
      → map heading (cap_correlated e (length ss) ds (map retained_position ss ++ ps))
        ≡ map held ss ++ map entry ds
  unfolding cap_correlated
  heading-cap_correlated e ss ds ps h k =
      let old = map retained_position ss in
      let total = sum_weights (filter (is_correlated e) (old ++ ps)) in
      elim (Bool-cases
        (float_lt e.max_correlated_group_weight total && float_lt (float_lit 0 0) total)) [
          | inl t ↦ rw t (
              let l : length ss ≡ length old = sym (length-map retained_position ss) in
              rw (l, take-append old ps, drop-append old ps)
                (map-append heading old _ ∙ rw (heading-retained ss, heading-rescale e _ ps ds k)))
          | inr t ↦ rw t (map-append heading old ps ∙ rw (heading-retained ss, h))
        ]

  heading-positions_of :
      (e : PortfolioEngine) (risk_level : ℤ) (s : Selection)
      → map heading (positions_of e risk_level s) ≡ map held s.retained ++ map entry s.selected_new
  unfolding positions_of
  heading-positions_of e risk_level s =
      heading-cap_correlated e s.retained s.selected_new _
        (heading-weigh s.selected_new (a_weight_base risk_level) (available_exposure e s.retained))
        (length-weigh s.selected_new (a_weight_base risk_level) (available_exposure e s.retained))

  heading-target_of :
      (exchange timeframe : String) (now : ℕ) (reasons : List (String × String))
      (ps : List TargetPosition)
      → map heading (target_of exchange timeframe now reasons ps).target_positions ≡ map heading ps
  unfolding target_of
  heading-target_of exchange timeframe now reasons ps =
      elim (Bool-cases (float_lt (float_lit 1 0) (round_six (sum_weights ps)))) [
        | inl t ↦ rw t (heading-scale_down _ ps)
        | inr t ↦ rw t refl
      ]

  empty_of : {A : Type 0} (xs : List A) → is_empty xs ≡ true → xs ≡ []
  empty_of [] h = refl
  empty_of (x ∷ xs) h = cc

  pub heading-target_from :
      (e : PortfolioEngine) (exchange timeframe : String) (risk_level : ℤ) (now : ℕ) (s : Selection)
      → map heading (target_from e exchange timeframe risk_level now s).target_positions
        ≡ map held s.retained ++ map entry s.selected_new
  unfolding target_from no_candidates
  heading-target_from e exchange timeframe risk_level now s =
      elim (Bool-cases (is_empty s.retained && is_empty s.selected_new)) [
        | inl t ↦
            let both = and_true (is_empty s.retained) (is_empty s.selected_new) t in
            rw (t, empty_of s.retained both.0, empty_of s.selected_new both.1)
        | inr t ↦ rw t (
            heading-target_of exchange timeframe now (all_close_reasons s)
              (positions_of e risk_level s)
            ∙ heading-positions_of e risk_level s)
      ]

  pub target_from-reasons :
      (e : PortfolioEngine) (exchange timeframe : String) (risk_level : ℤ) (now : ℕ) (s : Selection)
      → (target_from e exchange timeframe risk_level now s).close_reasons ≡ all_close_reasons s
  unfolding target_from no_candidates target_of
  target_from-reasons e exchange timeframe risk_level now s =
      elim (Bool-cases (is_empty s.retained && is_empty s.selected_new)) [
        | inl t ↦ rw t refl
        | inr t ↦ rw t refl
      ]
