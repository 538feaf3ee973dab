-- ===== src/Risk/Engine/Decisions.antt =====
-- What `RiskEngine.assess` lets through, and what a reduction keeps and loses.
use crypto_mas.Prelude.{
  ◌≤◌, ◌≡◌, ◌↔◌, ◌⊎◌, ◌∙◌, refl, ap, inl, inr, false, none, some, List, [], ◌∷◌, map, arith, length,
  take, ltb, All, Bool-cases,
}
use mathlib.Core.List.{cons≢nil}
use crypto_mas.Numbers.{float_min, Numerics, float_lt}
use crypto_mas.Domain.{long, TargetPosition, PortfolioTarget}
use crypto_mas.Risk.Limits.{approved, rejected, reduced, RiskCode, RiskLimits}
use crypto_mas.Risk.Engine.{
  rounded_sum, sum_weights, cash_of, epsilon, is_overweight, weight_issues, collect_issues,
  with_weight, cap, rescale, fit_exposure, fit_cash, try_reduce, decide, assess,
}

module _ ⦃n : Numerics⦄ where
  open n use {Float, float_lit, float_add, float_sub}

  -- A target that breaks no limit, up to the tolerance of 1e-9.
  pub record WithinLimits (l : RiskLimits) (t : PortfolioTarget) : Type 0 where
    pub positions : length t.target_positions ≤ l.max_positions
    pub exposure : float_lt (float_add l.max_gross_exposure epsilon) t.gross_exposure ≡ false
    pub cash : float_lt t.cash_weight (float_sub l.min_cash_weight epsilon) ≡ false
    pub weights : All (λ p. is_overweight l p ≡ false) t.target_positions

  weight_issues_iff :
      (l : RiskLimits) (ps : List TargetPosition)
      → (weight_issues l ps ≡ []) ↔ All (λ p. is_overweight l p ≡ false) ps
  unfolding weight_issues
  weight_issues_iff l [] = (λ h. tt, λ h. refl)
  weight_issues_iff l (p ∷ ps) = (
    (λ h. ground (arith, (weight_issues_iff l ps).0)),
    (λ h. rw h.0 ((weight_issues_iff l ps).1 h.1)),
  )

  collect_issues_iff :
      (l : RiskLimits) (t : PortfolioTarget) → (collect_issues l t ≡ []) ↔ WithinLimits l t
  unfolding collect_issues
  collect_issues_iff l t = (
    (λ h. record {
      positions = ground arith;
      exposure = ground arith;
      cash = ground arith;
      weights = (weight_issues_iff l t.target_positions).0 (ground arith);
    }),
    (λ h.
        let w = (weight_issues_iff l t.target_positions).1 h.weights in
        let few : ltb l.max_positions (length t.target_positions) ≡ false = ground arith in
        rw (few, h.exposure, h.cash, w) refl),
  )

  decide_cases :
      (l : RiskLimits) (t : PortfolioTarget) (before after : List RiskCode) {W V : Type 0}
      → (before ≡ []) ↔ W
      → (after ≡ []) ↔ V
      → let a = decide l t before after in
        ((a.status ≡ approved) × (a.approved_target ≡ some t) × W)
        ⊎ (((a.status ≡ reduced) × (a.approved_target ≡ some (try_reduce l t)) × ¬ W × V)
            ⊎ ((a.status ≡ rejected) × (a.approved_target ≡ none) × ¬ W × ¬ V))
  unfolding decide
  decide_cases l t [] after w v = inl (refl, refl, w.0 refl)
  decide_cases l t (i ∷ is) [] w v = inr (inl (refl, refl, (λ h. cons≢nil (w.1 h)), v.0 refl))
  decide_cases l t (i ∷ is) (j ∷ js) w v =
      inr (inr (refl, refl, (λ h. cons≢nil (w.1 h)), (λ h. cons≢nil (v.1 h))))

  -- What every scaling does to the symbols, and to the sides and the overrides of a plain position.
  abbrev Plain : TargetPosition → Type 0
  Plain p = (p.side ≡ long) × (p.sl_mult_override ≡ none) × (p.tp_mult_override ≡ none)

  record Keeps (ps qs : List TargetPosition) : Type 0 where
    symbols : map (λ p. p.symbol) qs ≡ map (λ p. p.symbol) ps
    plain : All Plain qs

  map-with_weight-Keeps :
      (f : TargetPosition → Float) (ps : List TargetPosition)
      → Keeps ps (map (λ p. with_weight p (f p)) ps)
  unfolding with_weight
  map-with_weight-Keeps f [] = record { symbols = refl; plain = tt }
  map-with_weight-Keeps f (p ∷ ps) =
      let rest = map-with_weight-Keeps f ps in
      record {
        symbols = ap (λ ss. p.symbol ∷ ss) rest.symbols;
        plain = ((refl, refl, refl), rest.plain);
      }

  Keeps-trans : {ps qs rs : List TargetPosition} → Keeps ps qs → Keeps qs rs → Keeps ps rs
  Keeps-trans h k = record { symbols = k.symbols ∙ h.symbols; plain = k.plain }

  fit_exposure-Keeps :
      (l : RiskLimits) (ps : List TargetPosition) → All Plain ps → Keeps ps (fit_exposure l ps)
  unfolding fit_exposure rescale
  fit_exposure-Keeps l ps h = elim (Bool-cases (float_lt l.max_gross_exposure (sum_weights ps))) [
    | inl e ↦ rw e (map-with_weight-Keeps _ ps)
    | inr e ↦ rw e (record { symbols = refl; plain = h })
  ]

  fit_cash-Keeps :
      (l : RiskLimits) (ps : List TargetPosition) → All Plain ps → Keeps ps (fit_cash l ps)
  unfolding fit_cash rescale
  fit_cash-Keeps l ps h =
      elim (Bool-cases (float_lt (cash_of (rounded_sum ps)) l.min_cash_weight)) [
        | inl e ↦ elim (Bool-cases (float_lt (float_lit 0 0) (rounded_sum ps))) [
          | inl d ↦ rw (e, d) (map-with_weight-Keeps _ ps)
          | inr d ↦ rw (e, d) (record { symbols = refl; plain = h })
        ]
        | inr e ↦ rw e (record { symbols = refl; plain = h })
      ]

  -- The three verdicts: a target within the limits is approved as it is; one that is not, but whose
  -- reduction is, is replaced by the reduction; and all others are rejected with no target.
  pub assess_cases :
      (l : RiskLimits) (t : PortfolioTarget)
      → let a = assess l t in
        ((a.status ≡ approved) × (a.approved_target ≡ some t) × WithinLimits l t)
        ⊎ (((a.status ≡ reduced)
              × (a.approved_target ≡ some (try_reduce l t))
              × ¬ WithinLimits l t
              × WithinLimits l (try_reduce l t))
            ⊎ ((a.status ≡ rejected)
                × (a.approved_target ≡ none)
                × ¬ WithinLimits l t
                × ¬ WithinLimits l (try_reduce l t)))
  unfolding assess
  assess_cases l t =
      decide_cases l t (collect_issues l t) (collect_issues l (try_reduce l t))
        (collect_issues_iff l t) (collect_issues_iff l (try_reduce l t))

  -- A reduction has the symbols of the first positions, as many as are allowed, in their order; and every
  -- position of it is a long one with no overrides, whatever the target's were.
  pub try_reduce_positions :
      (l : RiskLimits) (t : PortfolioTarget)
      → (map (λ p. p.symbol) (try_reduce l t).target_positions
          ≡ map (λ p. p.symbol) (take l.max_positions t.target_positions))
        × All
            (λ p. (p.side ≡ long) × (p.sl_mult_override ≡ none) × (p.tp_mult_override ≡ none))
            (try_reduce l t).target_positions
  unfolding try_reduce cap
  try_reduce_positions l t =
      let capped =
        map-with_weight-Keeps (λ p. float_min p.target_weight l.max_position_weight)
          (take l.max_positions t.target_positions) in
      let fitted =
        Keeps-trans capped (fit_exposure-Keeps l (cap l t.target_positions) capped.plain) in
      let kept =
        Keeps-trans fitted
          (fit_cash-Keeps l (fit_exposure l (cap l t.target_positions)) fitted.plain) in
      (kept.symbols, kept.plain)
