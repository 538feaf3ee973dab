-- ===== src/Strategy/Tactics/Sideways/Fitting.antt =====
-- engine/strategy/tactics/sideways_tactic.py: what is known of its decisions.
use crypto_mas.Prelude.{ℕ, true, false, inr, ◌≡◌, List, String, refl}
use crypto_mas.Numbers.{Numerics, float_lt}
use crypto_mas.Domain.{FeatureSnapshot}
use crypto_mas.Risk.Models.{last}
use crypto_mas.Strategy.{sideways, consider_long, consider_short, DecisionAction}
use crypto_mas.Strategy.Tactics.{Ask, decision_of}
use crypto_mas.Strategy.Tactics.Fits.{
  Fits, Yields, Yields-latest, Yields-required, Yields-if, Yields-unless, Yields-ratio,
  leave_or_hold-Fits, least, may,
}
use crypto_mas.Strategy.Tactics.Sideways.{
  Range, leave, enter_at, touches_lower, touches_upper, revert, sideways_with, sideways_evaluate,
}

module _ ⦃n : Numerics⦄ (format : ℕ → n.Float → String) where
  open n use {Float, float_lit, float_le}

  enter_at-Fits :
      (a : Ask) (t : Range) (action : DecisionAction) (touch : String)
      → a.is_open ≡ false
      → may sideways false action ≡ true
      → Yields (Fits sideways a) (enter_at format a t action touch)
  unfolding enter_at
  enter_at-Fits a t action touch o h =
      Yields-unless (Fits sideways a) (float_lt (float_lit 75 2) (least sideways a)) _ (λ sure.
        let fits : Fits sideways a (decision_of a action (float_lit 75 2) _ _ _) = record {
          own = refl;
          allowed = rw o h;
          sure = inr sure;
          scored = refl;
        } in
        fits)

  revert-Fits :
      (a : Ask) (t : Range) → a.is_open ≡ false → Yields (Fits sideways a) (revert format a t)
  unfolding revert
  revert-Fits a t o =
      Yields-if (Fits sideways a) (touches_lower format a t) _ _
        (λ _. enter_at-Fits a t consider_long "BB_LOWER_TOUCH" o refl)
        (λ _.
          Yields-if (Fits sideways a) (touches_upper format a t) _ _
            (λ _. enter_at-Fits a t consider_short "BB_UPPER_TOUCH" o refl) (λ _. tt))

  sideways_with-Fits : (a : Ask) (t : Range) → Yields (Fits sideways a) (sideways_with format a t)
  unfolding sideways_with leave
  sideways_with-Fits a t =
      Yields-if (Fits sideways a) a.is_open _ _
        (λ o. leave_or_hold-Fits sideways a _ _ _ _ o refl refl)
        (λ o.
          Yields-ratio (Fits sideways a) _ _ _ _
            (λ bandwidth. Yields-unless (Fits sideways a) _ _ (λ _. revert-Fits a t o)))

  pub sideways_evaluate-Fits :
      (snapshots : List FeatureSnapshot) (a : Ask)
      → Yields (Fits sideways a) (sideways_evaluate format snapshots a)
  unfolding sideways_evaluate
  sideways_evaluate-Fits snapshots a = Yields-latest (Fits sideways a) (last snapshots) _ (λ latest.
      let now = latest.features in
      Yields-required (Fits sideways a) now.close _ (λ last_price.
        Yields-required (Fits sideways a) now.rsi_14 _ (λ rsi_14.
          Yields-required (Fits sideways a) now.bb_upper _ (λ bb_upper.
            Yields-required (Fits sideways a) now.bb_lower _
              (λ bb_lower. sideways_with-Fits a _)))))
