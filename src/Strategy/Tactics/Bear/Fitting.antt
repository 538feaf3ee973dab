-- ===== src/Strategy/Tactics/Bear/Fitting.antt =====
-- engine/strategy/tactics/bear_tactic.py: what is known of its decisions.
use crypto_mas.Prelude.{ℕ, false, ◌≡◌, Option, none, some, List, String, refl}
use crypto_mas.Numbers.{Numerics}
use crypto_mas.Domain.{FeatureSnapshot}
use crypto_mas.Strategy.{bear_trend}
use crypto_mas.Strategy.Tactics.{Metrics, Ask, Trend, Grade}
use crypto_mas.Strategy.Tactics.Fits.{
  Fits, Yields, Yields-if, Yields-unless, Yields-ratio, Yields-trend, leave_or_hold-Fits,
  enter-Fits,
}
use crypto_mas.Strategy.Tactics.Bear.{
  conclude, consider, grade, boosted, leave, bear_with, bear_evaluate,
}

module _ ⦃n : Numerics⦄ (format : ℕ → n.Float → String) (metrics : Metrics) where
  open n use {Float}

  -- The decision fits the regime.
  module _ (a : Ask) (t : Trend) where
    conclude-Fits :
        (dist : Float) (g : Option Grade)
        → a.is_open ≡ false
        → Yields (Fits bear_trend a) (conclude format metrics a t dist g)
    unfolding conclude
    conclude-Fits dist none o = tt
    conclude-Fits dist (some g) o =
        enter-Fits bear_trend a _ _ _ (boosted format metrics a t g) o refl

    consider-Fits :
        (dist : Float)
        → a.is_open ≡ false
        → Yields (Fits bear_trend a) (consider format metrics a t dist)
    unfolding consider
    consider-Fits dist o =
        Yields-unless (Fits bear_trend a) _ _
          (λ _. conclude-Fits dist (grade format metrics a t dist) o)

    bear_with-Fits : Yields (Fits bear_trend a) (bear_with format metrics a t)
    unfolding bear_with leave
    bear_with-Fits =
        Yields-if (Fits bear_trend a) a.is_open _ _
          (λ o.
            Yields-ratio (Fits bear_trend a) _ _ _ _
              (λ dist. leave_or_hold-Fits bear_trend a _ _ _ _ o refl refl))
          (λ o.
            Yields-unless (Fits bear_trend a) _ _
              (λ _. Yields-ratio (Fits bear_trend a) _ _ _ _ (λ dist. consider-Fits dist o)))

  pub bear_evaluate-Fits :
      (snapshots : List FeatureSnapshot) (a : Ask)
      → Yields (Fits bear_trend a) (bear_evaluate format metrics snapshots a)
  unfolding bear_evaluate
  bear_evaluate-Fits snapshots a =
      Yields-trend (Fits bear_trend a) snapshots _ (λ t. bear_with-Fits a t)
