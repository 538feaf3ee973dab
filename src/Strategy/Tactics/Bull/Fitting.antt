-- ===== src/Strategy/Tactics/Bull/Fitting.antt =====
-- engine/strategy/tactics/bull_tactic.py: what is known of its decisions.
use crypto_mas.Prelude.{ℕ, false, ◌≡◌, Option, none, some, List, String, refl}
use crypto_mas.Numbers.{Numerics}
use crypto_mas.Domain.{FeatureSnapshot}
use crypto_mas.Strategy.{bull_trend}
use crypto_mas.Strategy.Tactics.{Metrics, Ask, Trend, Grade}
use crypto_mas.Strategy.Tactics.Fits.{
  Fits, Yields, Yields-if, Yields-unless, Yields-ratio, Yields-trend, leave_or_hold-Fits,
  enter-Fits,
}
use crypto_mas.Strategy.Tactics.Bull.{
  conclude, consider, grade, boosted, leave, bull_with, bull_evaluate,
}

module _ ⦃n : Numerics⦄ (format : ℕ → n.Float → String) (metrics : Metrics) where
  open n use {Float}

  -- The decision fits the regime.
  module _ (a : Ask) (t : Trend) where
    conclude-Fits :
        (g : Option Grade)
        → a.is_open ≡ false
        → Yields (Fits bull_trend a) (conclude format metrics a t g)
    unfolding conclude
    conclude-Fits none o = tt
    conclude-Fits (some g) o = enter-Fits bull_trend a _ _ _ (boosted format metrics a t g) o refl

    consider-Fits :
        (dist : Float)
        → a.is_open ≡ false
        → Yields (Fits bull_trend a) (consider format metrics a t dist)
    unfolding consider
    consider-Fits dist o = Yields-unless (Fits bull_trend a) _ _ (λ _.
        Yields-unless (Fits bull_trend a) _ _
          (λ _. conclude-Fits (grade format metrics a t dist) o))

    bull_with-Fits : Yields (Fits bull_trend a) (bull_with format metrics a t)
    unfolding bull_with leave
    bull_with-Fits =
        Yields-if (Fits bull_trend a) a.is_open _ _
          (λ o.
            Yields-ratio (Fits bull_trend a) _ _ _ _
              (λ dist. leave_or_hold-Fits bull_trend a _ _ _ _ o refl refl))
          (λ o.
            Yields-unless (Fits bull_trend a) _ _
              (λ _. Yields-ratio (Fits bull_trend a) _ _ _ _ (λ dist. consider-Fits dist o)))

  pub bull_evaluate-Fits :
      (snapshots : List FeatureSnapshot) (a : Ask)
      → Yields (Fits bull_trend a) (bull_evaluate format metrics snapshots a)
  unfolding bull_evaluate
  bull_evaluate-Fits snapshots a =
      Yields-trend (Fits bull_trend a) snapshots _ (λ t. bull_with-Fits a t)
