-- ===== src/Strategy/Tactics/Fits.antt =====
-- engine/strategy/tactics: what is known of the decision of a tactic.
use crypto_mas.Prelude.{
  Bool, true, false, inl, inr, ◌⊎◌, ◌≡◌, Bool-cases, Option, none, some, List, String, refl,
  if◌then◌else◌,
}
use crypto_mas.Numbers.{Numerics, float_lt, float_min, float_max, is_zero}
use crypto_mas.Domain.{FeatureSnapshot}
use crypto_mas.Risk.Models.{last}
use crypto_mas.Portfolio.Selection.{is_empty}
use crypto_mas.Strategy.{
  DecisionAction, consider_long, consider_short, close_long, close_short, hold, MarketRegime,
  bull_trend, bear_trend, sideways, TradingDecision,
}
use crypto_mas.Strategy.Tactics.{
  Ask, Answer, with_latest, required, unless, with_ratio, Trend, with_trend, leave_or_hold, Grade,
  enter, param, decision_of, join,
}

-- What a regime lets a tactic do, with a position that is open or with none.
abbrev pub may : MarketRegime → Bool → DecisionAction → Bool
may bull_trend true close_long = true
may bull_trend true hold = true
may bull_trend false consider_long = true
may bear_trend true close_short = true
may bear_trend true hold = true
may bear_trend false consider_short = true
may sideways true close_long = true
may sideways true hold = true
may sideways false consider_long = true
may sideways false consider_short = true
may _ _ _ = false

module _ ⦃n : Numerics⦄ where
  open n use {Float, float_lit}

  -- The least confidence of an entry.
  abbrev pub least : MarketRegime → Ask → Float
  least sideways a = param a.params "min_confidence" (float_lit 60 2)
  least _ a = param a.params "min_confidence" (float_lit 45 2)

  -- A decision on the symbol, of a kind that the regime allows, and sure enough if it is an entry.
  pub record Fits (regime : MarketRegime) (a : Ask) (d : TradingDecision) : Type 0 where
    pub own : d.symbol ≡ a.symbol
    pub allowed : may regime a.is_open d.action ≡ true
    pub sure : (a.is_open ≡ true) ⊎ (float_lt d.confidence (least regime a) ≡ false)
    pub scored : d.final_score ≡ d.confidence

  -- Of the decision, if there is one.
  abbrev pub Yields : (TradingDecision → Type 0) → Answer → Type 0
  Yields P none = Unit
  Yields P (some none) = Unit
  Yields P (some (some d)) = P d

  module _ (P : TradingDecision → Type 0) where
    pub Yields-required :
        (o : Option Float) (f : Float → Answer)
        → ((x : Float) → Yields P (f x))
        → Yields P (required o f)
    unfolding required
    Yields-required none f h = tt
    Yields-required (some x) f h = h x

    pub Yields-latest :
        (o : Option FeatureSnapshot) (f : FeatureSnapshot → Answer)
        → ((latest : FeatureSnapshot) → Yields P (f latest))
        → Yields P (with_latest o f)
    unfolding with_latest
    Yields-latest none f h = tt
    Yields-latest (some latest) f h = h latest

    pub Yields-if :
        (b : Bool) (m k : Answer)
        → (b ≡ true → Yields P m)
        → (b ≡ false → Yields P k)
        → Yields P (if b then m else k)
    Yields-if true m k h l = h refl
    Yields-if false m k h l = l refl

    pub Yields-unless : (b : Bool) (m : Answer) → (b ≡ false → Yields P m) → Yields P (unless b m)
    unfolding unless
    Yields-unless b m h = Yields-if b (some none) m (λ _. tt) h

    pub Yields-ratio :
        (x y z : Float) (f : Float → Answer)
        → ((q : Float) → Yields P (f q))
        → Yields P (with_ratio x y z f)
    unfolding with_ratio
    Yields-ratio x y z f h = elim (Bool-cases (is_zero z)) [ inl k ↦ rw k tt | inr k ↦ rw k (h _) ]

    pub Yields-trend :
        (snapshots : List FeatureSnapshot) (f : Trend → Answer)
        → ((t : Trend) → Yields P (f t))
        → Yields P (with_trend snapshots f)
    Yields-trend snapshots f h = Yields-latest (last snapshots) _ (λ latest.
        let now = latest.features in
        Yields-required now.close _ (λ last_price. Yields-required now.ema_20 _ (λ ema_20.
          Yields-required now.ema_50 _ (λ ema_50.
            Yields-required now.adx_14 _
              (λ adx_14. Yields-required now.rsi_14 _ (λ rsi_14. h _))))))

  pub leave_or_hold-Fits :
      (regime : MarketRegime) (a : Ask) (close : DecisionAction) (leaving holding : String)
      (factors : List String)
      → a.is_open ≡ true
      → may regime true close ≡ true
      → may regime true hold ≡ true
      → Yields (Fits regime a) (leave_or_hold a close leaving holding factors)
  leave_or_hold-Fits regime a close leaving holding factors o c h =
      elim (Bool-cases (is_empty factors)) [
        | inl k ↦ rw k (record { own = refl; allowed = rw o h; sure = inl o; scored = refl })
        | inr k ↦ rw k (record { own = refl; allowed = rw o c; sure = inl o; scored = refl })
      ]

  pub enter-Fits :
      (regime : MarketRegime) (a : Ask) (action : DecisionAction) (sl tp : Option Float) (g : Grade)
      → a.is_open ≡ false
      → may regime false action ≡ true
      → Yields (Fits regime a) (enter a action (least regime a) sl tp g)
  enter-Fits regime a action sl tp (confidence, factors) o h =
      let clamped = float_max (float_lit 0 0) (float_min confidence (float_lit 99 2)) in
      Yields-unless (Fits regime a) (float_lt clamped (least regime a))
        (some (some (decision_of a action clamped (join " | " factors) sl tp)))
        (λ sure. record { own = refl; allowed = rw o h; sure = inr sure; scored = refl })
