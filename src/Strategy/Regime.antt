-- ===== src/Strategy/Regime.antt =====
-- engine/regime/regime.py, `RegimeEngine`, with what is read of a `RegimeSnapshot`.
use crypto_mas.Prelude.{Bool, ◌||◌, Option, none, some, List, if◌then◌else◌}
use crypto_mas.Numbers.{Numerics, ◌>>=◌, float_lt, float_min, float_max, float_abs}
use crypto_mas.Domain.{FeatureSnapshot, Features}
use crypto_mas.Risk.Models.{last}
use crypto_mas.Strategy.{MarketRegime, bull_trend, bear_trend, sideways, high_volatility, unknown}

module _ ⦃n : Numerics⦄ where
  open n use {Float, float_lit, float_add, float_sub, float_mul, float_div, float_le}

  pub record RegimeSnapshot : Type 0 where
    pub regime : MarketRegime
    pub confidence : Float
    pub risk_multiplier : Float

  abbrev pub regime_of : MarketRegime → Float → Float → RegimeSnapshot
  regime_of regime confidence risk_multiplier = record {
    regime = regime;
    confidence = confidence;
    risk_multiplier = risk_multiplier;
  }

  -- The features that are needed, where none is missing.
  pub record Needed : Type 0 where
    pub close : Float
    pub ema_20 : Float
    pub ema_50 : Float
    pub atr_14 : Float
    pub roc_14 : Float
    pub bb_upper : Float
    pub bb_middle : Float
    pub bb_lower : Float

  abbrev pub needed : Features → Option Needed
  needed f = do
    close ← f.close
    ema_20 ← f.ema_20
    ema_50 ← f.ema_50
    atr_14 ← f.atr_14
    roc_14 ← f.roc_14
    bb_upper ← f.bb_upper
    bb_middle ← f.bb_middle
    bb_lower ← f.bb_lower
    some (record {
      close = close;
      ema_20 = ema_20;
      ema_50 = ema_50;
      atr_14 = atr_14;
      roc_14 = roc_14;
      bb_upper = bb_upper;
      bb_middle = bb_middle;
      bb_lower = bb_lower;
    })

  trend_confidence : Needed → Float
  trend_confidence f =
      if float_le f.close (float_lit 0 0)
      then float_lit 0 0
      else (let ema_spread = float_div (float_abs (float_sub f.ema_20 f.ema_50)) f.close in
          let price_distance = float_div (float_abs (float_sub f.close f.ema_20)) f.close in
          let roc_component = float_div (float_abs f.roc_14) (float_lit 10 0) in
          let confidence =
            float_add
              (float_add (float_mul ema_spread (float_lit 10 0))
                (float_mul price_distance (float_lit 5 0)))
              (float_mul roc_component (float_lit 5 1)) in
          float_max (float_lit 0 0) (float_min confidence (float_lit 1 0)))

  volatility_ratio : Needed → Float
  volatility_ratio f =
      if float_lt (float_lit 0 0) f.close then float_div f.atr_14 f.close else float_lit 0 0

  bb_width : Needed → Float
  bb_width f =
      if float_lt (float_lit 0 0) f.bb_middle
      then float_div (float_sub f.bb_upper f.bb_lower) f.bb_middle
      else float_lit 0 0

  pub is_volatile : Needed → Bool
  unfolding volatility_ratio bb_width
  is_volatile f =
      float_lt (float_lit 8 2) (volatility_ratio f) || float_lt (float_lit 25 2) (bb_width f)

  volatile_confidence : Needed → Float
  unfolding volatility_ratio bb_width
  volatile_confidence f =
      float_max (float_min (float_div (volatility_ratio f) (float_lit 10 2)) (float_lit 1 0))
        (float_min (float_div (bb_width f) (float_lit 25 2)) (float_lit 1 0))

  pub detect_needed : Option Needed → RegimeSnapshot
  unfolding trend_confidence is_volatile volatile_confidence
  detect_needed none = regime_of unknown (float_lit 0 0) (float_lit 0 0)
  detect_needed (some f) =
      if is_volatile f
      then regime_of high_volatility (volatile_confidence f) (float_lit 50 2)
      else if float_lt f.ema_50 f.ema_20
      then regime_of bull_trend (trend_confidence f) (float_lit 1 0)
      else if float_lt f.ema_20 f.ema_50
      then regime_of bear_trend (trend_confidence f) (float_lit 30 2)
      else regime_of sideways (float_lit 55 2) (float_lit 60 2)

  unfoldable pub detect : List FeatureSnapshot → Option RegimeSnapshot
  unfolding detect_needed
  detect snapshots = elim (last snapshots) [
    | none ↦ none
    | some latest ↦ some (detect_needed (needed latest.features))
  ]
