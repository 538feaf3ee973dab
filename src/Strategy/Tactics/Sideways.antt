-- ===== src/Strategy/Tactics/Sideways.antt =====
-- engine/strategy/tactics/sideways_tactic.py
pub mod Fitting
use crypto_mas.Prelude.{
  ℕ, Bool, true, false, not, ◌&&◌, ◌||◌, Option, none, some, List, [], ◌∷◌, ◌++◌, String,
  str_append, if◌then◌else◌,
}
use crypto_mas.Numbers.{Numerics, float_lt}
use crypto_mas.Domain.{FeatureSnapshot}
use crypto_mas.Strategy.{consider_long, consider_short, close_long, close_short, DecisionAction}
use crypto_mas.Strategy.Tactics.{
  param, Metrics, get_metric, Ask, Answer, with_latest, required, unless, with_ratio, is_above,
  is_below, both, both_nonzero, is_between, negative, Trend, with_trend, factor, leave_or_hold,
  decision_of, join,
}
use crypto_mas.Risk.Models.{last}

module _ ⦃n : Numerics⦄ where
  open n use {Float}

  pub record Range : Type 0 where
    pub last_price : Float
    pub rsi_14 : Float
    pub bb_upper : Float
    pub bb_lower : Float

module _ ⦃n : Numerics⦄ (format : ℕ → n.Float → String) where
  open n use {Float, float_lit, float_sub, float_le}

  abbrev text : String → ℕ → Float → String
  text label places x = str_append label (format places x)

  module _ (a : Ask) (t : Range) where
    -- With a position that is open, of whichever side.
    leave : Answer
    leave =
        leave_or_hold a close_long "Closing Sideways Trade: " "Holding open sideways position." (
          if float_le t.bb_upper t.last_price
          then text "HIT_RESISTANCE=" 2 t.last_price ∷ []
          else if float_le t.last_price t.bb_lower
          then text "HIT_SUPPORT=" 2 t.last_price ∷ []
          else if float_lt (float_lit 65 0) t.rsi_14
          then text "RSI_HIGH=" 1 t.rsi_14 ∷ []
          else if float_lt t.rsi_14 (float_lit 35 0)
          then text "RSI_LOW=" 1 t.rsi_14 ∷ []
          else [])

    abbrev pub sideways_confidence : Float
    sideways_confidence = param a.params "min_confidence" (float_lit 60 2)

    -- `confidence` is 0.75 here, and not clamped.
    enter_at : DecisionAction → String → Answer
    enter_at action touch = unless (float_lt (float_lit 75 2) sideways_confidence) (
        some (
          some (
            decision_of a action (float_lit 75 2) (join " | " (touch ∷ text "RSI=" 1 t.rsi_14 ∷ []))
              (some (param a.params "sl_mult" (float_lit 15 1)))
              (some (param a.params "tp_mult" (float_lit 12 1))))))

    touches_lower : Bool
    touches_lower =
        float_le t.last_price t.bb_lower
        && float_lt t.rsi_14 (param a.params "rsi_oversold" (float_lit 33 0))

    touches_upper : Bool
    touches_upper =
        float_le t.bb_upper t.last_price
        && float_lt (param a.params "rsi_overbought" (float_lit 67 0)) t.rsi_14

    revert : Answer
    unfolding enter_at touches_lower touches_upper
    revert =
        if touches_lower
        then enter_at consider_long "BB_LOWER_TOUCH"
        else if touches_upper
        then enter_at consider_short "BB_UPPER_TOUCH"
        else some none

    pub sideways_with : Answer
    unfolding leave revert
    sideways_with =
        if a.is_open
        then leave
        else with_ratio t.bb_upper t.bb_lower t.last_price
            (λ bandwidth. unless (float_lt bandwidth (float_lit 30 3)) revert)

  unfoldable pub sideways_evaluate : List FeatureSnapshot → Ask → Answer
  unfolding sideways_with
  sideways_evaluate snapshots a = with_latest (last snapshots) (λ latest.
      required latest.features.close (λ last_price. required latest.features.rsi_14 (λ rsi_14.
        required latest.features.bb_upper (λ bb_upper.
          required latest.features.bb_lower (λ bb_lower. sideways_with a (record {
            last_price = last_price;
            rsi_14 = rsi_14;
            bb_upper = bb_upper;
            bb_lower = bb_lower;
          }))))))
