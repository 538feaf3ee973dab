-- ===== src/Strategy/Scoring.antt =====
-- engine/scoring/scoring.py, `ScoringEngine`, and engine/math/jit_calculators.py. Of a score the model holds what the
-- program reads. `math.tanh` is a parameter.
use crypto_mas.Prelude.{
  ◌-◌, Bool, true, false, Option, none, some, List, [], ◌∷◌, leb, length, drop, if◌then◌else◌,
}
use crypto_mas.Numbers.{Numerics, float_lt, float_min, float_max}
use crypto_mas.Domain.{FeatureSnapshot}
use crypto_mas.Risk.Models.{last}
use crypto_mas.Strategy.Signals.{
  SignalDirection, upward, downward, neutral, TradingSignal, TrendInputs, trend_inputs,
}

module _ ⦃n : Numerics⦄ where
  open n use {Float, float_lit, float_add, float_sub, float_mul, float_div, float_le}

  abbrev unit_range : Float → Float
  unit_range x = float_max (float_lit 0 0) (float_min x (float_lit 1 0))

  abbrev positive_part : Float → Float
  positive_part x = float_max x (float_lit 0 0)

  trend_parts : Float → Float → Float → Float
  trend_parts close above below = positive_part (float_div (float_sub above below) close)

  -- `jit_trend_score`; the direction is 1, -1 or 0 there.
  pub trend_score : TrendInputs → SignalDirection → Float
  unfolding trend_parts
  trend_score f direction =
      if float_le f.close (float_lit 0 0) then float_lit 0 0 else elim direction [
        | upward ↦ unit_range (
            float_add (float_mul (trend_parts f.close f.ema_20 f.ema_50) (float_lit 20 0))
              (float_mul (trend_parts f.close f.close f.ema_20) (float_lit 10 0)))
        | downward ↦ unit_range (
            float_add (float_mul (trend_parts f.close f.ema_50 f.ema_20) (float_lit 20 0))
              (float_mul (trend_parts f.close f.ema_20 f.close) (float_lit 10 0)))
        | neutral ↦ float_lit 0 0
      ]

  -- `jit_volatility_penalty`
  pub volatility_penalty : Float → Float → Float
  volatility_penalty close atr_14 =
      if float_le close (float_lit 0 0)
      then float_lit 0 0
      else float_max (float_lit 0 0)
          (float_min (float_mul (float_div atr_14 close) (float_lit 2 0)) (float_lit 35 2))

  -- `jit_calculate_confidence`
  unfoldable pub calculate_confidence : Float → Float → Float → Float
  calculate_confidence score regime_confidence risk_multiplier =
      let raw =
        float_add (float_mul score (float_lit 65 2))
          (float_mul regime_confidence (float_lit 35 2)) in
      unit_range (float_mul raw risk_multiplier)

  -- The values of the RSI among the last three snapshots.
  rsi_values : List FeatureSnapshot → List Float
  rsi_values [] = []
  rsi_values (s ∷ rest) =
      let values = rsi_values rest in
      elim s.features.rsi_14 [ none ↦ values | some rsi ↦ rsi ∷ values ]

  -- The last value less the mean of those before it.
  slope_of : List Float → Float
  slope_of (a ∷ b ∷ []) = float_sub b (float_div (float_add (float_lit 0 0) a) (float_lit 1 0))
  slope_of (a ∷ b ∷ c ∷ rest) =
      float_sub c (float_div (float_add (float_add (float_lit 0 0) a) b) (float_lit 2 0))
  slope_of _ = float_lit 0 0

  pub rsi_slope : List FeatureSnapshot → Float
  unfolding rsi_values slope_of
  rsi_slope snapshots =
      if leb 3 (length snapshots)
      then slope_of (rsi_values (drop (length snapshots - 3) snapshots))
      else float_lit 0 0

  pub rsi_bonus : SignalDirection → Float → Float
  rsi_bonus upward slope = if float_lt (float_lit 0 0) slope then float_lit 8 2 else float_lit 0 0
  rsi_bonus downward slope = if float_lt slope (float_lit 0 0) then float_lit 8 2 else float_lit 0 0
  rsi_bonus neutral slope = float_lit 0 0

  -- The weights of the trend and of the momentum.
  pub record ScoringEngine : Type 0 where
    pub trend_weight : Float
    pub momentum_weight : Float

  module _ (tanh : Float → Float) (engine : ScoringEngine) where
    momentum_parts : Float → Float → Float → Float
    momentum_parts rsi roc macd = unit_range (
        float_add
          (float_add (float_mul (positive_part (float_div rsi (float_lit 50 0))) (float_lit 3 1))
            (float_mul (positive_part (float_div roc (float_lit 10 0))) (float_lit 3 1)))
          (float_mul (positive_part (tanh macd)) (float_lit 4 1)))

    -- `jit_momentum_score`
    pub momentum_score : TrendInputs → Float → SignalDirection → Float
    unfolding momentum_parts
    momentum_score f atr_14 direction =
        if float_le f.close (float_lit 0 0)
        then float_lit 0 0
        else (let macd_hist = float_sub f.macd f.macd_signal in
            let norm_denom = float_max (float_mul atr_14 (float_lit 1 1)) (float_lit 1 9) in
            elim direction [
              | upward ↦
                  momentum_parts (float_sub f.rsi_14 (float_lit 50 0)) f.roc_14
                    (float_div macd_hist norm_denom)
              | downward ↦
                  momentum_parts (float_sub (float_lit 50 0) f.rsi_14)
                    (float_sub (float_lit 0 0) f.roc_14)
                    (float_div (float_sub (float_lit 0 0) macd_hist) norm_denom)
              | neutral ↦ float_lit 0 0
            ])

    raw_score : TrendInputs → Float → Float → SignalDirection → Float
    unfolding trend_score volatility_penalty momentum_score rsi_bonus
    raw_score f atr_14 slope direction =
        let momentum =
          float_min (float_add (momentum_score f atr_14 direction) (rsi_bonus direction slope))
            (float_lit 1 0) in
        float_sub
          (float_add (float_mul (trend_score f direction) engine.trend_weight)
            (float_mul momentum engine.momentum_weight))
          (volatility_penalty f.close atr_14)

    abbrev pub is_neutral : SignalDirection → Bool
    is_neutral neutral = true
    is_neutral _ = false

    -- The final score; without a feature it is 0.0.
    pub final_score : Option TrendInputs → Option Float → Float → SignalDirection → Float
    unfolding raw_score
    final_score none atr slope direction = float_lit 0 0
    final_score (some f) none slope direction = float_lit 0 0
    final_score (some f) (some atr_14) slope direction =
        if is_neutral direction
        then float_lit 0 0
        else unit_range (raw_score f atr_14 slope direction)

    unfoldable pub score : TradingSignal → List FeatureSnapshot → Option Float
    unfolding final_score rsi_slope
    score signal snapshots = elim (last snapshots) [
      | none ↦ none
      | some latest ↦ some (
          final_score (trend_inputs latest.features) latest.features.atr_14 (rsi_slope snapshots)
            signal.direction)
    ]
