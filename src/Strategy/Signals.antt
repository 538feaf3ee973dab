-- ===== src/Strategy/Signals.antt =====
-- engine/signal/trend.py, `TrendSignalEngine`, and engine/signal/__init__.py. An outer `none` is an exception.
pub mod Founded
use crypto_mas.Prelude.{Bool, true, false, ◌&&◌, Option, none, some, List, if◌then◌else◌}
use crypto_mas.Numbers.{Numerics, ◌>>=◌, divide, float_lt, float_min, float_max, float_abs}
use crypto_mas.Domain.{FeatureSnapshot, Features}
use crypto_mas.Risk.Models.{last}

pub data SignalDirection : Type 0 where
  upward downward neutral : SignalDirection

module _ ⦃n : Numerics⦄ where
  open n use {Float, float_lit, float_add, float_sub, float_mul, float_div}

  pub record TradingSignal : Type 0 where
    pub direction : SignalDirection
    pub strength : Float

  -- The features that are needed, where none is missing.
  pub record TrendInputs : Type 0 where
    pub close : Float
    pub ema_20 : Float
    pub ema_50 : Float
    pub rsi_14 : Float
    pub roc_14 : Float
    pub macd : Float
    pub macd_signal : Float

  abbrev pub trend_inputs : Features → Option TrendInputs
  trend_inputs f = do
    close ← f.close
    ema_20 ← f.ema_20
    ema_50 ← f.ema_50
    rsi_14 ← f.rsi_14
    roc_14 ← f.roc_14
    macd ← f.macd
    macd_signal ← f.macd_signal
    some (record {
      close = close;
      ema_20 = ema_20;
      ema_50 = ema_50;
      rsi_14 = rsi_14;
      roc_14 = roc_14;
      macd = macd;
      macd_signal = macd_signal;
    })

  abbrev pub is_bullish : TrendInputs → Bool
  is_bullish f =
      float_lt f.ema_20 f.close
      && float_lt f.ema_50 f.ema_20
      && float_lt (float_lit 50 0) f.rsi_14
      && float_lt (float_lit 0 0) f.roc_14
      && float_lt f.macd_signal f.macd

  abbrev pub is_bearish : TrendInputs → Bool
  is_bearish f =
      float_lt f.close f.ema_20
      && float_lt f.ema_20 f.ema_50
      && float_lt f.rsi_14 (float_lit 50 0)
      && float_lt f.roc_14 (float_lit 0 0)
      && float_lt f.macd f.macd_signal

  macd_component : TrendInputs → Float
  macd_component f =
      if float_lt (float_lit 0 0) f.close
      then float_div (float_abs (float_sub f.macd f.macd_signal)) f.close
      else float_lit 0 0

  strength_of : TrendInputs → Bool → Float → Float
  unfolding macd_component
  strength_of f bullish ema_spread =
      let rsi_component =
        float_div (float_abs (float_sub f.rsi_14 (float_lit 50 0))) (float_lit 50 0) in
      let roc_component = float_div (float_abs f.roc_14) (float_lit 10 0) in
      let raw =
        float_add
          (float_add
            (float_add (float_mul ema_spread (float_lit 2 0))
              (float_mul rsi_component (float_lit 4 1)))
            (float_mul roc_component (float_lit 3 1)))
          (float_mul (macd_component f) (float_lit 10 0)) in
      float_max (float_lit 0 0)
        (float_min (if bullish then raw else float_mul raw (float_lit 9 1)) (float_lit 1 0))

  -- The spread of the averages is divided by the close before its sign is tested.
  calculate_strength : TrendInputs → Bool → Option Float
  unfolding strength_of
  calculate_strength f bullish = do
    ema_spread ← divide (float_abs (float_sub f.ema_20 f.ema_50)) f.close
    some (strength_of f bullish ema_spread)

  abbrev pub signal_to : SignalDirection → Float → TradingSignal
  signal_to direction strength = record { direction = direction; strength = strength }

  pub signal_of : Option TrendInputs → Option TradingSignal
  unfolding calculate_strength
  signal_of none = some (signal_to neutral (float_lit 0 0))
  signal_of (some f) =
      if is_bullish f
      then (calculate_strength f true >>= λ x. some (signal_to upward x))
      else if is_bearish f
      then (calculate_strength f false >>= λ x. some (signal_to downward x))
      else some (signal_to neutral (float_lit 0 0))

  abbrev pub generate_from : Option FeatureSnapshot → Option (Option TradingSignal)
  generate_from none = some none
  generate_from (some latest) =
      signal_of (trend_inputs latest.features) >>= λ signal. some (some signal)

  unfoldable pub generate : List FeatureSnapshot → Option (Option TradingSignal)
  unfolding signal_of
  generate snapshots = generate_from (last snapshots)
