-- ===== src/Strategy/Tactics.antt =====
-- engine/strategy/tactics/base_tactic.py and realtime_metrics.py, with what the tactics share. A tactic raises
-- (`none`), finds no setup (`some none`), or decides. The format of a number with as many decimal places, as in
-- `:.1f`, is a parameter of the tactics. Parameters of a tactic are numbers.
pub mod Bull
pub mod Bear
pub mod Sideways
pub mod Fits
use crypto_mas.Prelude.{
  ℕ, Bool, true, false, not, ◌&&◌, Option, none, some, List, [], ◌∷◌, ◌++◌, String, str_append,
  str_eq, if◌then◌else◌,
}
use crypto_mas.Numbers.{Numerics, float_lt, float_min, float_max, is_zero, divide, ◌>>=◌}
use crypto_mas.Domain.{FeatureSnapshot, Features}
use crypto_mas.MarketData.Schemas.{Timeframe}
use crypto_mas.Strategy.{DecisionAction, hold, TradingDecision}
use crypto_mas.Risk.Models.{last}
use crypto_mas.Portfolio.Selection.{is_empty}

-- `separator.join(texts)`
abbrev pub join : String → List String → String
join separator [] = ""
join separator (x ∷ []) = x
join separator (x ∷ y ∷ rest) = str_append x (str_append separator (join separator (y ∷ rest)))

module _ ⦃n : Numerics⦄ where
  open n use {Float, float_lit, float_add, float_sub, float_le}

  abbrev pub Params : Type 0
  Params = String → Option Float

  -- `params.get(key, default)`
  abbrev pub or_default : Option Float → Float → Float
  or_default none d = d
  or_default (some x) d = x

  abbrev pub param : Params → String → Float → Float
  param p key d = or_default (p key) d

  -- The metrics of the store, by symbol and key.
  abbrev pub Metrics : Type 0
  Metrics = String → String → Option Float

  pub set_metric : String → String → Float → Metrics → Metrics
  set_metric symbol key value m =
      λ s k. if str_eq s symbol && str_eq k key then some value else m s k

  abbrev pub get_metric : Metrics → String → String → Float → Float
  get_metric m symbol key d = or_default (m symbol key) d

  pub record Ask : Type 0 where
    pub exchange : String
    pub symbol : String
    pub timeframe : Timeframe
    pub params : Params
    pub is_open : Bool

  abbrev pub Answer : Type 0
  Answer = Option (Option TradingDecision)

  abbrev pub decision_of :
      Ask → DecisionAction → Float → String → Option Float → Option Float → TradingDecision
  decision_of a action confidence reason sl tp = record {
    exchange = a.exchange;
    symbol = a.symbol;
    timeframe = a.timeframe;
    action = action;
    confidence = confidence;
    final_score = confidence;
    regime = none;
    reason = reason;
    sl_mult_override = sl;
    tp_mult_override = tp;
  }

  -- `return None`, where a feature is missing or a gate is closed.
  unfoldable pub required : Option Float → (Float → Answer) → Answer
  required none f = some none
  required (some x) f = f x

  unfoldable pub unless : Bool → Answer → Answer
  unless closed m = if closed then some none else m

  -- `(a - b) / c`, which raises where `c` is zero.
  unfoldable pub with_ratio : Float → Float → Float → (Float → Answer) → Answer
  with_ratio a b c f = divide (float_sub a b) c >>= f

  -- `x is not None and x > y`, and likewise.
  abbrev pub is_above : Option Float → Float → Bool
  is_above none y = false
  is_above (some x) y = float_lt y x

  abbrev pub is_below : Option Float → Float → Bool
  is_below none y = false
  is_below (some x) y = float_lt x y

  abbrev pub both : Option Float → Option Float → (Float → Float → Bool) → Bool
  both (some x) (some y) p = p x y
  both none y p = false
  both (some x) none p = false

  -- `x and y`, of which neither may be zero, and a test of the two.
  abbrev pub both_nonzero : Option Float → Option Float → (Float → Float → Bool) → Bool
  both_nonzero x y p = both x y (λ a b. not (is_zero a) && not (is_zero b) && p a b)

  abbrev pub is_between : Float → Float → Float → Bool
  is_between a x b = float_le a x && float_le x b

  abbrev pub negative : Float → Float
  negative x = float_sub (float_lit 0 0) x

  -- The features of `snapshots[-2]`.
  abbrev pub previous : List FeatureSnapshot → Option Features
  previous [] = none
  previous (x ∷ []) = none
  previous (x ∷ y ∷ []) = some x.features
  previous (x ∷ y ∷ z ∷ rest) = previous (y ∷ z ∷ rest)

  abbrev pub feature_of : (Features → Option Float) → Option Features → Option Float
  feature_of get none = none
  feature_of get (some f) = get f

  -- What the two tactics for trends read of the last two snapshots.
  pub record Trend : Type 0 where
    pub last_price : Float
    pub ema_20 : Float
    pub ema_50 : Float
    pub adx_14 : Float
    pub rsi_14 : Float
    pub stoch_k : Option Float
    pub rvol : Option Float
    pub macd_hist : Option Float
    pub prev_macd_hist : Option Float
    pub prev_close : Option Float
    pub prev_ema_50 : Option Float

  -- `return None` without snapshots.
  unfoldable pub with_latest : Option FeatureSnapshot → (FeatureSnapshot → Answer) → Answer
  with_latest none f = some none
  with_latest (some latest) f = f latest

  abbrev pub trend_of : Features → Option Features → (Trend → Answer) → Answer
  trend_of now before f = required now.close (λ last_price. required now.ema_20 (λ ema_20.
      required now.ema_50 (λ ema_50. required now.adx_14 (λ adx_14. required now.rsi_14 (λ rsi_14.
        f (record {
          last_price = last_price;
          ema_20 = ema_20;
          ema_50 = ema_50;
          adx_14 = adx_14;
          rsi_14 = rsi_14;
          stoch_k = now.stoch_rsi_k;
          rvol = now.rvol;
          macd_hist = now.macd_hist;
          prev_macd_hist = feature_of (λ g. g.macd_hist) before;
          prev_close = feature_of (λ g. g.close) before;
          prev_ema_50 = feature_of (λ g. g.ema_50) before;
        }))))))

  abbrev pub with_trend : List FeatureSnapshot → (Trend → Answer) → Answer
  with_trend snapshots f =
      with_latest (last snapshots) (λ latest. trend_of latest.features (previous snapshots) f)

  -- A factor of an exit, where its rule holds.
  abbrev pub factor : Bool → List String → List String
  factor applies texts = if applies then texts else []

  -- An open position is left where a rule of the exit holds, and held otherwise.
  abbrev pub leave_or_hold : Ask → DecisionAction → String → String → List String → Answer
  leave_or_hold a close leaving holding close_factors = some (
      some (
        if is_empty close_factors
        then decision_of a hold (float_lit 1 0) holding none none
        else decision_of a close (float_lit 9 1) (str_append leaving (join ", " close_factors)) none
            none))

  -- The confidence so far, and its factors.
  abbrev pub Grade : Type 0
  Grade = Float × List String

  -- `confidence += weight`, and `factors.append(text)`.
  abbrev pub raise_by : Float → String → Grade → Grade
  raise_by weight text (confidence, factors) = (float_add confidence weight, factors ++ text ∷ [])

  abbrev pub bonus : Bool → Float → String → Grade → Grade
  bonus applies weight text g = if applies then raise_by weight text g else g

  -- The last gate: a confidence between 0.0 and 0.99 that is no less than the least.
  abbrev pub enter : Ask → DecisionAction → Float → Option Float → Option Float → Grade → Answer
  enter a action min_confidence sl tp (confidence, factors) =
      let clamped = float_max (float_lit 0 0) (float_min confidence (float_lit 99 2)) in
      unless (float_lt clamped min_confidence)
        (some (some (decision_of a action clamped (join " | " factors) sl tp)))
