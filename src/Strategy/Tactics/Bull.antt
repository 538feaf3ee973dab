-- ===== src/Strategy/Tactics/Bull.antt =====
-- engine/strategy/tactics/bull_tactic.py
pub mod Fitting
use crypto_mas.Prelude.{
  ℕ, Bool, true, false, not, ◌&&◌, ◌||◌, Option, none, some, List, [], ◌∷◌, ◌++◌, String,
  str_append, if◌then◌else◌,
}
use crypto_mas.Numbers.{Numerics, float_lt}
use crypto_mas.Domain.{FeatureSnapshot}
use crypto_mas.Strategy.{consider_long, consider_short, close_long, close_short, DecisionAction}
use crypto_mas.Strategy.Tactics.{
  param, Metrics, get_metric, Ask, Answer, required, unless, with_ratio, is_above, is_below, both,
  both_nonzero, is_between, negative, Trend, with_trend, factor, leave_or_hold, Grade, raise_by,
  bonus, enter,
}
use crypto_mas.Risk.Models.{last}

module _ ⦃n : Numerics⦄ (format : ℕ → n.Float → String) (metrics : Metrics) where
  open n use {Float, float_lit, float_add, float_sub, float_mul, float_div, float_le}

  abbrev text : String → ℕ → Float → String → String
  text label places x rest = str_append label (str_append (format places x) rest)

  abbrev percent : Float → Float
  percent x = float_mul x (float_lit 100 0)

  abbrev of_optional : String → ℕ → Option Float → String → String
  of_optional label places none rest = ""
  of_optional label places (some x) rest = text label places x rest

  module _ (a : Ask) (t : Trend) where
    takes_profit : Float → Bool
    takes_profit dist =
        float_lt (param a.params "tp_rsi" (float_lit 86 0)) t.rsi_14
        && float_lt (param a.params "tp_dist_ema" (float_lit 30 3)) dist

    abbrev floor_of : Float → Float
    floor_of drop = float_mul t.ema_50 (float_sub (float_lit 1 0) drop)

    breaks_down : Bool
    breaks_down =
        let panic = param a.params "panic_drop_pct" (float_lit 2 2) in
        float_lt t.last_price (floor_of panic)
        || both_nonzero t.prev_close t.prev_ema_50 (λ close ema.
          float_lt close ema && float_lt t.last_price (floor_of (float_div panic (float_lit 2 0))))

    is_exhausted : Bool
    is_exhausted =
        float_lt (float_lit 80 0) t.rsi_14
        && both t.macd_hist t.prev_macd_hist (λ hist before. float_lt hist before)

    -- With a position that is open.
    leave : Float → Answer
    unfolding takes_profit breaks_down is_exhausted
    leave dist =
        leave_or_hold a close_long "Taking Profit / Closing Long: " "Holding open long position." (
          factor (takes_profit dist)
            (text "RSI_TP=" 1 t.rsi_14 "" ∷ text "EXT=" 2 (percent dist) "%" ∷ [])
          ++ factor breaks_down (text "EMA50_BREAK=" 2 t.last_price (text "<" 2 t.ema_50 "") ∷ [])
          ++ factor is_exhausted ("MOMENTUM_EXHAUSTION" ∷ []))

    is_pullback : Float → Bool
    is_pullback dist =
        is_between (param a.params "min_dist_ema" (negative (float_lit 12 3))) dist
          (param a.params "max_dist_ema" (float_lit 5 3))
        && float_lt t.rsi_14 (float_lit 65 0)

    no_less : Option Float → Option Float → Bool
    no_less none before = false
    no_less (some hist) none = true
    no_less (some hist) (some before) = float_le before hist

    is_trend_continuation : Float → Bool
    unfolding no_less
    is_trend_continuation dist =
        float_lt t.ema_20 t.last_price
        && float_lt t.ema_50 t.last_price
        && float_le dist (float_lit 28 3)
        && is_between (float_lit 50 0) t.rsi_14 (float_lit 78 0)
        && is_above t.macd_hist (float_lit 0 0)
        && no_less t.macd_hist t.prev_macd_hist

    -- A pullback needs an RSI or a stochastic that is low.
    grade_pullback : Grade → Option Grade
    grade_pullback g =
        if float_lt t.rsi_14 (param a.params "rsi_threshold" (float_lit 50 0))
        then some (
            raise_by (if float_lt t.rsi_14 (float_lit 40 0) then float_lit 20 2 else float_lit 10 2)
              (text "RSI=" 1 t.rsi_14 "") g)
        else if is_below t.stoch_k (param a.params "stoch_threshold" (float_lit 20 0))
        then some (
            raise_by (if is_below t.stoch_k (float_lit 20 0) then float_lit 15 2 else float_lit 5 2)
              (of_optional "STOCH=" 1 t.stoch_k "") g)
        else none

    grade : Float → Option Grade
    unfolding is_pullback grade_pullback
    grade dist =
        let start : Grade = (float_lit 0 0, text "TREND(ADX=" 1 t.adx_14 ")" ∷ []) in
        if is_pullback dist
        then grade_pullback
            (raise_by (float_lit 40 2) (text "LONG_PB(" 2 (percent dist) "%)") start)
        else some (raise_by (float_lit 55 2) (text "BULL_MOMENTUM(RSI=" 1 t.rsi_14 ")") start)

    max_rvol : Float
    max_rvol = param a.params "max_rvol_pullback" (float_lit 13 1)

    boosted : Grade → Grade
    unfolding max_rvol
    boosted g =
        let surges = both t.macd_hist t.prev_macd_hist (λ hist before.
          float_lt (float_mul before (float_lit 15 1)) hist || float_lt (float_lit 0 0) hist) in
        let confirmed = is_above t.rvol (float_lit 1 0) && not (is_above t.rvol max_rvol) in
        let imbalance = get_metric metrics a.symbol "imbalance" (float_lit 5 1) in
        let depth = get_metric metrics a.symbol "depth_imbalance" (float_lit 5 1) in
        bonus (float_lt (float_lit 55 2) depth) (float_lit 10 2)
          (text "DEPTH=" 0 (percent depth) "%")
          (bonus (float_lt (float_lit 60 2) imbalance) (float_lit 10 2)
            (text "TF_IMB=" 0 (percent imbalance) "%")
            (bonus confirmed (float_lit 10 2) (of_optional "RVOL=" 1 t.rvol "")
              (bonus surges (float_lit 15 2) "MACD_SURGE" g)))

    abbrev pub bull_confidence : Float
    bull_confidence = param a.params "min_confidence" (float_lit 45 2)

    conclude : Option Grade → Answer
    unfolding boosted
    conclude none = some none
    conclude (some g) =
        enter a consider_long bull_confidence none (some (param a.params "tp_mult" (float_lit 2 0)))
          (boosted g)

    consider : Float → Answer
    unfolding is_pullback is_trend_continuation grade conclude max_rvol
    consider dist =
        unless (not (is_pullback dist) && not (is_trend_continuation dist))
          (unless (is_above t.rvol max_rvol && is_pullback dist) (conclude (grade dist)))

    pub bull_with : Answer
    unfolding leave consider
    bull_with =
        if a.is_open
        then with_ratio t.last_price t.ema_20 t.ema_20 leave
        else unless (float_lt t.adx_14 (param a.params "min_adx" (float_lit 21 0)))
            (with_ratio t.last_price t.ema_20 t.ema_20 consider)

  unfoldable pub bull_evaluate : List FeatureSnapshot → Ask → Answer
  unfolding bull_with
  bull_evaluate snapshots a = with_trend snapshots (λ t. bull_with a t)
