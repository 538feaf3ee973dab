-- ===== src/Strategy/Tactics/Bear.antt =====
-- engine/strategy/tactics/bear_tactic.py
pub mod Fitting
use crypto_mas.Prelude.{
  ℕ, Bool, true, false, not, ◌&&◌, ◌||◌, Option, none, some, List, [], ◌∷◌, ◌++◌, String,
  str_append, if◌then◌else◌,
}
use crypto_mas.Numbers.{Numerics, float_lt}
use crypto_mas.Domain.{FeatureSnapshot}
use crypto_mas.Strategy.{consider_long, consider_short, close_long, close_short, DecisionAction}
use crypto_mas.Strategy.Tactics.{
  param, Metrics, get_metric, Ask, Answer, required, unless, with_ratio, is_above, is_below, both,
  both_nonzero, is_between, negative, Trend, with_trend, factor, leave_or_hold, Grade, raise_by,
  bonus, enter,
}
use crypto_mas.Risk.Models.{last}

module _ ⦃n : Numerics⦄ (format : ℕ → n.Float → String) (metrics : Metrics) where
  open n use {Float, float_lit, float_add, float_sub, float_mul, float_div, float_le}

  abbrev text : String → ℕ → Float → String → String
  text label places x rest = str_append label (str_append (format places x) rest)

  abbrev percent : Float → Float
  percent x = float_mul x (float_lit 100 0)

  abbrev of_optional : String → ℕ → Option Float → String → String
  of_optional label places none rest = ""
  of_optional label places (some x) rest = text label places x rest

  module _ (a : Ask) (t : Trend) where
    takes_profit : Float → Bool
    takes_profit dist =
        float_lt t.rsi_14 (param a.params "tp_rsi" (float_lit 36 0))
        && float_lt dist (param a.params "tp_dist_ema" (negative (float_lit 7 3)))

    abbrev ceiling_of : Float → Float
    ceiling_of rise = float_mul t.ema_50 (float_add (float_lit 1 0) rise)

    breaks_up : Bool
    breaks_up =
        let panic = param a.params "panic_drop_pct" (float_lit 2 2) in
        float_lt (ceiling_of panic) t.last_price
        || both_nonzero t.prev_close t.prev_ema_50 (λ close ema.
          float_lt ema close
          && float_lt (ceiling_of (float_div panic (float_lit 2 0))) t.last_price)

    flips : Bool
    flips =
        both t.macd_hist t.prev_macd_hist
          (λ hist before. float_lt (float_lit 0 0) hist && float_le before (float_lit 0 0))

    -- With a position that is open.
    leave : Float → Answer
    unfolding takes_profit breaks_up flips
    leave dist =
        leave_or_hold a close_short "Taking Profit / Closing Short: " "Holding open short position."
          (factor (takes_profit dist)
              (text "RSI=" 1 t.rsi_14 "" ∷ text "EXT=" 2 (percent dist) "%" ∷ [])
            ++ factor breaks_up (text "EMA50_BREAK=" 2 t.last_price (text ">" 2 t.ema_50 "") ∷ [])
            ++ factor flips ("MACD_FLIP_BULLISH" ∷ []))

    is_pullback : Float → Bool
    is_pullback dist =
        is_between (param a.params "min_dist_ema" (float_lit 14 3)) dist
          (param a.params "max_dist_ema" (float_lit 30 3))

    is_breakdown : Float → Bool
    is_breakdown dist =
        float_lt dist (float_lit 0 0)
        && both t.macd_hist t.prev_macd_hist
            (λ hist before. float_lt hist (float_lit 0 0) && float_lt hist before)
        && float_le (float_lit 25 0) t.rsi_14
        && float_lt t.rsi_14 (float_lit 45 0)

    max_rvol : Float
    max_rvol = param a.params "max_rvol_pullback" (float_lit 15 1)

    -- A squeeze, in the volume or in the momentum.
    is_squeezed : Bool
    unfolding max_rvol
    is_squeezed =
        is_above t.rvol max_rvol
        || both t.macd_hist t.prev_macd_hist
            (λ hist before. float_lt (float_lit 0 0) hist && float_lt before hist)

    -- A pullback needs an RSI or a stochastic that is high.
    grade_pullback : Grade → Option Grade
    grade_pullback g =
        if float_lt (param a.params "rsi_threshold" (float_lit 50 0)) t.rsi_14
        then some (
            raise_by (if float_lt (float_lit 60 0) t.rsi_14 then float_lit 20 2 else float_lit 10 2)
              (text "RSI=" 1 t.rsi_14 "") g)
        else if is_above t.stoch_k (param a.params "stoch_threshold" (float_lit 80 0))
        then some (
            raise_by (if is_above t.stoch_k (float_lit 80 0) then float_lit 15 2 else float_lit 5 2)
              (of_optional "STOCH=" 1 t.stoch_k "") g)
        else none

    grade_breakdown : Grade → Grade
    grade_breakdown g =
        bonus (is_above t.rvol (float_lit 12 1)) (float_lit 20 2) (of_optional "RVOL=" 1 t.rvol "")
          (raise_by (float_lit 60 2) (of_optional "SHORT_BREAKDOWN(MACD=" 2 t.macd_hist ")") g)

    grade : Float → Option Grade
    unfolding is_pullback is_squeezed grade_pullback grade_breakdown
    grade dist =
        let start : Grade = (float_lit 0 0, text "TREND(ADX=" 1 t.adx_14 ")" ∷ []) in
        if is_pullback dist
        then (if is_squeezed
            then none
            else grade_pullback
                (raise_by (float_lit 40 2) (text "SHORT_PB(" 2 (percent dist) "%)") start))
        else some (grade_breakdown start)

    -- A breakdown has tighter levels.
    sl_mult : Float → Float
    unfolding is_pullback
    sl_mult dist =
        if is_pullback dist
        then param a.params "sl_mult" (float_lit 15 1)
        else param a.params "breakdown_sl_mult" (float_lit 12 1)

    tp_mult : Float → Float
    unfolding is_pullback
    tp_mult dist =
        if is_pullback dist
        then param a.params "tp_mult" (float_lit 2 0)
        else param a.params "breakdown_tp_mult" (float_lit 15 1)

    boosted : Grade → Grade
    unfolding max_rvol
    boosted g =
        let dumps = both t.macd_hist t.prev_macd_hist (λ hist before.
          float_lt hist (float_mul before (float_lit 15 1)) || float_lt hist (float_lit 0 0)) in
        let confirmed = is_above t.rvol (float_lit 1 0) && not (is_above t.rvol max_rvol) in
        let imbalance = get_metric metrics a.symbol "imbalance" (float_lit 5 1) in
        let depth = get_metric metrics a.symbol "depth_imbalance" (float_lit 5 1) in
        bonus (float_lt depth (float_lit 45 2)) (float_lit 10 2)
          (text "DEPTH=" 0 (percent depth) "%")
          (bonus (float_lt imbalance (float_lit 40 2)) (float_lit 10 2)
            (text "TF_IMB=" 0 (percent imbalance) "%")
            (bonus confirmed (float_lit 10 2) (of_optional "RVOL=" 1 t.rvol "")
              (bonus dumps (float_lit 15 2) "MACD_DUMP" g)))

    abbrev pub bear_confidence : Float
    bear_confidence = param a.params "min_confidence" (float_lit 45 2)

    conclude : Float → Option Grade → Answer
    unfolding boosted sl_mult tp_mult
    conclude dist none = some none
    conclude dist (some g) =
        enter a consider_short bear_confidence (some (sl_mult dist)) (some (tp_mult dist))
          (boosted g)

    consider : Float → Answer
    unfolding is_pullback is_breakdown grade conclude
    consider dist =
        unless (not (is_pullback dist) && not (is_breakdown dist)) (conclude dist (grade dist))

    pub bear_with : Answer
    unfolding leave consider
    bear_with =
        if a.is_open
        then with_ratio t.last_price t.ema_20 t.ema_20 leave
        else unless (float_lt t.adx_14 (param a.params "min_adx" (float_lit 24 0)))
            (with_ratio t.last_price t.ema_20 t.ema_20 consider)

  unfoldable pub bear_evaluate : List FeatureSnapshot → Ask → Answer
  unfolding bear_with
  bear_evaluate snapshots a = with_trend snapshots (λ t. bear_with a t)
