-- ===== src/Cycle/Gates.antt =====
-- services/trading_cycle_service/strategy_orchestrator.py: what stands between a strategy's decision and the list
-- of decisions. The format `:.1f` is a parameter.
pub mod Passed
use crypto_mas.Prelude.{
  ℕ, Bool, true, false, not, ◌&&◌, ◌||◌, Option, none, some, List, [], ◌∷◌, String, str_append,
  str_eq, if◌then◌else◌,
}
use crypto_mas.Prelude.Dict.{contains}
use crypto_mas.Numbers.{Numerics, float_lt, is_zero}
use crypto_mas.Domain.{FeatureSnapshot, Features}
use crypto_mas.Strategy.{
  hold, avoid, DecisionAction, is_consider, is_consider_long, is_close, is_hold, MarketRegime,
  bull_trend, bear_trend, sideways, high_volatility, unknown, TradingDecision,
}
use crypto_mas.Risk.Models.{
  RiskModel, btc_crash, htf_portfolio, regime_shield, Context, evaluate_decision,
}
use crypto_mas.Cycle.Views.{PositionView}

abbrev pub is_avoid : DecisionAction → Bool
is_avoid avoid = true
is_avoid _ = false

-- How many stops count as a whipsaw, and within how many minutes; and that span in hours.
abbrev pub whipsaw_limits : Option MarketRegime → ℕ × ℕ
whipsaw_limits (some bull_trend) = (3, 720)
whipsaw_limits (some bear_trend) = (2, 1440)
whipsaw_limits _ = (2, 2880)

abbrev pub whipsaw_hours : Option MarketRegime → String
whipsaw_hours (some bull_trend) = "12h)"
whipsaw_hours (some bear_trend) = "24h)"
whipsaw_hours _ = "48h)"

abbrev pub is_whipsawed : PositionView → String → Option MarketRegime → Bool
is_whipsawed v symbol regime =
    let limits = whipsaw_limits regime in contains symbol (v.whipsaw limits.0 limits.1)

abbrev pub reverts : String → Bool
reverts strategy_name = str_eq strategy_name "rsi_oversold" || str_eq strategy_name "mean_reversion"

-- The risk manager of a trading cycle.
abbrev pub shields : List RiskModel
shields = btc_crash ∷ htf_portfolio ∷ regime_shield ∷ []

module _ ⦃n : Numerics⦄ where
  open n use {Float, float_lit, float_sub, float_mul, float_div}

  pub put_on_hold : String → TradingDecision → TradingDecision
  put_on_hold text d = record d { action = hold; reason = str_append d.reason text }

  -- An entry into a symbol that is open, was stopped out, or was stopped out too often.
  pub gate_entry : PositionView → String → TradingDecision → TradingDecision
  unfolding put_on_hold
  gate_entry v symbol d =
      if not (is_consider d.action)
      then d
      else if contains symbol v.open_symbols
      then put_on_hold " | REJECTED: Open Position Exists" d
      else if contains symbol (v.recent_stop_loss 120)
      then put_on_hold " | REJECTED: Stop-Loss Cooldown (120m)" d
      else if is_whipsawed v symbol d.regime
      then put_on_hold (str_append " | REJECTED: Whipsaw Cooldown (" (whipsaw_hours d.regime)) d
      else d

  abbrev pub is_overbought : Features → Bool
  is_overbought f = elim f.rsi_14 [ none ↦ false | some rsi ↦ float_lt (float_lit 75 0) rsi ]

  -- The distance of the close from its average, in percent.
  abbrev pub ema_distance : Float → Float → Float
  ema_distance close ema = float_mul (float_div (float_sub close ema) ema) (float_lit 100 0)

  -- `close_price and ema_20 and ema_20 > 0`, and the distance below -3.5.
  is_deep : Float → Float → Bool
  is_deep close ema =
      not (is_zero close)
      && not (is_zero ema)
      && float_lt (float_lit 0 0) ema
      && float_lt (ema_distance close ema) (float_sub (float_lit 0 0) (float_lit 35 1))

  deep_of : Option Float → Option Float → Bool
  unfolding is_deep
  deep_of (some close) (some ema) = is_deep close ema
  deep_of (some close) none = false
  deep_of none ema = false

  pub is_deep_downtrend : Features → Bool
  unfolding deep_of
  is_deep_downtrend f = deep_of f.close f.ema_20

  pub gate_risk : Context → TradingDecision → TradingDecision
  unfolding evaluate_decision
  gate_risk c d = if is_hold d.action || is_close d.action then d else evaluate_decision shields c d

  module _ (one_place : Float → String) where
    overbought_text : Option Float → String
    overbought_text none = ""
    overbought_text (some rsi) =
        str_append " | REJECTED: Overbought (RSI=" (str_append (one_place rsi) ")")

    downtrend_text : Option Float → Option Float → String
    downtrend_text (some close) (some ema) =
        str_append " | REJECTED: Deep Downtrend ("
          (str_append (one_place (ema_distance close ema)) "% below EMA 20)")
    downtrend_text _ _ = ""

    pub gate_overbought : Features → TradingDecision → TradingDecision
    unfolding put_on_hold overbought_text
    gate_overbought f d = if is_overbought f then put_on_hold (overbought_text f.rsi_14) d else d

    pub gate_downtrend : String → Features → TradingDecision → TradingDecision
    unfolding put_on_hold downtrend_text is_deep_downtrend
    gate_downtrend strategy_name f d =
        if not (reverts strategy_name) && is_deep_downtrend f
        then put_on_hold (downtrend_text f.close f.ema_20) d
        else d

    -- Both tests stand under one `if`: the second is made also where the first has put the decision on
    -- hold.
    pub gate_long : String → Features → TradingDecision → TradingDecision
    unfolding gate_overbought gate_downtrend
    gate_long strategy_name f d =
        if is_consider_long d.action
        then gate_downtrend strategy_name f (gate_overbought f d)
        else d

    -- The committee of language models gives back the decision that it is asked about.
    unfoldable pub gates :
        PositionView → String → Context → String → Features → TradingDecision → TradingDecision
    unfolding gate_entry gate_long gate_risk
    gates v strategy_name c symbol f d =
        gate_risk c (gate_long strategy_name f (gate_entry v symbol d))

  -- Whether a decision enters the list.
  unfoldable pub is_listed : PositionView → String → TradingDecision → Bool
  is_listed v symbol d =
      not (is_avoid d.action) && not (is_hold d.action && not (contains symbol v.open_symbols))
