-- ===== src/Strategy/MultiAgent.antt =====
-- engine/strategy/multi_agent.py, `MultiAgentStrategy`. The format `:.3f` and `math.tanh` are parameters.
pub mod Verdicts
use crypto_mas.Prelude.{
  ℕ, suc, Bool, true, false, ◌&&◌, Option, none, some, List, String, str_append, if◌then◌else◌,
}
use crypto_mas.Prelude.Int.{ℤ, pos, negsuc}
use crypto_mas.Numbers.{Numerics, ◌>>=◌, float_max}
use crypto_mas.Domain.{FeatureSnapshot}
use crypto_mas.MarketData.Schemas.{Timeframe}
use crypto_mas.Risk.Models.{is_high_volatility}
use crypto_mas.Portfolio.Selection.{is_bear, is_bull}
use crypto_mas.Strategy.{
  DecisionAction, consider_long, consider_short, close_long, close_short, hold, avoid, MarketRegime,
  name_of, TradingDecision,
}
use crypto_mas.Strategy.Regime.{RegimeSnapshot, detect}
use crypto_mas.Strategy.Signals.{
  SignalDirection, upward, downward, neutral, TradingSignal, generate,
}
use crypto_mas.Strategy.Scoring.{ScoringEngine, score, calculate_confidence}

-- `action.value`
abbrev pub action_name : DecisionAction → String
action_name consider_long = "CONSIDER_LONG"
action_name consider_short = "CONSIDER_SHORT"
action_name close_long = "CLOSE_LONG"
action_name close_short = "CLOSE_SHORT"
action_name hold = "HOLD"
action_name avoid = "AVOID"

module _ ⦃n : Numerics⦄ where
  open n use {Float, float_lit, float_add, float_sub, float_mul, float_div, float_le}

  abbrev pub float_of : ℤ → Float
  float_of (pos k) = float_lit k 0
  float_of (negsuc k) = float_sub (float_lit 0 0) (float_lit (suc k) 0)

  abbrev pub threshold : ℤ → Float
  threshold risk_level = float_max (float_sub (float_lit 0 0) (float_lit 1 0)) (
      float_sub (float_lit 50 2)
        (float_mul (float_div (float_of risk_level) (float_lit 100 0)) (float_lit 25 2)))

  -- Against the market the signal has to be stronger.
  abbrev pub raised : Bool → Float → Float
  raised against x = if against then float_add x (float_lit 15 2) else x

  pub decide_action : SignalDirection → Float → MarketRegime → ℤ → Bool → DecisionAction
  decide_action direction final_score regime risk_level use_regime_shield =
      if use_regime_shield && is_high_volatility regime then avoid else elim direction [
        | upward ↦
            if float_le (raised (use_regime_shield && is_bear regime) (threshold risk_level))
              final_score
            then consider_long
            else hold
        | downward ↦
            if float_le (raised (use_regime_shield && is_bull regime) (threshold risk_level))
              final_score
            then consider_short
            else hold
        | neutral ↦ hold
      ]

  pub record MultiAgent : Type 0 where
    pub exchange : String
    pub timeframe : Timeframe
    pub risk_level : ℤ
    pub use_regime_shield : Bool
    pub scoring_agent : ScoringEngine

  module _ (three_places : Float → String) (tanh : Float → Float) (b : MultiAgent) where
    build_reason : DecisionAction → Float → MarketRegime → String
    build_reason action final_score regime = str_append "Action=" (
        str_append (action_name action) (
          str_append ". Final score=" (
            str_append (three_places final_score)
              (str_append ". Market regime=" (str_append (name_of regime) ".")))))

    decision_on : String → TradingSignal → Float → RegimeSnapshot → TradingDecision
    unfolding decide_action build_reason calculate_confidence
    decision_on symbol signal final_score regime =
        let action =
          decide_action signal.direction final_score regime.regime b.risk_level
            b.use_regime_shield in
        record {
          exchange = b.exchange;
          symbol = symbol;
          timeframe = b.timeframe;
          action = action;
          confidence = calculate_confidence final_score regime.confidence regime.risk_multiplier;
          final_score = final_score;
          regime = some regime.regime;
          reason = build_reason action final_score regime.regime;
          sl_mult_override = none;
          tp_mult_override = none;
        }

    judge : String → TradingSignal → Option Float → Option RegimeSnapshot → Option TradingDecision
    unfolding decision_on
    judge symbol signal none regime = none
    judge symbol signal (some final_score) none = none
    judge symbol signal (some final_score) (some regime) =
        some (decision_on symbol signal final_score regime)

    judge_signal : String → List FeatureSnapshot → Option TradingSignal → Option TradingDecision
    unfolding judge score detect
    judge_signal symbol snapshots none = none
    judge_signal symbol snapshots (some signal) =
        judge symbol signal (score tanh b.scoring_agent signal snapshots) (detect snapshots)

    -- Whether the symbol is open makes no difference.
    unfoldable pub multi_agent_decide :
        String → List FeatureSnapshot → Bool → Option (Option TradingDecision)
    unfolding judge_signal generate
    multi_agent_decide symbol snapshots opened =
        generate snapshots >>= λ signal. some (judge_signal symbol snapshots signal)
