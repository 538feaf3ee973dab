-- ===== src/Strategy/Adaptive.antt =====
-- engine/strategy/regime_adaptive.py, `RegimeAdaptiveStrategy`. The key `risk_level` of a tactic's parameters, which
-- no tactic reads, is left out.
pub mod Fitting
use crypto_mas.Prelude.{ℕ, Bool, Option, none, some, List, String, str_append}
use crypto_mas.Numbers.{Numerics}
use crypto_mas.Domain.{FeatureSnapshot}
use crypto_mas.MarketData.Schemas.{Timeframe}
use crypto_mas.Strategy.{MarketRegime, bull_trend, bear_trend, sideways, name_of}
use crypto_mas.Strategy.Regime.{detect, RegimeSnapshot}
use crypto_mas.Strategy.Tactics.{Params, Metrics, Ask, Answer}
use crypto_mas.Strategy.Tactics.Bull.{bull_evaluate}
use crypto_mas.Strategy.Tactics.Bear.{bear_evaluate}
use crypto_mas.Strategy.Tactics.Sideways.{sideways_evaluate}

module _ ⦃n : Numerics⦄ where
  -- The dictionary of the user's settings, with those it nests for each tactic.
  pub record Config : Type 0 where
    pub general : Params
    pub bull_tactic : Params
    pub bear_tactic : Params
    pub sideways_tactic : Params

  -- `base.update(over)`
  abbrev pub updated : Params → Params → Params
  updated base over = λ key. elim (over key) [ none ↦ base key | some x ↦ some x ]

  abbrev pub tactic_params : Config → MarketRegime → Params
  tactic_params c bull_trend = updated c.general c.bull_tactic
  tactic_params c bear_trend = updated c.general c.bear_tactic
  tactic_params c sideways = updated c.general c.sideways_tactic
  tactic_params c _ = c.general

  -- The regime is attached, and its name put before the reason.
  abbrev pub attach : MarketRegime → Answer → Answer
  attach regime none = none
  attach regime (some none) = some none
  attach regime (some (some d)) = some (
      some (record d {
        regime = some regime;
        reason = str_append "[" (str_append (name_of regime) (str_append "] " d.reason));
      }))

  module _ (format : ℕ → n.Float → String) (metrics : Metrics) (exchange : String)
      (timeframe : Timeframe) (config : Config) where
    pub evaluate_tactic : MarketRegime → List FeatureSnapshot → Ask → Answer
    unfolding bull_evaluate bear_evaluate sideways_evaluate
    evaluate_tactic bull_trend snapshots a = bull_evaluate format metrics snapshots a
    evaluate_tactic bear_trend snapshots a = bear_evaluate format metrics snapshots a
    evaluate_tactic sideways snapshots a = sideways_evaluate format snapshots a
    evaluate_tactic _ snapshots a = some none

    abbrev pub ask_of : MarketRegime → String → Bool → Ask
    ask_of regime symbol opened = record {
      exchange = exchange;
      symbol = symbol;
      timeframe = timeframe;
      params = tactic_params config regime;
      is_open = opened;
    }

    -- Without snapshots there is no regime.
    answer_of : String → List FeatureSnapshot → Bool → Option RegimeSnapshot → Answer
    unfolding evaluate_tactic
    answer_of symbol snapshots opened none = some none
    answer_of symbol snapshots opened (some found) =
        attach found.regime
          (evaluate_tactic found.regime snapshots (ask_of found.regime symbol opened))

    unfoldable pub adaptive_decide : String → List FeatureSnapshot → Bool → Answer
    unfolding answer_of detect
    adaptive_decide symbol snapshots opened = answer_of symbol snapshots opened (detect snapshots)
