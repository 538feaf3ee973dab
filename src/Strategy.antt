-- ===== src/Strategy.antt =====
-- engine/strategy/schemas.py, engine/regime/__init__.py and engine/scoring/__init__.py: what a strategy
-- decides. Of the nested objects the model holds what the program reads: the kind of the regime, the final
-- score, and the two overrides of the metadata.
pub mod Regime
pub mod Signals
pub mod Scoring
pub mod MultiAgent
pub mod Tactics
pub mod Adaptive
mod Tests
use crypto_mas.Prelude.{Bool, true, false, Option, String}
use crypto_mas.Numbers.{Numerics}
use crypto_mas.MarketData.Schemas.{Timeframe}

pub data DecisionAction : Type 0 where
  consider_long consider_short close_long close_short hold avoid : DecisionAction

pub data MarketRegime : Type 0 where
  bull_trend bear_trend sideways high_volatility unknown : MarketRegime

abbrev pub is_consider : DecisionAction → Bool
is_consider consider_long = true
is_consider consider_short = true
is_consider _ = false

abbrev pub is_consider_long : DecisionAction → Bool
is_consider_long consider_long = true
is_consider_long _ = false

abbrev pub is_consider_short : DecisionAction → Bool
is_consider_short consider_short = true
is_consider_short _ = false

abbrev pub is_close : DecisionAction → Bool
is_close close_long = true
is_close close_short = true
is_close _ = false

abbrev pub is_hold : DecisionAction → Bool
is_hold hold = true
is_hold _ = false

-- `regime.name`
abbrev pub name_of : MarketRegime → String
name_of bull_trend = "BULL_TREND"
name_of bear_trend = "BEAR_TREND"
name_of sideways = "SIDEWAYS"
name_of high_volatility = "HIGH_VOLATILITY"
name_of unknown = "UNKNOWN"

module _ ⦃n : Numerics⦄ where
  open n use {Float}

  pub record TradingDecision : Type 0 where
    pub exchange : String
    pub symbol : String
    pub timeframe : Timeframe
    pub action : DecisionAction
    pub confidence : Float
    pub final_score : Float
    pub regime : Option MarketRegime
    pub reason : String
    pub sl_mult_override : Option Float
    pub tp_mult_override : Option Float
