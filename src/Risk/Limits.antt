-- ===== src/Risk/Limits.antt =====
-- engine/risk/__init__.py and engine/risk/profiles.py.
use crypto_mas.Prelude.{ℕ, Option, List, String, str_eq, if◌then◌else◌}
use crypto_mas.Numbers.{Numerics}
use crypto_mas.Domain.{PortfolioTarget}

pub data RiskDecisionStatus : Type 0 where
  approved rejected reduced : RiskDecisionStatus

pub data RiskCode : Type 0 where
  max_positions_exceeded max_gross_exposure_exceeded min_cash_weight_violated : RiskCode
  max_position_weight_exceeded : RiskCode

module _ ⦃n : Numerics⦄ where
  open n use {Float, float_lit}

  pub record RiskLimits : Type 0 where
    pub max_positions : ℕ
    pub max_gross_exposure : Float
    pub max_position_weight : Float
    pub min_cash_weight : Float

  pub record RiskAssessment : Type 0 where
    pub status : RiskDecisionStatus
    pub approved_target : Option PortfolioTarget
    pub original_target : PortfolioTarget
    pub issues : List RiskCode

  abbrev pub scalping_limits : RiskLimits
  scalping_limits = record {
    max_positions = 5;
    max_gross_exposure = float_lit 60 2;
    max_position_weight = float_lit 15 2;
    min_cash_weight = float_lit 40 2;
  }

  abbrev pub swing_limits : RiskLimits
  swing_limits = record {
    max_positions = 10;
    max_gross_exposure = float_lit 85 2;
    max_position_weight = float_lit 12 2;
    min_cash_weight = float_lit 15 2;
  }

  abbrev pub hodl_limits : RiskLimits
  hodl_limits = record {
    max_positions = 3;
    max_gross_exposure = float_lit 95 2;
    max_position_weight = float_lit 40 2;
    min_cash_weight = float_lit 5 2;
  }

  -- The name has been lowered; an unknown one gets the limits of "swing".
  pub get_risk_profile : String → RiskLimits
  get_risk_profile mode =
      if str_eq mode "scalping"
      then scalping_limits
      else if str_eq mode "hodl"
      then hodl_limits
      else swing_limits
