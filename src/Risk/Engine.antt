-- ===== src/Risk/Engine.antt =====
-- engine/risk/risk.py, `RiskEngine`. Messages are left out, and so is pydantic's check of the new
-- target's fields.
pub mod Decisions
use crypto_mas.Prelude.{
  Bool, true, false, Option, none, some, List, [], ◌∷◌, ◌++◌, map, ltb, if◌then◌else◌, length, take,
}
use crypto_mas.Numbers.{Numerics, float_lt, float_min, float_max}
use crypto_mas.Domain.{long, TargetPosition, PortfolioTarget}
use crypto_mas.Risk.Limits.{
  approved, rejected, reduced, RiskCode, max_positions_exceeded, max_gross_exposure_exceeded,
  min_cash_weight_violated, max_position_weight_exceeded, RiskLimits, RiskAssessment,
}

module _ ⦃n : Numerics⦄ where
  open n use {Float, float_lit, float_add, float_sub, float_mul, float_div, round_ten}

  abbrev pub epsilon : Float
  epsilon = float_lit 1 9

  abbrev flag : Bool → RiskCode → List RiskCode
  flag b code = if b then code ∷ [] else []

  abbrev pub is_overweight : RiskLimits → TargetPosition → Bool
  is_overweight l p = float_lt (float_add l.max_position_weight epsilon) p.target_weight

  weight_issues : RiskLimits → List TargetPosition → List RiskCode
  weight_issues l [] = []
  weight_issues l (p ∷ ps) =
      flag (is_overweight l p) max_position_weight_exceeded ++ weight_issues l ps

  pub collect_issues : RiskLimits → PortfolioTarget → List RiskCode
  unfolding weight_issues
  collect_issues l t =
      flag (ltb l.max_positions (length t.target_positions)) max_positions_exceeded
      ++ (flag (float_lt (float_add l.max_gross_exposure epsilon) t.gross_exposure)
            max_gross_exposure_exceeded
          ++ (flag (float_lt t.cash_weight (float_sub l.min_cash_weight epsilon))
                min_cash_weight_violated
              ++ weight_issues l t.target_positions))

  -- `sum` of the weights, from the left.
  sum_from : Float → List TargetPosition → Float
  sum_from total [] = total
  sum_from total (p ∷ ps) = sum_from (float_add total p.target_weight) ps

  unfoldable pub sum_weights : List TargetPosition → Float
  unfolding sum_from
  sum_weights = sum_from (float_lit 0 0)

  -- A new TargetPosition of the same symbol, confidence and score. The constructor call names neither
  -- the side nor the metadata: the side is the default "LONG", and the metadata are empty.
  pub with_weight : TargetPosition → Float → TargetPosition
  with_weight p w = record {
    symbol = p.symbol;
    side = long;
    target_weight = w;
    confidence = p.confidence;
    final_score = p.final_score;
    sl_mult_override = none;
    tp_mult_override = none;
  }

  cap : RiskLimits → List TargetPosition → List TargetPosition
  unfolding with_weight
  cap l ps =
      map (λ p. with_weight p (float_min p.target_weight l.max_position_weight))
        (take l.max_positions ps)

  rescale : Float → List TargetPosition → List TargetPosition
  unfolding with_weight
  rescale scale = map (λ p. with_weight p (round_ten (float_mul p.target_weight scale)))

  -- The first scaling, to the limit on gross exposure.
  fit_exposure : RiskLimits → List TargetPosition → List TargetPosition
  unfolding rescale sum_weights
  fit_exposure l ps =
      if float_lt l.max_gross_exposure (sum_weights ps)
      then rescale (float_div l.max_gross_exposure (sum_weights ps)) ps
      else ps

  rounded_sum : List TargetPosition → Float
  unfolding sum_weights
  rounded_sum ps = round_ten (sum_weights ps)

  cash_of : Float → Float
  cash_of gross = round_ten (float_max (float_lit 0 0) (float_sub (float_lit 1 0) gross))

  -- The second scaling, to the limit on cash.
  fit_cash : RiskLimits → List TargetPosition → List TargetPosition
  unfolding rescale rounded_sum cash_of
  fit_cash l ps =
      let gross = rounded_sum ps in
      if float_lt (cash_of gross) l.min_cash_weight
      then (if float_lt (float_lit 0 0) gross
          then rescale (float_div (float_sub (float_lit 1 0) l.min_cash_weight) gross) ps
          else ps)
      else ps

  pub try_reduce : RiskLimits → PortfolioTarget → PortfolioTarget
  unfolding cap fit_exposure fit_cash rounded_sum cash_of
  try_reduce l t =
      let positions = fit_cash l (fit_exposure l (cap l t.target_positions)) in
      let gross = rounded_sum positions in
      record {
        exchange = t.exchange;
        timeframe = t.timeframe;
        target_positions = positions;
        cash_weight = cash_of gross;
        gross_exposure = gross;
        created_at = t.created_at;
        close_reasons = [];
      }

  -- The verdict, from the issues of the target and those of the reduced one.
  decide : RiskLimits → PortfolioTarget → List RiskCode → List RiskCode → RiskAssessment
  unfolding try_reduce
  decide l t [] after = record {
    status = approved;
    approved_target = some t;
    original_target = t;
    issues = [];
  }
  decide l t (i ∷ is) [] = record {
    status = reduced;
    approved_target = some (try_reduce l t);
    original_target = t;
    issues = i ∷ is;
  }
  decide l t (i ∷ is) (j ∷ js) = record {
    status = rejected;
    approved_target = none;
    original_target = t;
    issues = i ∷ is;
  }

  unfoldable pub assess : RiskLimits → PortfolioTarget → RiskAssessment
  unfolding collect_issues decide
  assess l t = decide l t (collect_issues l t) (collect_issues l (try_reduce l t))
