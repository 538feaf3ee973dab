-- ===== src/Portfolio/Weights.antt =====
-- engine/portfolio/portfolio.py, `PortfolioEngine.build_target_portfolio`: the weights, and the target.
pub mod Headings
use crypto_mas.Prelude.Int.{ℤ, pos, negsuc}
use crypto_mas.Prelude.Dict.{contains}
use crypto_mas.Prelude.{
  ℕ, ◌-◌, Bool, true, false, ◌&&◌, none, List, [], ◌∷◌, ◌++◌, map, String, leb, min, if◌then◌else◌,
  filter, take, drop, length,
}
use crypto_mas.Numbers.{Numerics, float_lt, float_min, float_max}
use crypto_mas.Domain.{PositionSide, long, short, TargetPosition, PortfolioTarget}
use crypto_mas.Strategy.{DecisionAction, consider_long, is_consider_long, TradingDecision}
use crypto_mas.Risk.Engine.{sum_weights}
use crypto_mas.Portfolio.Selection.{is_empty, Runtime, PortfolioEngine}
use crypto_mas.Portfolio.Replacement.{Selection, select, all_close_reasons}

abbrev pub side_of : DecisionAction → PositionSide
side_of a = if is_consider_long a then long else short

-- `max(0, min(risk_level, 200))`
abbrev pub clamp_level : ℤ → ℕ
clamp_level (pos k) = min k 200
clamp_level (negsuc k) = 0

module _ ⦃n : Numerics⦄ where
  open n use {
    Float, float_lit, float_add, float_sub, float_mul, float_div, float_le, round_six, round_ten,
  }

  pub to_target_position : TradingDecision → Float → TargetPosition
  to_target_position d weight = record {
    symbol = d.symbol;
    side = side_of d.action;
    target_weight = round_six (float_max (float_lit 0 0) (float_min weight (float_lit 1 0)));
    confidence = d.confidence;
    final_score = d.final_score;
    sl_mult_override = d.sl_mult_override;
    tp_mult_override = d.tp_mult_override;
  }

  -- An open position that is kept. Its side is the text "LONG", whatever the position's side is.
  pub retained_position : String → TargetPosition
  retained_position s = record {
    symbol = s;
    side = long;
    target_weight = float_lit 10 2;
    confidence = float_lit 1 0;
    final_score = float_lit 1 0;
    sl_mult_override = none;
    tp_mult_override = none;
  }

  pub a_weight_base : ℤ → Float
  a_weight_base risk_level =
      let level = clamp_level risk_level in
      if leb level 100
      then float_add (float_lit 5 2)
          (float_mul (float_lit 15 2) (float_div (float_lit level 0) (float_lit 100 0)))
      else float_add (float_lit 20 2) (
          float_mul (float_lit 30 2)
            (float_div (float_sub (float_lit level 0) (float_lit 100 0)) (float_lit 100 0)))

  pub raw_weight : Float → TradingDecision → Float
  raw_weight base d =
      if float_le (float_lit 85 2) d.confidence
      then base
      else if float_le (float_lit 70 2) d.confidence
      then float_div base (float_lit 2 0)
      else float_div base (float_lit 4 0)

  -- The loop over the selected candidates, with the exposure that is left.
  pub weigh : Float → Float → List TradingDecision → List TargetPosition
  unfolding to_target_position raw_weight
  weigh base available [] = []
  weigh base available (d ∷ ds) =
      let weight = float_min (raw_weight base d) available in
      to_target_position d weight
      ∷ weigh base (float_max (float_lit 0 0) (float_sub available weight)) ds

  pub available_exposure : PortfolioEngine → List String → Float
  available_exposure e retained =
      float_max (float_lit 0 0) (
        float_sub e.max_gross_exposure (float_mul (float_lit (length retained) 0) (float_lit 10 2)))

  abbrev pub is_correlated : PortfolioEngine → TargetPosition → Bool
  is_correlated e p = contains p.symbol e.btc_correlated_symbols

  -- The new positions over again, paired with their decisions, with the group scaled down.
  pub rescale :
      PortfolioEngine → Float → List TargetPosition → List TradingDecision → List TargetPosition
  unfolding to_target_position
  rescale e scale (p ∷ ps) (d ∷ ds) =
      to_target_position d
        (if is_correlated e p then float_mul p.target_weight scale else p.target_weight)
      ∷ rescale e scale ps ds
  rescale e scale _ _ = []

  pub cap_correlated :
      PortfolioEngine → ℕ → List TradingDecision → List TargetPosition → List TargetPosition
  unfolding rescale sum_weights
  cap_correlated e kept ds ps =
      let total = sum_weights (filter (is_correlated e) ps) in
      if float_lt e.max_correlated_group_weight total && float_lt (float_lit 0 0) total
      then take kept ps
        ++ rescale e (float_div e.max_correlated_group_weight total) (drop kept ps) ds
      else ps

  pub scale_down : Float → TargetPosition → TargetPosition
  scale_down scale p = record p { target_weight = float_mul p.target_weight scale }

  pub positions_of : PortfolioEngine → ℤ → Selection → List TargetPosition
  unfolding weigh a_weight_base available_exposure retained_position cap_correlated
  positions_of e risk_level s = cap_correlated e (length s.retained) s.selected_new (
      map retained_position s.retained
      ++ weigh (a_weight_base risk_level) (available_exposure e s.retained) s.selected_new)

  -- The gross exposure is cut to one, and the weights with it.
  pub target_of :
      String → String → ℕ → List (String × String) → List TargetPosition → PortfolioTarget
  unfolding scale_down sum_weights
  target_of exchange timeframe now reasons ps =
      let gross = round_six (sum_weights ps) in
      let over = float_lt (float_lit 1 0) gross in
      let exposure = if over then float_lit 1 0 else gross in
      record {
        exchange = exchange;
        timeframe = timeframe;
        target_positions =
            if over then map (scale_down (float_div (float_lit 1 0) gross)) ps else ps;
        cash_weight = round_ten (float_max (float_lit 0 0) (float_sub (float_lit 1 0) exposure));
        gross_exposure = exposure;
        created_at = now;
        close_reasons = reasons;
      }

  pub no_candidates : String → String → ℕ → List (String × String) → PortfolioTarget
  no_candidates exchange timeframe now reasons = record {
    exchange = exchange;
    timeframe = timeframe;
    target_positions = [];
    cash_weight = float_lit 1 0;
    gross_exposure = float_lit 0 0;
    created_at = now;
    close_reasons = reasons;
  }

  -- The second half of the method.
  pub target_from : PortfolioEngine → String → String → ℤ → ℕ → Selection → PortfolioTarget
  unfolding positions_of target_of no_candidates
  target_from e exchange timeframe risk_level now s =
      if is_empty s.retained && is_empty s.selected_new
      then no_candidates exchange timeframe now (all_close_reasons s)
      else target_of exchange timeframe now (all_close_reasons s) (positions_of e risk_level s)

  unfoldable pub build_target_portfolio :
      Runtime
      → PortfolioEngine
      → String
      → String
      → List TradingDecision
      → List String
      → ℤ
      → ℕ
      → PortfolioTarget
  unfolding target_from select
  build_target_portfolio rt e exchange timeframe ds open_positions risk_level now =
      target_from e exchange timeframe risk_level now (select rt e ds open_positions)
