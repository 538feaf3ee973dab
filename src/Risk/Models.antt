-- ===== src/Risk/Models.antt =====
-- engine/risk/base.py, models/btc_crash_model.py, models/htf_portfolio_model.py, models/regime_model.py and
-- manager.py. The keys of the context are the fields of a record. A feature that is missing is `none`.
pub mod Shields
mod Tests
use crypto_mas.Prelude.{
  Bool, true, false, not, ◌&&◌, ◌||◌, Option, none, some, List, [], ◌∷◌, String, str_append,
  if◌then◌else◌,
}
use crypto_mas.Numbers.{Numerics, float_lt}
use crypto_mas.MarketData.Schemas.{Timeframe, fifteen_minutes}
use crypto_mas.Domain.{FeatureSnapshot}
use crypto_mas.Strategy.{
  DecisionAction, consider_long, consider_short, hold, MarketRegime, bear_trend, sideways,
  high_volatility, is_consider, is_consider_long, is_consider_short, name_of, TradingDecision,
}

pub data RiskModel : Type 0 where
  btc_crash htf_portfolio regime_shield : RiskModel

abbrev pub is_high_volatility : MarketRegime → Bool
is_high_volatility high_volatility = true
is_high_volatility _ = false

abbrev pub is_noisy : MarketRegime → Bool
is_noisy bear_trend = true
is_noisy sideways = true
is_noisy _ = false

abbrev pub is_fifteen_minutes : Timeframe → Bool
is_fifteen_minutes fifteen_minutes = true
is_fifteen_minutes _ = false

-- The last of a list: `snapshots[-1]`.
abbrev pub last {ℓ} : {A : Type ℓ} → List A → Option A
last [] = none
last (x ∷ []) = some x
last (x ∷ y ∷ rest) = last (y ∷ rest)

module _ ⦃n : Numerics⦄ where
  open n use {Float, float_lit, float_sub}

  pub record Context : Type 0 where
    pub use_btc_shield : Bool
    pub btc_is_crashing : Bool
    pub use_htf_shield : Bool
    pub htf_snapshots : List FeatureSnapshot
    pub use_regime_shield : Bool

  -- The decision is put on hold, with a text before its reason.
  unfoldable pub override : String → TradingDecision → TradingDecision
  override text d = record d { action = hold; reason = str_append text d.reason }

  pub evaluate_btc_crash : Context → TradingDecision → TradingDecision
  unfolding override
  evaluate_btc_crash c d =
      if not c.use_btc_shield || not c.btc_is_crashing
      then d
      else if is_consider_long d.action
      then override "REJECTED by BTC Crash Filter. Original: " d
      else d

  abbrev pub is_strong_bear : Float → Float → Float → Float → Bool
  is_strong_bear close ema_20 ema_50 roc =
      float_lt close ema_20
      && (float_lt ema_20 ema_50 && float_lt roc (float_sub (float_lit 0 0) (float_lit 3 0)))

  abbrev pub is_strong_bull : Float → Float → Float → Float → Bool
  is_strong_bull close ema_20 ema_50 roc =
      float_lt ema_20 close && (float_lt ema_50 ema_20 && float_lt (float_lit 0 0) roc)

  -- The two filters of the higher timeframe, where all four features are there.
  pub filter_trend : Float → Float → Float → Float → TradingDecision → TradingDecision
  unfolding override
  filter_trend close ema_20 ema_50 roc d =
      if is_consider_long d.action && is_strong_bear close ema_20 ema_50 roc
      then override "REJECTED by HTF Shield (Strong Bear). Original: " d
      else if is_consider_short d.action && is_strong_bull close ema_20 ema_50 roc
      then override "REJECTED by HTF Shield (Strong Bull). Original: " d
      else d

  pub filter_latest :
      Option Float → Option Float → Option Float → Option Float → TradingDecision → TradingDecision
  unfolding filter_trend
  filter_latest (some close) (some ema_20) (some ema_50) (some roc) d =
      filter_trend close ema_20 ema_50 roc d
  filter_latest _ _ _ _ d = d

  pub evaluate_htf_portfolio : Context → TradingDecision → TradingDecision
  unfolding filter_latest
  evaluate_htf_portfolio c d = if not c.use_htf_shield then d else (elim (last c.htf_snapshots) [
    | none ↦ d
    | some s ↦
        filter_latest s.features.close s.features.ema_20 s.features.ema_50 s.features.roc_14 d
  ])

  pub filter_regime : MarketRegime → TradingDecision → TradingDecision
  unfolding override
  filter_regime r d =
      if is_high_volatility r
      then (if is_consider d.action
          then override "REJECTED by Regime Shield (HIGH_VOLATILITY). Original: " d
          else d)
      else if is_noisy r && (is_fifteen_minutes d.timeframe && is_consider d.action)
      then override
          (str_append "REJECTED by Regime Shield (15m is too noisy for "
            (str_append (name_of r) "). Use 1h/4h. Original: "))
          d
      else d

  pub filter_known : Option MarketRegime → TradingDecision → TradingDecision
  unfolding filter_regime
  filter_known none d = d
  filter_known (some r) d = filter_regime r d

  pub evaluate_regime : Context → TradingDecision → TradingDecision
  unfolding filter_known
  evaluate_regime c d = if not c.use_regime_shield then d else filter_known d.regime d

  pub evaluate : RiskModel → Context → TradingDecision → TradingDecision
  unfolding evaluate_btc_crash evaluate_htf_portfolio evaluate_regime
  evaluate btc_crash c d = evaluate_btc_crash c d
  evaluate htf_portfolio c d = evaluate_htf_portfolio c d
  evaluate regime_shield c d = evaluate_regime c d

  -- `RiskManager.evaluate_decision`
  unfoldable pub evaluate_decision : List RiskModel → Context → TradingDecision → TradingDecision
  unfolding evaluate
  evaluate_decision [] c d = d
  evaluate_decision (m ∷ ms) c d = evaluate_decision ms c (evaluate m c d)
