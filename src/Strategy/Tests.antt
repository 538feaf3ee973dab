-- ===== src/Strategy/Tests.antt =====
-- Concrete decisions in a rising market: one where the price has fallen back to its average, and one of the trend.
use crypto_mas.Prelude.{◌≡◌, refl, true, false, none, some, [], ◌∷◌}
use crypto_mas.Numbers.Fixed.{fixed, literal}
use crypto_mas.Domain.{no_features, FeatureSnapshot}
use crypto_mas.MarketData.Schemas.{one_hour}
use crypto_mas.Strategy.{consider_long, bull_trend, TradingDecision}
use crypto_mas.Strategy.Tactics.{required, unless, with_ratio, with_latest}
use crypto_mas.Prelude.Int.{pos}
use crypto_mas.Strategy.MultiAgent.{MultiAgent, multi_agent_decide}
use crypto_mas.Strategy.MultiAgent.Verdicts.{Verdict, multi_agent_decide-Verdict}
use crypto_mas.Strategy.Adaptive.{Config, adaptive_decide}
use crypto_mas.Strategy.Adaptive.Fitting.{Suits, adaptive_decide-Suits}

abbrev pulled_back : FeatureSnapshot
pulled_back = record {
  exchange = "binance";
  symbol = "SOLUSDT";
  timeframe = "1h";
  timestamp = 500_000_000;
  features = record no_features {
    close = some (literal 100 0);
    ema_20 = some (literal 1005 1);
    ema_50 = some (literal 99 0);
    atr_14 = some (literal 1 0);
    roc_14 = some (literal 1 0);
    adx_14 = some (literal 30 0);
    rsi_14 = some (literal 45 0);
    bb_upper = some (literal 105 0);
    bb_middle = some (literal 100 0);
    bb_lower = some (literal 95 0);
  };
}

abbrev config : Config
config = record {
  general = λ key. none;
  bull_tactic = λ key. none;
  bear_tactic = λ key. none;
  sideways_tactic = λ key. none;
}

abbrev bought : TradingDecision
bought = record {
  exchange = "binance";
  symbol = "SOLUSDT";
  timeframe = one_hour;
  action = consider_long;
  confidence = literal 5 1;
  final_score = literal 5 1;
  regime = some bull_trend;
  reason = "[BULL_TREND] TREND(ADX=) | LONG_PB(%) | RSI=";
  sl_mult_override = none;
  tp_mult_override = some (literal 2 0);
}

bought_test :
    adaptive_decide
      (λ k x. "")
      (λ symbol key. none)
      "binance"
      one_hour
      config
      "SOLUSDT"
      (pulled_back ∷ [])
      false
    ≡ some (some bought)
unfolding adaptive_decide required unless with_ratio with_latest
bought_test = refl

adaptive_decide-Suits_example :
    Suits
      (λ k x. "")
      (λ symbol key. none)
      "binance"
      one_hour
      config
      "SOLUSDT"
      (pulled_back ∷ [])
      false
      bought
adaptive_decide-Suits_example =
    adaptive_decide-Suits (λ k x. "") (λ symbol key. none) "binance" one_hour config "SOLUSDT"
      (pulled_back ∷ []) false bought bought_test

abbrev rising : FeatureSnapshot
rising = record pulled_back {
  features = record no_features {
    close = some (literal 100 0);
    ema_20 = some (literal 90 0);
    ema_50 = some (literal 80 0);
    atr_14 = some (literal 5 0);
    roc_14 = some (literal 5 0);
    rsi_14 = some (literal 60 0);
    macd = some (literal 4 0);
    macd_signal = some (literal 1 0);
    bb_upper = some (literal 105 0);
    bb_middle = some (literal 100 0);
    bb_lower = some (literal 95 0);
  };
}

abbrev agent : MultiAgent
agent = record {
  exchange = "binance";
  timeframe = one_hour;
  risk_level = pos 50;
  use_regime_shield = true;
  scoring_agent = record { trend_weight = literal 55 2; momentum_weight = literal 45 2 };
}

abbrev followed : TradingDecision
followed = record {
  exchange = "binance";
  symbol = "SOLUSDT";
  timeframe = one_hour;
  action = consider_long;
  confidence = literal 935 3;
  final_score = literal 9 1;
  regime = some bull_trend;
  reason = "Action=CONSIDER_LONG. Final score=. Market regime=BULL_TREND.";
  sl_mult_override = none;
  tp_mult_override = none;
}

followed_test :
    multi_agent_decide (λ x. "") (λ x. x) agent "SOLUSDT" (rising ∷ []) false ≡ some (some followed)
unfolding multi_agent_decide
followed_test = refl

multi_agent_decide-Verdict_example :
    Verdict (λ x. "") (λ x. x) agent "SOLUSDT" (rising ∷ []) followed
multi_agent_decide-Verdict_example =
    multi_agent_decide-Verdict (λ x. "") (λ x. x) agent "SOLUSDT" (rising ∷ []) false followed
      followed_test
