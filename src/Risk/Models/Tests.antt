-- ===== src/Risk/Models/Tests.antt =====
-- A decision to buy passes three shields, of which one blocks it.
use crypto_mas.Risk.Models.{
  regime_shield, htf_portfolio, btc_crash, Context, evaluate_decision, RiskModel,
}
use crypto_mas.Prelude.{◌≡◌, List, [], ◌∷◌, some, none, refl, true, false}
use crypto_mas.Numbers.Fixed.{fixed, literal}
use crypto_mas.Domain.{no_features}
use crypto_mas.Strategy.{consider_long, hold, sideways, TradingDecision}
use crypto_mas.MarketData.Schemas.{fifteen_minutes}

abbrev purchase : TradingDecision
purchase = record {
  exchange = "binance";
  symbol = "ETHUSDT";
  timeframe = fifteen_minutes;
  action = consider_long;
  confidence = literal 9 1;
  final_score = literal 8 1;
  regime = some sideways;
  reason = "signal";
  sl_mult_override = none;
  tp_mult_override = none;
}

abbrev calm : Context
calm = record {
  use_btc_shield = true;
  btc_is_crashing = false;
  use_htf_shield = true;
  htf_snapshots =
      record {
        exchange = "binance";
        symbol = "ETHUSDT";
        timeframe = "1h";
        timestamp = 0;
        features = record no_features {
          close = some (literal 5 0);
          ema_20 = some (literal 4 0);
          ema_50 = some (literal 3 0);
          roc_14 = some (literal 1 0);
        };
      }
      ∷ [];
  use_regime_shield = true;
}

abbrev shields : List RiskModel
shields = btc_crash ∷ htf_portfolio ∷ regime_shield ∷ []

held_test : (evaluate_decision shields calm purchase).action ≡ hold
unfolding evaluate_decision
held_test = refl
