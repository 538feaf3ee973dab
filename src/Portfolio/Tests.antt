-- ===== src/Portfolio/Tests.antt =====
-- Concrete runs of the portfolio engine: two places, both taken, and a stronger candidate for one.
use crypto_mas.Portfolio.Handover.{retained_short-dropped}
use crypto_mas.Portfolio.Weights.Headings.{heading}
use crypto_mas.Paper.Tests.{eth}
use crypto_mas.Paper.Close.{is_kept}
use crypto_mas.Portfolio.Results.{
  build_target_portfolio-sources, build_target_portfolio-flight, Quality,
  build_target_portfolio-accounts, Source, build_target_portfolio-length,
}
use crypto_mas.Portfolio.Selection.Candidates.{IsListing}
use crypto_mas.Portfolio.Selection.{
  group, new_candidates, default_btc_correlated, retained_symbols, default_coin_groups, Runtime,
  PortfolioEngine,
}
use crypto_mas.Portfolio.Weights.{build_target_portfolio}
use crypto_mas.Prelude.Int.{ℤ, pos}
use crypto_mas.Prelude.Dict.{contains, has}
use crypto_mas.Prelude.{
  All, ◌⊎◌, ◌≡◌, List, [], ◌∷◌, some, none, Option, refl, true, false, String, ℕ, map, length, min,
  ◌-◌, ◌+◌,
}
use crypto_mas.Numbers.Fixed.{fixed, literal}
use crypto_mas.Strategy.{
  DecisionAction, MarketRegime, consider_long, consider_short, close_long, hold, bear_trend,
  bull_trend, sideways, TradingDecision,
}
use crypto_mas.MarketData.Schemas.{one_hour}

abbrev pub runtime : Runtime
runtime = record { arrange = λ xs. xs; two_places = λ x. "" }

pub runtime-IsListing : IsListing runtime
runtime-IsListing = record { same_members = λ s xs. refl; same_length = λ xs. refl }

abbrev pub engine : ℕ → PortfolioEngine
engine places = record {
  max_positions = places;
  max_gross_exposure = literal 85 2;
  min_confidence = literal 5 1;
  max_correlated_group_weight = literal 40 2;
  coin_groups = default_coin_groups;
  btc_correlated_symbols = default_btc_correlated;
}

abbrev pub decision : String → DecisionAction → ℕ → ℕ → Option MarketRegime → TradingDecision
decision symbol action confidence score regime = record {
  exchange = "binance";
  symbol = symbol;
  timeframe = one_hour;
  action = action;
  confidence = literal confidence 2;
  final_score = literal score 2;
  regime = regime;
  reason = "signal";
  sl_mult_override = none;
  tp_mult_override = none;
}

-- BTC is closed, ETH and ADA are held; SOL is stronger than ETH; WIF falls and is no quality; DOGE is
-- boosted.
abbrev decisions : List TradingDecision
decisions =
    decision "BTCUSDT" close_long 90 90 none
    ∷ decision "ETHUSDT" hold 50 20 none
    ∷ decision "WIFUSDT" consider_long 90 90 (some bear_trend)
    ∷ decision "SOLUSDT" consider_short 75 80 (some sideways)
    ∷ decision "DOGEUSDT" consider_long 45 60 (some bull_trend)
    ∷ []

abbrev opens : List String
opens = "BTCUSDT" ∷ "ETHUSDT" ∷ "ADAUSDT" ∷ []

-- ETH scores 0.1 and ADA, with no decision, 0.15: the first candidate replaces the one, the second the
-- other.
replaced_test :
    map
      (λ p. p.symbol)
      (build_target_portfolio runtime
        (engine 2)
        "binance"
        "1h"
        decisions
        opens
        (pos 100)
        0).target_positions
    ≡ "SOLUSDT" ∷ "DOGEUSDT" ∷ []
unfolding retained_symbols new_candidates group build_target_portfolio
replaced_test = refl

slots_test :
    map {B = String × ℤ}
      (λ p. (p.symbol, p.target_weight))
      (build_target_portfolio runtime
        (engine 3)
        "binance"
        "1h"
        decisions
        opens
        (pos 100)
        0).target_positions
    ≡ ("ETHUSDT", literal 10 2) ∷ ("ADAUSDT", literal 10 2) ∷ ("SOLUSDT", literal 20 2) ∷ []
unfolding retained_symbols new_candidates group build_target_portfolio
slots_test = refl

build_target_portfolio-length_example :
    length
      (build_target_portfolio runtime
        (engine 2)
        "binance"
        "1h"
        decisions
        opens
        (pos 100)
        0).target_positions
    ≡ length (retained_symbols runtime decisions opens)
      + min
          (2 - length (retained_symbols runtime decisions opens))
          (length (new_candidates (engine 2) (retained_symbols runtime decisions opens) decisions))
build_target_portfolio-length_example =
    build_target_portfolio-length runtime runtime-IsListing (engine 2) decisions opens "binance"
      "1h" (pos 100) 0

build_target_portfolio-accounts_example :
    (contains "ETHUSDT" (
        map
          (λ p. p.symbol)
          (build_target_portfolio runtime
            (engine 2)
            "binance"
            "1h"
            decisions
            opens
            (pos 100)
            0).target_positions)
      ≡ true)
    ⊎ (has "ETHUSDT"
          (build_target_portfolio runtime
            (engine 2)
            "binance"
            "1h"
            decisions
            opens
            (pos 100)
            0).close_reasons
        ≡ true)
build_target_portfolio-accounts_example =
    build_target_portfolio-accounts runtime runtime-IsListing (engine 2) decisions opens "binance"
      "1h" (pos 100) 0 "ETHUSDT" refl

build_target_portfolio-sources_example :
    All
      (λ p. Source runtime (engine 2) decisions opens (heading p))
      (build_target_portfolio runtime
        (engine 2)
        "binance"
        "1h"
        decisions
        opens
        (pos 100)
        0).target_positions
build_target_portfolio-sources_example =
    build_target_portfolio-sources runtime runtime-IsListing (engine 2) decisions opens "binance"
      "1h" (pos 100) 0

build_target_portfolio-flight_example :
    All
      (Quality (engine 2) decisions opens)
      (build_target_portfolio runtime
        (engine 2)
        "binance"
        "1h"
        decisions
        opens
        (pos 100)
        0).target_positions
build_target_portfolio-flight_example =
    build_target_portfolio-flight runtime runtime-IsListing (engine 2) decisions opens "binance"
      "1h" (pos 100) 0 refl

-- An open short position in ETH that no decision closes.
retained_short-dropped_example :
    is_kept
      (build_target_portfolio runtime
        (engine 3)
        "binance"
        "1h"
        decisions
        opens
        (pos 100)
        0).target_positions
      eth
    ≡ false
unfolding retained_symbols
retained_short-dropped_example =
    retained_short-dropped runtime runtime-IsListing (engine 3) decisions opens "binance" "1h"
      (pos 100) 0 eth refl kept
  where
    kept : contains "ETHUSDT" (retained_symbols runtime decisions opens) ≡ true
    kept = refl
