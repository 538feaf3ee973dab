-- ===== src/Backtest/Tests.antt =====
-- Concrete runs of the caches: snapshots out of order with a time repeated, and three candles.
mod Engine
mod Positions
use crypto_mas.Backtest.Snapshots.Listing.{list_snapshots, select_snapshots, list_snapshots-refines}
use crypto_mas.Backtest.Series.{insert_sorted, between}
use crypto_mas.Backtest.Candles.Equivalence.{list_candles-eq-select, Loaded}
use crypto_mas.Backtest.Snapshots.Refinement.{get_latest-refines, fill_table, fill_cache}
use crypto_mas.Backtest.Snapshots.{bulk_upsert, get_latest, select_latest, Market}
use crypto_mas.Backtest.Candles.{load, select_candles, list_candles, Candle}
use crypto_mas.Prelude.{◌≡◌, List, [], ◌∷◌, some, none, Option, refl, String, ℕ, map, inl, inr, All}
use crypto_mas.Numbers.Fixed.{fixed, literal}
use crypto_mas.Domain.{no_features, FeatureSnapshot}

abbrev market : Market
market = record { exchange = "binance"; symbol = "BTCUSDT"; timeframe = "1h" }

abbrev pub snap : ℕ → ℕ → FeatureSnapshot
snap time price = record {
  exchange = "binance";
  symbol = "BTCUSDT";
  timeframe = "1h";
  timestamp = time;
  features = record no_features { close = some (literal price 0) };
}

abbrev batches : List (List FeatureSnapshot)
batches = (snap 30 3 ∷ snap 10 1 ∷ []) ∷ [] ∷ (snap 20 2 ∷ snap 10 4 ∷ []) ∷ []

latest_test : get_latest market (some 15) (fill_cache batches []) [] ≡ some (snap 10 4)
unfolding get_latest between bulk_upsert insert_sorted
latest_test = refl

get_latest-refines_example :
    get_latest market (some 25) (fill_cache batches []) []
    ≡ select_latest market (some 25) (fill_table batches [])
get_latest-refines_example =
    get_latest-refines market (some 25) batches [] refl
      ((refl, (refl, tt)), (tt, ((refl, (refl, tt)), tt)))

snapshots_test :
    list_snapshots market (some 10) none (some 2) (fill_cache batches []) []
    ≡ snap 20 2 ∷ snap 30 3 ∷ []
unfolding list_snapshots between bulk_upsert insert_sorted
snapshots_test = refl

list_snapshots-refines_example :
    list_snapshots market (some 10) (some 25) (some 1) (fill_cache batches []) []
    ≡ select_snapshots market (some 10) (some 25) (some 1) (fill_table batches [])
list_snapshots-refines_example =
    list_snapshots-refines market (some 10) (some 25) (some 1) batches [] refl
      ((refl, (refl, tt)), (tt, ((refl, (refl, tt)), tt)))

abbrev candle : ℕ → Candle
candle time = record {
  exchange = "binance";
  symbol = "BTCUSDT";
  timeframe = "1h";
  open_time = time;
  close = literal 100 0;
}

abbrev candles : List Candle
candles = candle 30 ∷ candle 10 ∷ candle 20 ∷ []

listed_test :
    map (λ c. c.open_time) (list_candles market (some 5) (some 25) (some 1) [] candles).0 ≡ 20 ∷ []
unfolding list_candles between bulk_upsert insert_sorted
listed_test = refl

list_candles-eq-select_example :
    ((list_candles market (some 5) (some 25) (some 1) [] candles).0
      ≡ select_candles market (some 5) (some 25) (some 1) candles)
    × Loaded market (list_candles market (some 5) (some 25) (some 1) [] candles).1 candles
list_candles-eq-select_example =
    list_candles-eq-select market (some 5) (some 25) (some 1) [] candles (inl refl)
