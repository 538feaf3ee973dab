-- ===== src/Backtest/Candles.antt =====
-- services/backtesting/memory_cache.py, `InMemoryCandleRepository`, and `list_by_symbol` of
-- domain/repositories/candle_repository.py. Of a candle's columns the model holds those of its key and its
-- close.
pub mod Sorting
pub mod Equivalence
use crypto_mas.Prelude.Dict.{assign, find}
use crypto_mas.Prelude.{
  ℕ, Bool, ◌&&◌, Option, none, some, List, [], ◌∷◌, map, String, str_eq, ltb, if◌then◌else◌, filter,
}
use crypto_mas.Numbers.{Numerics}
use crypto_mas.Backtest.Series.{Series, between}
use crypto_mas.Backtest.Series.Ranges.{in_range, last_of}
use crypto_mas.Backtest.Snapshots.{Market, key}

module _ {A : Type 0} (time : A → ℕ) where
  pub insert_by_time : A → List A → List A
  insert_by_time x [] = x ∷ []
  insert_by_time x (y ∷ ys) =
      let rest = insert_by_time x ys in if ltb (time y) (time x) then y ∷ rest else x ∷ y ∷ ys

  -- `order_by(....asc())` and `sort(key=...)`, which is stable.
  unfoldable pub sort_by_time : List A → List A
  unfolding insert_by_time
  sort_by_time [] = []
  sort_by_time (x ∷ xs) = insert_by_time x (sort_by_time xs)

module _ ⦃n : Numerics⦄ where
  pub record Candle : Type 0 where
    pub exchange : String
    pub symbol : String
    pub timeframe : String
    pub open_time : ℕ
    pub close : n.Decimal

  abbrev pub CandleCache : Type 0
  CandleCache = List (String × Series Candle)

  abbrev pub is_candle_of : Market → Candle → Bool
  is_candle_of m c =
      str_eq c.exchange m.exchange && str_eq c.symbol m.symbol && str_eq c.timeframe m.timeframe

  abbrev pub open_time_of : Candle → ℕ
  open_time_of c = c.open_time

  -- `CandleRepository.list_by_symbol`. With a limit it takes the last candles and turns them round.
  pub select_candles : Market → Option ℕ → Option ℕ → Option ℕ → List Candle → List Candle
  unfolding sort_by_time
  select_candles m start end limit rows = last_of limit (
      sort_by_time open_time_of
        (filter (λ c. is_candle_of m c && in_range open_time_of start end c) rows))

  pub load : Market → List Candle → Series Candle
  unfolding select_candles
  load m rows =
      let candles = sort_by_time open_time_of (select_candles m none none none rows) in
      record { times = map open_time_of candles; rows = candles }

  -- `_ensure`, and the series under the key.
  pub ensure : Market → CandleCache → List Candle → Series Candle × CandleCache
  unfolding load
  ensure m cache rows = elim (find (key m) cache) [
    | none ↦ (load m rows, assign (key m) (load m rows) cache)
    | some s ↦ (s, cache)
  ]

  -- `preload`, whose dates are not used.
  pub preload : List Market → CandleCache → List Candle → CandleCache
  unfolding load
  preload [] cache rows = cache
  preload (m ∷ ms) cache rows = preload ms (assign (key m) (load m rows) cache) rows

  -- The early return for no candles is the empty slice.
  unfoldable pub list_candles :
      Market
      → Option ℕ
      → Option ℕ
      → Option ℕ
      → CandleCache
      → List Candle
      → List Candle × CandleCache
  unfolding ensure
  list_candles m start end limit cache rows =
      let (s, cache') = ensure m cache rows in (between s start end limit, cache')
