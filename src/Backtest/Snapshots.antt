-- ===== src/Backtest/Snapshots.antt =====
-- services/backtesting/memory_cache.py, `InMemoryFeatureSnapshotRepository`, and the three methods of
-- domain/repositories/feature_snapshot_repository.py that it stands in for. A row's `available_at` is left
-- out. The dictionaries `_snaps` and `_times`, which have the same keys, are one dictionary of pairs. The
-- upsert of several rows is SQLite's, which takes them one after the other.
pub mod Table
pub mod Refinement
pub mod Listing
use crypto_mas.Prelude.Dict.{assign, find}
use crypto_mas.Prelude.{
  ℕ, ◌-◌, Bool, true, false, ◌&&◌, Option, none, some, List, [], ◌∷◌, String, str_append, str_eq,
  ltb, leb, ◌==◌, if◌then◌else◌, filter, length,
}
use crypto_mas.Numbers.{Numerics}
use crypto_mas.Domain.{FeatureSnapshot}
use crypto_mas.Repository.Records.{latest}
use crypto_mas.Backtest.Series.{Series, insert_sorted, between, right_end, entry_before}
use crypto_mas.Backtest.Series.Latest.{within}

-- The arguments `exchange`, `symbol` and `timeframe`.
pub record Market : Type 0 where
  pub exchange : String
  pub symbol : String
  pub timeframe : String

-- `f"{exchange}_{symbol}_{timeframe}"`
abbrev pub key : Market → String
key m = str_append m.exchange (str_append "_" (str_append m.symbol (str_append "_" m.timeframe)))

module _ ⦃n : Numerics⦄ where
  abbrev pub SnapshotCache : Type 0
  SnapshotCache = List (String × Series FeatureSnapshot)

  abbrev pub market_of : FeatureSnapshot → Market
  market_of r = record { exchange = r.exchange; symbol = r.symbol; timeframe = r.timeframe }

  unfoldable pub is_of : Market → FeatureSnapshot → Bool
  is_of m r =
      str_eq r.exchange m.exchange && str_eq r.symbol m.symbol && str_eq r.timeframe m.timeframe

  -- `FeatureSnapshotRepository.get_latest`, with or without an end.
  pub select_latest : Market → Option ℕ → List FeatureSnapshot → Option FeatureSnapshot
  unfolding latest
  select_latest m end rows = latest (filter (λ r. is_of m r && within end r.timestamp) rows)

  -- A row that is inserted, or that updates the row with its four columns.
  pub upsert : FeatureSnapshot → List FeatureSnapshot → List FeatureSnapshot
  upsert x [] = x ∷ []
  upsert x (r ∷ rs) =
      let later = upsert x rs in
      if is_of (market_of x) r && r.timestamp == x.timestamp then x ∷ rs else r ∷ later

  -- `FeatureSnapshotRepository.bulk_upsert`
  pub bulk_upsert_table : List FeatureSnapshot → List FeatureSnapshot → List FeatureSnapshot
  unfolding upsert
  bulk_upsert_table [] rows = rows
  bulk_upsert_table (x ∷ xs) rows = bulk_upsert_table xs (upsert x rows)

  -- The pair of lists under a key, empty ones where the key is missing.
  abbrev pub entries : String → SnapshotCache → Series FeatureSnapshot
  entries k cache = elim (find k cache) [ none ↦ record { times = []; rows = [] } | some s ↦ s ]

  pub insert_all : List FeatureSnapshot → Series FeatureSnapshot → Series FeatureSnapshot
  insert_all [] s = s
  insert_all (x ∷ xs) s = insert_all xs (insert_sorted x.timestamp x s)

  -- `bulk_upsert` of the cache: the key is that of the first snapshot.
  unfoldable pub bulk_upsert : List FeatureSnapshot → SnapshotCache → ℕ × SnapshotCache
  unfolding insert_all
  bulk_upsert [] cache = (0, cache)
  bulk_upsert (x ∷ xs) cache =
      let k = key (market_of x) in
      (length (x ∷ xs), assign k (insert_all (x ∷ xs) (entries k cache)) cache)

  abbrev pub is_nil : List FeatureSnapshot → Bool
  is_nil [] = true
  is_nil (x ∷ xs) = false

  -- `get_latest` of the cache, over a table.
  unfoldable pub get_latest :
      Market → Option ℕ → SnapshotCache → List FeatureSnapshot → Option FeatureSnapshot
  unfolding select_latest
  get_latest m end cache table =
      let s = entries (key m) cache in
      if is_nil s.rows
      then select_latest m end table
      else entry_before (right_end s.times end) s.rows

  -- `list_by_symbol` of the cache, where it knows the key.
  pub list_known : Series FeatureSnapshot → Option ℕ → Option ℕ → Option ℕ → List FeatureSnapshot
  unfolding between
  list_known s start_time end_time limit =
      if is_nil s.rows then [] else between s start_time end_time limit
