-- ===== src/Backtest/Snapshots/Refinement.antt =====
-- services/backtesting/memory_cache.py: the cache of feature snapshots beside the table.
use crypto_mas.Backtest.Snapshots.Table.{
  time, rows_of, look_in, select_latest-IsLatest, InMarket, look-upsert,
}
use crypto_mas.Backtest.Series.{right_end, entry_before, Series}
use crypto_mas.Prelude.Dict.Laws.{find-assign}
use crypto_mas.Backtest.Series.Slices.{
  insert_sorted-eq-put_row, find_at-put_row, put_row-Ascending, put_row, Ascending, series_of,
  find_at,
}
use crypto_mas.Backtest.Snapshots.{
  is_nil, insert_all, get_latest, bulk_upsert, bulk_upsert_table, key, entries, SnapshotCache,
  upsert, Market, select_latest,
}
use crypto_mas.Backtest.Series.Latest.{search-IsLatest, IsLatest-unique, IsLatest-look}
use crypto_mas.Prelude.Dict.{assign}
use crypto_mas.Prelude.{
  map, ◌∙◌, sym, ap, ℕ, ◌≡◌, refl, Option, List, [], ◌∷◌, String, if◌then◌else◌, All,
}
use crypto_mas.Numbers.{Numerics}
use crypto_mas.Domain.{FeatureSnapshot}

module _ ⦃n : Numerics⦄ where
  -- What the cache and the table share: the series of the market is in order, and gives the same row
  -- for each time.
  pub record Refines (m : Market) (cache : SnapshotCache) (rows : List FeatureSnapshot)
      : Type 0 where
    pub held : List FeatureSnapshot
    pub entry : entries (key m) cache ≡ series_of time held
    pub ascending : Ascending time held
    pub same : (t : ℕ) → find_at time t held ≡ look_in m rows t

  insert_all-series_of :
      (m : Market) (xs held : List FeatureSnapshot) (rows : List FeatureSnapshot)
      → All (InMarket m) xs
      → Ascending time held
      → ((t : ℕ) → find_at time t held ≡ look_in m rows t)
      → (held' : List FeatureSnapshot) × (insert_all xs (series_of time held)
          ≡ series_of time held')
        × Ascending time held'
        × ((t : ℕ) → find_at time t held' ≡ look_in m (bulk_upsert_table xs rows) t)
  unfolding insert_all bulk_upsert_table
  insert_all-series_of m [] held rows h asc same = (held, refl, asc, same)
  insert_all-series_of m (x ∷ xs) held rows h asc same =
      let (held', e, asc', same') =
        insert_all-series_of m xs (put_row time x held) (upsert x rows) h.1
          (put_row-Ascending time x held asc)
          (λ t. find_at-put_row time t x held ∙ rw (same t) (sym (look-upsert m x t rows h.0))) in
      (held', ap (insert_all xs) (insert_sorted-eq-put_row time x held) ∙ e, asc', same')

  entries-assign :
      (k : String) (s : Series FeatureSnapshot) (cache : SnapshotCache)
      → entries k (assign k s cache) ≡ s
  entries-assign k s cache = rw (find-assign k s cache, entries) refl

  bulk_upsert-Refines :
      (m : Market) (xs : List FeatureSnapshot) (cache : SnapshotCache) (rows : List FeatureSnapshot)
      → All (InMarket m) xs
      → Refines m cache rows
      → Refines m (bulk_upsert xs cache).1 (bulk_upsert_table xs rows)
  unfolding bulk_upsert bulk_upsert_table
  bulk_upsert-Refines m [] cache rows h r = r
  bulk_upsert-Refines m (x ∷ xs) cache rows h r =
      let (held', e, asc', same') =
        insert_all-series_of m (x ∷ xs) r.held rows h r.ascending r.same in
      record {
        held = held';
        entry =
            ap
              (λ k.
                entries (key m)
                  (assign (key k) (insert_all (x ∷ xs) (entries (key k) cache)) cache))
              h.0
            ∙ entries-assign (key m) (insert_all (x ∷ xs) (entries (key m) cache)) cache
            ∙ ap (insert_all (x ∷ xs)) r.entry
            ∙ e;
        ascending = asc';
        same = same';
      }

  -- The calls of `bulk_upsert`, one after the other, of the cache and of the table.
  abbrev pub fill_cache : List (List FeatureSnapshot) → SnapshotCache → SnapshotCache
  fill_cache [] cache = cache
  fill_cache (xs ∷ xss) cache = fill_cache xss (bulk_upsert xs cache).1

  abbrev pub fill_table : List (List FeatureSnapshot) → List FeatureSnapshot → List FeatureSnapshot
  fill_table [] rows = rows
  fill_table (xs ∷ xss) rows = fill_table xss (bulk_upsert_table xs rows)

  fill_cache-Refines :
      (m : Market) (xss : List (List FeatureSnapshot)) (cache : SnapshotCache)
      (rows : List FeatureSnapshot)
      → All (All (InMarket m)) xss
      → Refines m cache rows
      → Refines m (fill_cache xss cache) (fill_table xss rows)
  fill_cache-Refines m [] cache rows h r = r
  fill_cache-Refines m (xs ∷ xss) cache rows h r =
      fill_cache-Refines m xss (bulk_upsert xs cache).1 (bulk_upsert_table xs rows) h.1
        (bulk_upsert-Refines m xs cache rows h.0 r)

  pub filled-Refines :
      (m : Market) (xss : List (List FeatureSnapshot)) (table : List FeatureSnapshot)
      → rows_of m table ≡ []
      → All (All (InMarket m)) xss
      → Refines m (fill_cache xss []) (fill_table xss table)
  filled-Refines m xss table before h =
      fill_cache-Refines m xss [] table h
        (record { held = []; entry = refl; ascending = tt; same = λ t. rw before refl })

  latest_of_held :
      (m : Market) (end : Option ℕ) (held table rows : List FeatureSnapshot)
      → rows_of m table ≡ []
      → Ascending time held
      → ((t : ℕ) → find_at time t held ≡ look_in m rows t)
      → (if is_nil held
          then select_latest m end table
          else entry_before (right_end (map time held) end) held)
        ≡ select_latest m end rows
  latest_of_held m end [] table rows before asc same =
      IsLatest-unique time (look_in m rows) end _ _
        (IsLatest-look time (look_in m table) (look_in m rows) end (select_latest m end table)
          (λ t w. ap (find_at time t) before ∙ same t) (select_latest-IsLatest m end table))
        (select_latest-IsLatest m end rows)
  latest_of_held m end (x ∷ xs) table rows before asc same =
      IsLatest-unique time (look_in m rows) end _ _
        (IsLatest-look time (λ t. find_at time t (x ∷ xs)) (look_in m rows) end _ (λ t w. same t)
          (search-IsLatest time end (x ∷ xs) asc))
        (select_latest-IsLatest m end rows)

  get_latest-refined :
      (m : Market) (end : Option ℕ) (cache : SnapshotCache) (table rows : List FeatureSnapshot)
      → rows_of m table ≡ []
      → Refines m cache rows
      → get_latest m end cache table ≡ select_latest m end rows
  unfolding get_latest
  get_latest-refined m end cache table rows none_before r =
      rw r.entry (latest_of_held m end r.held table rows none_before r.ascending r.same)

  -- After any calls of `bulk_upsert` with snapshots of one market, in whatever order and with times
  -- repeated, the cache answers `get_latest` as the table would that had taken the same calls, for
  -- every end and with no end. The table that stands behind the cache holds no row of the market.
  pub get_latest-refines :
      (m : Market) (end : Option ℕ) (xss : List (List FeatureSnapshot))
      (table : List FeatureSnapshot)
      → rows_of m table ≡ []
      → All (All (InMarket m)) xss
      → get_latest m end (fill_cache xss []) table ≡ select_latest m end (fill_table xss table)
  get_latest-refines m end xss table before h =
      get_latest-refined m end (fill_cache xss []) table (fill_table xss table) before
        (filled-Refines m xss table before h)
