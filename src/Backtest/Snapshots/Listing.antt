-- ===== src/Backtest/Snapshots/Listing.antt =====
-- services/backtesting/memory_cache.py and domain/repositories/feature_snapshot_repository.py: the two methods
-- `list_by_symbol` of feature snapshots.
use crypto_mas.Backtest.Series.Ranges.{drop_nil, between-eq-filter, in_range, last_of}
use crypto_mas.Domain.{FeatureSnapshot}
use crypto_mas.Backtest.Snapshots.{
  is_of, bulk_upsert_table, upsert, key, SnapshotCache, Market, list_known, entries,
}
use crypto_mas.Backtest.Series.{Series}
use crypto_mas.Numbers.{Numerics}
use crypto_mas.Prelude.{
  length, ◌-◌, some, none, ◌∷◌, Bool-cases, Option-cases, inl, inr, false, ◌==◌, ==_iff, refl,
  arith, subst, ◌&&◌, ap, sym, [], ◌∙◌, filter, All, ◌≡◌, Option, List, ℕ,
}
use crypto_mas.Prelude.Dict.{find}
use crypto_mas.Backtest.Candles.{sort_by_time}
use crypto_mas.Backtest.Candles.Sorting.{
  Distinct, find_at-sort, sort-Ascending, Ascending-Ordered, Ascending-unique,
}
use crypto_mas.Backtest.Candles.Equivalence.{sort_sorted, filter-sort, filter-filter}
use crypto_mas.Backtest.Series.Slices.{find_at, Ascending, series_of}
use crypto_mas.Backtest.Snapshots.Table.{is_of_self, time, rows_of, look_in, InMarket, look-upsert}
use crypto_mas.Backtest.Snapshots.Refinement.{fill_cache, fill_table, filled-Refines}

module _ ⦃n : Numerics⦄ where
  -- `FeatureSnapshotRepository.list_by_symbol`. With a limit it takes the last rows and turns them round.
  unfoldable pub select_snapshots :
      Market → Option ℕ → Option ℕ → Option ℕ → List FeatureSnapshot → List FeatureSnapshot
  select_snapshots m start end limit rows =
      last_of limit (sort_by_time time (filter (λ r. is_of m r && in_range time start end r) rows))

  -- `list_by_symbol` of the cache, over a table.
  unfoldable pub list_snapshots :
      Market
      → Option ℕ
      → Option ℕ
      → Option ℕ
      → SnapshotCache
      → List FeatureSnapshot
      → List FeatureSnapshot
  unfolding list_known
  list_snapshots m start end limit cache table = elim (find (key m) cache) [
    | none ↦ select_snapshots m start end limit table
    | some s ↦ list_known s start end limit
  ]

  upsert-Distinct :
      (m : Market) (x : FeatureSnapshot) (rows : List FeatureSnapshot)
      → InMarket m x
      → Distinct time (rows_of m rows)
      → Distinct time (rows_of m (upsert x rows))
  unfolding upsert
  upsert-Distinct m x [] h d = rw (is_of_self m x h) (refl, tt)
  upsert-Distinct m x (r ∷ rs) h d = elim (Bool-cases (is_of m r)) [
    | inr other ↦
        let e : rows_of m (r ∷ rs) ≡ rows_of m rs = rw other refl in
        rw (ap (λ k. is_of k r) h, other)
          (rw other (upsert-Distinct m x rs h (subst (Distinct time) e d)))
    | inl of_m ↦
        let e : rows_of m (r ∷ rs) ≡ r ∷ rows_of m rs = rw of_m refl in
        let d' : Distinct time (r ∷ rows_of m rs) = subst (Distinct time) e d in
        elim (Bool-cases (r.timestamp == x.timestamp)) [
          | inl same ↦
              let at : r.timestamp ≡ x.timestamp = (==_iff r.timestamp x.timestamp).0 same in
              rw (ap (λ k. is_of k r) h, of_m, same, is_of_self m x h)
                (subst (λ t. find_at time t (rows_of m rs) ≡ none) at d'.0, d'.1)
          | inr differs ↦
              let new : (x.timestamp == r.timestamp) ≡ false = ground arith in
              rw (ap (λ k. is_of k r) h, of_m, differs)
                (rw of_m
                  (look-upsert m x r.timestamp rs h ∙ rw new d'.0, upsert-Distinct m x rs h d'.1))
        ]
  ]

  bulk_upsert_table-Distinct :
      (m : Market) (xs : List FeatureSnapshot) (rows : List FeatureSnapshot)
      → All (InMarket m) xs
      → Distinct time (rows_of m rows)
      → Distinct time (rows_of m (bulk_upsert_table xs rows))
  unfolding bulk_upsert_table
  bulk_upsert_table-Distinct m [] rows h d = d
  bulk_upsert_table-Distinct m (x ∷ xs) rows h d =
      bulk_upsert_table-Distinct m xs (upsert x rows) h.1 (upsert-Distinct m x rows h.0 d)

  fill_table-Distinct :
      (m : Market) (xss : List (List FeatureSnapshot)) (rows : List FeatureSnapshot)
      → All (All (InMarket m)) xss
      → Distinct time (rows_of m rows)
      → Distinct time (rows_of m (fill_table xss rows))
  fill_table-Distinct m [] rows h d = d
  fill_table-Distinct m (xs ∷ xss) rows h d =
      fill_table-Distinct m xss (bulk_upsert_table xs rows) h.1
        (bulk_upsert_table-Distinct m xs rows h.0 d)

  -- The table, in order, is what the cache holds.
  held_rows :
      (m : Market) (held rows : List FeatureSnapshot)
      → Ascending time held
      → ((t : ℕ) → find_at time t held ≡ look_in m rows t)
      → Distinct time (rows_of m rows)
      → held ≡ sort_by_time time (rows_of m rows)
  held_rows m held rows asc same d =
      Ascending-unique time held (sort_by_time time (rows_of m rows)) asc
        (sort-Ascending time (rows_of m rows) d)
        (λ t. same t ∙ sym (find_at-sort time t (rows_of m rows)))

  select_held :
      (m : Market) (start end limit : Option ℕ) (held rows : List FeatureSnapshot)
      → held ≡ sort_by_time time (rows_of m rows)
      → select_snapshots m start end limit rows
        ≡ last_of limit (filter (in_range time start end) held)
  unfolding select_snapshots
  select_held m start end limit held rows e =
      let range = in_range time start end in
      sym (
        ap (λ xs. last_of limit (filter range xs)) e
        ∙ ap (last_of limit) (
            filter-sort time range (rows_of m rows)
            ∙ ap (sort_by_time time) (filter-filter time (is_of m) range rows)))

  list_known-held :
      (start end limit : Option ℕ) (held : List FeatureSnapshot)
      → Ascending time held
      → list_known (series_of time held) start end limit
        ≡ last_of limit (filter (in_range time start end) held)
  unfolding list_known
  list_known-held start end none [] asc = refl
  list_known-held start end (some k) [] asc = sym (drop_nil (length {A = FeatureSnapshot} [] - k))
  list_known-held start end limit (x ∷ xs) asc =
      between-eq-filter time (x ∷ xs) start end limit (Ascending-Ordered time (x ∷ xs) asc)

  list_snapshots-held :
      (m : Market) (start end limit : Option ℕ) (held : List FeatureSnapshot)
      (cache : SnapshotCache) (table : List FeatureSnapshot)
      → rows_of m table ≡ []
      → entries (key m) cache ≡ series_of time held
      → Ascending time held
      → list_snapshots m start end limit cache table
        ≡ last_of limit (filter (in_range time start end) held)
  unfolding list_snapshots
  list_snapshots-held m start end limit held cache table before e asc =
      elim (Option-cases (find (key m) cache)) [
        | inl free ↦
            let nothing : entries (key m) cache ≡ series_of time [] = rw (free, entries) refl in
            let empty : [] ≡ held = ap (λ (s : Series FeatureSnapshot). s.rows) (sym nothing ∙ e) in
            rw (free, list_snapshots)
              (select_held m start end limit held table
                (sym empty ∙ sym (ap (sort_by_time time) before ∙ sort_sorted time [] tt)))
        | inr (s, known) ↦
            let found : entries (key m) cache ≡ s = rw (known, entries) refl in
            let same : s ≡ series_of time held = sym found ∙ e in
            rw (known, list_snapshots, same) (list_known-held start end limit held asc)
      ]

  -- After any calls of `bulk_upsert` with snapshots of one market, in whatever order and with times
  -- repeated, the cache answers `list_by_symbol` as the table would that had taken the same calls, for
  -- every start, end and limit. The table that stands behind the cache holds no row of the market.
  pub list_snapshots-refines :
      (m : Market) (start end limit : Option ℕ) (xss : List (List FeatureSnapshot))
      (table : List FeatureSnapshot)
      → rows_of m table ≡ []
      → All (All (InMarket m)) xss
      → list_snapshots m start end limit (fill_cache xss []) table
        ≡ select_snapshots m start end limit (fill_table xss table)
  list_snapshots-refines m start end limit xss table before h =
      let r = filled-Refines m xss table before h in
      let d = fill_table-Distinct m xss table h (rw before tt) in
      list_snapshots-held m start end limit r.held (fill_cache xss []) table before r.entry
        r.ascending
      ∙ sym (
          select_held m start end limit r.held (fill_table xss table)
            (held_rows m r.held (fill_table xss table) r.ascending r.same d))
