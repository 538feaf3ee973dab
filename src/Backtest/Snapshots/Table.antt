-- ===== src/Backtest/Snapshots/Table.antt =====
-- services/backtesting/memory_cache.py: the latest row of the table.
use crypto_mas.Prelude.Dict.Laws.{str_eq_refl}
use crypto_mas.Backtest.Series.Slices.{find_at}
use crypto_mas.Repository.Records.{later, latest}
use crypto_mas.Backtest.Snapshots.{is_of, market_of, upsert, Market, select_latest}
use crypto_mas.Backtest.Series.Latest.{IsLatest-look, IsLatest, within}
use crypto_mas.Prelude.{
  sym, subst, filter-All, ==_iff, ap, and_true, inr, All-map_of, inl, Bool-cases, ℕ, ◌≡◌, refl,
  true, ◌&&◌, Option, none, some, List, [], ◌∷◌, ltb, ◌==◌, if◌then◌else◌, filter, arith, All,
}
use crypto_mas.Numbers.{Numerics}
use crypto_mas.Domain.{FeatureSnapshot}

module _ ⦃n : Numerics⦄ where
  abbrev pub time : FeatureSnapshot → ℕ
  time r = r.timestamp

  abbrev IsLater : Option ℕ → FeatureSnapshot → List FeatureSnapshot → FeatureSnapshot → Type 0
  IsLater end a rows r = IsLatest time (λ t. find_at time t (a ∷ rows)) end (some r)

  later-IsLatest :
      (end : Option ℕ) (a : FeatureSnapshot) (rows : List FeatureSnapshot)
      → within end (time a) ≡ true
      → (o : Option FeatureSnapshot) → IsLatest time (λ t. find_at time t rows) end o
      → IsLatest time (λ t. find_at time t (a ∷ rows)) end (some (later a o))
  later-IsLatest end a rows w none h = (w, ground arith, λ t wt lt. ground (arith, h t wt))
  later-IsLatest end a rows w (some b) h = elim (Bool-cases (ltb a.timestamp b.timestamp)) [
    | inl lt ↦
        let e : later a (some b) ≡ b = rw lt refl in
        subst (IsLater end a rows) (sym e)
          (h.0, ground (arith, h.1), λ t wt gt. ground (arith, h.2 t wt gt))
    | inr ge ↦
        let e : later a (some b) ≡ a = rw ge refl in
        subst (IsLater end a rows) (sym e) (w, ground arith, λ t wt gt. ground (arith, h.2 t wt))
  ]

  latest-IsLatest :
      (end : Option ℕ) (rows : List FeatureSnapshot)
      → All (λ r. within end (time r) ≡ true) rows
      → IsLatest time (λ t. find_at time t rows) end (latest rows)
  unfolding latest
  latest-IsLatest end [] h = λ t w. refl
  latest-IsLatest end (a ∷ rows) h =
      later-IsLatest end a rows h.0 (latest rows) (latest-IsLatest end rows h.1)

  -- The rows of a market, and the row of a time among them.
  abbrev pub rows_of : Market → List FeatureSnapshot → List FeatureSnapshot
  rows_of m rows = filter (is_of m) rows

  abbrev pub look_in : Market → List FeatureSnapshot → ℕ → Option FeatureSnapshot
  look_in m rows t = find_at time t (rows_of m rows)

  look_within :
      (m : Market) (end : Option ℕ) (t : ℕ) (rows : List FeatureSnapshot)
      → within end t ≡ true
      → find_at time t (filter (λ r. is_of m r && within end r.timestamp) rows) ≡ look_in m rows t
  look_within m end t [] w = refl
  look_within m end t (r ∷ rs) w = elim (Bool-cases (is_of m r)) [
    | inr other ↦ rw other (look_within m end t rs w)
    | inl of_m ↦ elim (Bool-cases (within end r.timestamp)) [
      | inl k ↦ rw (of_m, k, look_within m end t rs w) refl
      | inr k ↦ elim (Bool-cases (r.timestamp == t)) [
        | inl same ↦ absurd (cc (w, k, ap (within end) ((==_iff r.timestamp t).0 same)))
        | inr differs ↦ rw (of_m, k, differs) (look_within m end t rs w)
      ]
    ]
  ]

  pub select_latest-IsLatest :
      (m : Market) (end : Option ℕ) (rows : List FeatureSnapshot)
      → IsLatest time (look_in m rows) end (select_latest m end rows)
  unfolding select_latest
  select_latest-IsLatest m end rows =
      let p = λ (r : FeatureSnapshot). is_of m r && within end r.timestamp in
      IsLatest-look time (λ t. find_at time t (filter p rows)) (look_in m rows) end
        (latest (filter p rows)) (λ t w. look_within m end t rows w)
        (latest-IsLatest end (filter p rows) (
          All-map_of (λ r. p r ≡ true) (λ r. within end (time r) ≡ true) (filter p rows)
            (λ r h. (and_true (is_of m r) (within end r.timestamp) h).1) (filter-All p rows)))

  -- A snapshot of the market.
  abbrev pub InMarket : Market → FeatureSnapshot → Type 0
  InMarket m x = market_of x ≡ m

  pub is_of_self : (m : Market) (x : FeatureSnapshot) → InMarket m x → is_of m x ≡ true
  unfolding is_of
  is_of_self m x h =
      rw (← h) (rw (str_eq_refl x.exchange, str_eq_refl x.symbol, str_eq_refl x.timeframe) refl)

  pub look-upsert :
      (m : Market) (x : FeatureSnapshot) (t : ℕ) (rows : List FeatureSnapshot)
      → InMarket m x
      → look_in m (upsert x rows) t ≡ (if x.timestamp == t then some x else look_in m rows t)
  unfolding upsert
  look-upsert m x t [] h = rw (is_of_self m x h) refl
  look-upsert m x t (r ∷ rs) h =
      ground (arith, look-upsert m x t rs h, is_of_self m x h, ap (λ k. is_of k r) h)
