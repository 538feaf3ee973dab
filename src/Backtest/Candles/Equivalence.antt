-- ===== src/Backtest/Candles/Equivalence.antt =====
-- services/backtesting/memory_cache.py: the cache of candles beside the table.
use mathlib.Core.Path.{fun_ext}
use crypto_mas.Prelude.Dict.{assign, find}
use crypto_mas.Prelude.Dict.Laws.{find-assign}
use crypto_mas.Prelude.{
  All-filter, ◌∙◌, ℕ, ◌≤◌, ◌≡◌, refl, ap, Bool, true, false, ◌&&◌, Option, none, some, List, [],
  ◌∷◌, ltb, if◌then◌else◌, filter, arith, All, Bool-cases, ◌⊎◌, inl, inr, All-map_of,
}
use crypto_mas.Numbers.{Numerics}
use crypto_mas.Backtest.Series.{between}
use crypto_mas.Backtest.Series.Ranges.{in_range, last_of, Ordered, between-eq-filter}
use crypto_mas.Backtest.Snapshots.{Market, key}
use crypto_mas.Backtest.Candles.{
  insert_by_time, sort_by_time, Candle, CandleCache, is_candle_of, open_time_of, select_candles,
  load, ensure, list_candles,
}

module _ {A : Type 0} (time : A → ℕ) where
  insert_All :
      (b : ℕ) (x : A) (ys : List A)
      → b ≤ time x
      → All (λ y. b ≤ time y) ys
      → All (λ y. b ≤ time y) (insert_by_time time x ys)
  unfolding insert_by_time
  insert_All b x [] h hs = (h, tt)
  insert_All b x (y ∷ ys) h hs = ground (arith, insert_All b x ys h hs.1)

  insert-Ordered : (x : A) (ys : List A) → Ordered time ys → Ordered time (insert_by_time time x ys)
  unfolding insert_by_time
  insert-Ordered x [] h = (tt, tt)
  insert-Ordered x (y ∷ ys) h = elim (Bool-cases (ltb (time y) (time x))) [
    | inl lt ↦ rw lt (insert_All (time y) x ys (ground arith) h.0, insert-Ordered x ys h.1)
    | inr ge ↦
        let le : time x ≤ time y = ground arith in
        rw ge (
          (
            le,
            All-map_of (λ z. time y ≤ time z) (λ z. time x ≤ time z) ys (λ z k. omega arith) h.0,
          ),
          h,
        )
  ]

  pub sort-Ordered : (xs : List A) → Ordered time (sort_by_time time xs)
  unfolding sort_by_time
  sort-Ordered [] = tt
  sort-Ordered (x ∷ xs) = insert-Ordered x (sort_by_time time xs) (sort-Ordered xs)

  insert_front :
      (x : A) (ys : List A) → All (λ y. time x ≤ time y) ys → insert_by_time time x ys ≡ x ∷ ys
  unfolding insert_by_time
  insert_front x [] h = refl
  insert_front x (y ∷ ys) h = ground (arith, h.0)

  pub sort_sorted : (xs : List A) → Ordered time xs → sort_by_time time xs ≡ xs
  unfolding sort_by_time
  sort_sorted [] h = refl
  sort_sorted (x ∷ xs) h = rw (sort_sorted xs h.1) (insert_front x xs h.0)

  filter_le :
      (p : A → Bool) (b : ℕ) (xs : List A)
      → All (λ y. b ≤ time y) xs
      → All (λ y. b ≤ time y) (filter p xs)
  filter_le p b xs h = All-filter (λ y. b ≤ time y) p xs h

  filter-insert :
      (p : A → Bool) (x : A) (ys : List A)
      → Ordered time ys
      → filter p (insert_by_time time x ys)
        ≡ (if p x then insert_by_time time x (filter p ys) else filter p ys)
  unfolding insert_by_time
  filter-insert p x [] h = refl
  filter-insert p x (y ∷ ys) h = elim (Bool-cases (ltb (time y) (time x))) [
    | inl lt ↦ ground (arith, filter-insert p x ys h.1)
    | inr ge ↦
        let le : time x ≤ time y = ground arith in
        let later =
          All-map_of (λ z. time y ≤ time z) (λ z. time x ≤ time z) ys (λ z k. omega arith) h.0 in
        let front =
          insert_front x (filter p (y ∷ ys)) (filter_le p (time x) (y ∷ ys) (le, later)) in
        rw (ge, front) refl
  ]

  pub filter-sort :
      (p : A → Bool) (xs : List A)
      → filter p (sort_by_time time xs) ≡ sort_by_time time (filter p xs)
  unfolding sort_by_time
  filter-sort p [] = refl
  filter-sort p (x ∷ xs) =
      filter-insert p x (sort_by_time time xs) (sort-Ordered xs)
      ∙ rw (filter-sort p xs) (elim (Bool-cases (p x)) [ inl e ↦ rw e refl | inr e ↦ rw e refl ])

  pub filter-filter :
      (p q : A → Bool) (xs : List A) → filter q (filter p xs) ≡ filter (λ x. p x && q x) xs
  filter-filter p q [] = refl
  filter-filter p q (x ∷ xs) = ground (arith, filter-filter p q xs)

module _ ⦃n : Numerics⦄ where
  -- What the cache holds of the market, if it holds anything, was loaded from the table.
  abbrev pub Loaded : Market → CandleCache → List Candle → Type 0
  Loaded m cache rows = (find (key m) cache ≡ none) ⊎ (find (key m) cache ≡ some (load m rows))

  drop_true : (a b : Bool) → ((a && true) && b) ≡ (a && b)
  drop_true true b = refl
  drop_true false b = refl

  between-load :
      (m : Market) (start end limit : Option ℕ) (rows : List Candle)
      → between (load m rows) start end limit ≡ select_candles m start end limit rows
  unfolding load select_candles
  between-load m start end limit rows =
      let all = λ (c : Candle). is_candle_of m c && in_range open_time_of none none c in
      let range = in_range open_time_of start end in
      let found = filter all rows in
      between-eq-filter open_time_of (sort_by_time open_time_of (sort_by_time open_time_of found))
        start end limit (sort-Ordered open_time_of (sort_by_time open_time_of found))
      ∙ ap (last_of limit) (
          ap (filter range) (
            sort_sorted open_time_of (sort_by_time open_time_of found)
              (sort-Ordered open_time_of found))
          ∙ filter-sort open_time_of range found
          ∙ ap (sort_by_time open_time_of) (
              filter-filter open_time_of all range rows
              ∙ ap (λ p. filter p rows) (fun_ext (λ c. drop_true (is_candle_of m c) (range c)))))

  ensure_new :
      (m : Market) (cache : CandleCache) (rows : List Candle)
      → find (key m) cache ≡ none
      → ensure m cache rows ≡ (load m rows, assign (key m) (load m rows) cache)
  unfolding ensure
  ensure_new m cache rows h = rw (h, ensure) refl

  ensure_loaded :
      (m : Market) (cache : CandleCache) (rows : List Candle)
      → find (key m) cache ≡ some (load m rows)
      → ensure m cache rows ≡ (load m rows, cache)
  unfolding ensure
  ensure_loaded m cache rows h = rw (h, ensure) refl

  -- While the table does not change: the cache answers `list_by_symbol` as the table does, for every
  -- start, end and limit, whether it has loaded the market before or not; and it keeps what it loaded.
  pub list_candles-eq-select :
      (m : Market) (start end limit : Option ℕ) (cache : CandleCache) (rows : List Candle)
      → Loaded m cache rows
      → ((list_candles m start end limit cache rows).0 ≡ select_candles m start end limit rows)
        × Loaded m (list_candles m start end limit cache rows).1 rows
  unfolding list_candles
  list_candles-eq-select m start end limit cache rows (inl h) =
      rw (ensure_new m cache rows h)
        (between-load m start end limit rows, inr (find-assign (key m) (load m rows) cache))
  list_candles-eq-select m start end limit cache rows (inr h) =
      rw (ensure_loaded m cache rows h) (between-load m start end limit rows, inr h)
