-- ===== src/Backtest/Candles/Sorting.antt =====
-- services/backtesting/memory_cache.py: a list in order of time, beside the sort of another list.
use crypto_mas.Backtest.Series.Ranges.{Ordered}
use crypto_mas.Backtest.Candles.{insert_by_time, sort_by_time}
use crypto_mas.Prelude.{
  if◌then◌else◌, subst, ==_iff, sym, ltb, some, ◌∙◌, inr, inl, refl, ◌==◌, arith, Bool-cases, [],
  ◌<◌, none, All, All-map_of, ◌≡◌, ◌∷◌, ◌≤◌, List, ℕ,
}
use crypto_mas.Backtest.Series.Slices.{find_at, Ascending, put_row, put_row-Ascending}

module _ {A : Type 0} (time : A → ℕ) where
  -- No two rows have one time.
  abbrev pub Distinct : List A → Type 0
  Distinct [] = Unit
  Distinct (x ∷ xs) = (find_at time (time x) xs ≡ none) × Distinct xs

  find_at-insert :
      (t : ℕ) (x : A) (ys : List A)
      → find_at time t (insert_by_time time x ys)
        ≡ (if time x == t then some x else find_at time t ys)
  unfolding insert_by_time
  find_at-insert t x [] = refl
  find_at-insert t x (y ∷ ys) = ground (arith, find_at-insert t x ys)

  pub find_at-sort :
      (t : ℕ) (xs : List A) → find_at time t (sort_by_time time xs) ≡ find_at time t xs
  unfolding sort_by_time
  find_at-sort t [] = refl
  find_at-sort t (x ∷ xs) = find_at-insert t x (sort_by_time time xs) ∙ rw (find_at-sort t xs) refl

  insert-eq-put_row :
      (x : A) (ys : List A)
      → find_at time (time x) ys ≡ none
      → insert_by_time time x ys ≡ put_row time x ys
  unfolding insert_by_time
  insert-eq-put_row x [] h = refl
  insert-eq-put_row x (y ∷ ys) h = ground (arith, insert-eq-put_row x ys)

  pub sort-Ascending : (xs : List A) → Distinct xs → Ascending time (sort_by_time time xs)
  unfolding sort_by_time
  sort-Ascending [] h = tt
  sort-Ascending (x ∷ xs) h =
      rw (insert-eq-put_row x (sort_by_time time xs) (find_at-sort (time x) xs ∙ h.0))
        (put_row-Ascending time x (sort_by_time time xs) (sort-Ascending xs h.1))

  find_at_early : (t : ℕ) (xs : List A) → All (λ y. t < time y) xs → find_at time t xs ≡ none
  find_at_early t [] h = refl
  find_at_early t (x ∷ xs) h = ground (arith, find_at_early t xs h.1, h.0)

  find_at_first : (x : A) (xs : List A) → find_at time (time x) (x ∷ xs) ≡ some x
  find_at_first x xs = ground arith

  -- The first row of the one is not before that of the other.
  not_before :
      (x y : A) (xs ys : List A)
      → Ascending time (y ∷ ys)
      → find_at time (time x) (x ∷ xs) ≡ find_at time (time x) (y ∷ ys)
      → time y ≤ time x
  not_before x y xs ys k same = elim (Bool-cases (ltb (time x) (time y))) [
    | inr ge ↦ ground arith
    | inl lt ↦
        let l : time x < time y = ground arith in
        let absent = find_at_early (time x) (y ∷ ys) (
          l,
          All-map_of (λ z. time y < time z) (λ z. time x < time z) ys (λ z m. omega arith) k.0,
        ) in
        absurd (cc (sym (find_at_first x xs) ∙ same ∙ absent))
  ]

  pub Ascending-Ordered : (xs : List A) → Ascending time xs → Ordered time xs
  Ascending-Ordered [] h = tt
  Ascending-Ordered (x ∷ xs) h = (
    All-map_of (λ y. time x < time y) (λ y. time x ≤ time y) xs (λ y k. omega arith) h.0,
    Ascending-Ordered xs h.1,
  )

  -- Two lists in order that have the same row at each time are one.
  pub Ascending-unique :
      (xs ys : List A)
      → Ascending time xs
      → Ascending time ys
      → ((t : ℕ) → find_at time t xs ≡ find_at time t ys)
      → xs ≡ ys
  Ascending-unique [] [] h k same = refl
  Ascending-unique [] (y ∷ ys) h k same = absurd (cc (same (time y) ∙ find_at_first y ys))
  Ascending-unique (x ∷ xs) [] h k same = absurd (cc (sym (same (time x)) ∙ find_at_first x xs))
  Ascending-unique (x ∷ xs) (y ∷ ys) h k same =
      let e : time x ≡ time y = omega (
        arith,
        not_before x y xs ys k (same (time x)),
        not_before y x ys xs h (sym (same (time y))),
      ) in
      let first : x ≡ y = ground (arith, same (time x), e) in
      let rest : xs ≡ ys = Ascending-unique xs ys h.1 k.1 (λ t. later t (same t) e) in
      cc (first, rest)
    where
      later :
          (t : ℕ)
          → find_at time t (x ∷ xs) ≡ find_at time t (y ∷ ys)
          → time x ≡ time y
          → find_at time t xs ≡ find_at time t ys
      later t s e = elim (Bool-cases (time x == t)) [
        | inr q ↦ ground (arith, s, q, e)
        | inl q ↦
            let at : time x ≡ t = (==_iff (time x) t).0 q in
            find_at_early t xs (subst (λ u. All (λ z. u < time z) xs) at h.0)
            ∙ sym (find_at_early t ys (subst (λ u. All (λ z. u < time z) ys) (sym e ∙ at) k.0))
      ]
