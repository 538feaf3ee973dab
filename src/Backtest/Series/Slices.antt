-- ===== src/Backtest/Series/Slices.antt =====
-- services/backtesting/memory_cache.py: what the binary searches find.
use crypto_mas.Prelude.{
  All-map_of, subst, ==_iff, ap, ltb→lt, ◌∙◌, inr, inl, Bool-cases, ℕ, ◌<◌, ◌≡◌, refl, true, false,
  Option, none, some, List, [], ◌∷◌, ltb, ◌==◌, if◌then◌else◌, arith, All, map,
}
use crypto_mas.Backtest.Series.{is_at, bisect_left, get_elem?, Series, insert_sorted}

module _ {A : Type 0} (time : A → ℕ) where
  -- Each row comes before the later ones.
  abbrev pub Ascending : List A → Type 0
  Ascending [] = Unit
  Ascending (x ∷ xs) = All (λ y. time x < time y) xs × Ascending xs

  abbrev pub series_of : List A → Series A
  series_of xs = record { times = map time xs; rows = xs }

  -- The row of a time.
  abbrev pub find_at : ℕ → List A → Option A
  find_at t [] = none
  find_at t (x ∷ xs) = let rest = find_at t xs in if time x == t then some x else rest

  -- A row in its place, or in the place of the row of its time.
  abbrev pub put_row : A → List A → List A
  put_row x [] = x ∷ []
  put_row x (y ∷ ys) =
      let rest = put_row x ys in
      if ltb (time y) (time x) then y ∷ rest else if time y == time x then x ∷ ys else x ∷ y ∷ ys

  push : A → Series A → Series A
  push y s = record { times = time y ∷ s.times; rows = y ∷ s.rows }

  insert_sorted-push :
      (x y : A) (ys : List A)
      → ltb (time y) (time x) ≡ true
      → insert_sorted (time x) x (series_of (y ∷ ys))
        ≡ push y (insert_sorted (time x) x (series_of ys))
  unfolding insert_sorted push
  insert_sorted-push x y ys h =
      let times = map time ys in
      elim (Bool-cases (is_at (time x) (get_elem? times (bisect_left times (time x))))) [
        | inl q ↦ rw (h, q, insert_sorted)
        | inr q ↦ rw (h, q, insert_sorted)
      ]

  insert_sorted-front :
      (x y : A) (ys : List A)
      → ltb (time y) (time x) ≡ false
      → insert_sorted (time x) x (series_of (y ∷ ys)) ≡ series_of (put_row x (y ∷ ys))
  unfolding insert_sorted
  insert_sorted-front x y ys h = elim (Bool-cases (time y == time x)) [
    | inl q ↦ rw (h, q, insert_sorted) (rw ((==_iff (time y) (time x)).0 q) refl)
    | inr q ↦ rw (h, q, insert_sorted)
  ]

  pub insert_sorted-eq-put_row :
      (x : A) (ys : List A) → insert_sorted (time x) x (series_of ys) ≡ series_of (put_row x ys)
  unfolding insert_sorted push
  insert_sorted-eq-put_row x [] = refl
  insert_sorted-eq-put_row x (y ∷ ys) = elim (Bool-cases (ltb (time y) (time x))) [
    | inl h ↦
        insert_sorted-push x y ys h ∙ ap (push y) (insert_sorted-eq-put_row x ys) ∙ rw (h, push)
    | inr h ↦ insert_sorted-front x y ys h
  ]

  pub find_at-put_row :
      (t : ℕ) (x : A) (ys : List A)
      → find_at t (put_row x ys) ≡ (if time x == t then some x else find_at t ys)
  find_at-put_row t x [] = refl
  find_at-put_row t x (y ∷ ys) = ground (arith, find_at-put_row t x ys)

  put_row-All :
      (b : ℕ) (x : A) (ys : List A)
      → b < time x
      → All (λ y. b < time y) ys
      → All (λ y. b < time y) (put_row x ys)
  put_row-All b x [] h hs = (h, tt)
  put_row-All b x (y ∷ ys) h hs = ground (arith, put_row-All b x ys h hs.1)

  pub put_row-Ascending : (x : A) (ys : List A) → Ascending ys → Ascending (put_row x ys)
  put_row-Ascending x [] h = (tt, tt)
  put_row-Ascending x (y ∷ ys) h = elim (Bool-cases (ltb (time y) (time x))) [
    | inl lt ↦ rw lt (put_row-All (time y) x ys (ltb→lt _ _ lt) h.0, put_row-Ascending x ys h.1)
    | inr ge ↦ elim (Bool-cases (time y == time x)) [
      | inl same ↦
          (let e : time y ≡ time x = (==_iff (time y) (time x)).0 same in
            rw (ge, same) (subst (λ t. All (λ z. t < time z) ys) e h.0, h.1))
      | inr other ↦
          (let lt : time x < time y = ground arith in
            rw (ge, other)
              (
                (
                  lt,
                  All-map_of (λ z. time y < time z) (λ z. time x < time z) ys (λ z k. omega arith)
                      h.0,
                ),
                h,
              ))
    ]
  ]
