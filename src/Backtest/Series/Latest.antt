-- ===== src/Backtest/Series/Latest.antt =====
-- services/backtesting/memory_cache.py: the latest row up to a time, found by binary search and found in a table.
use crypto_mas.Prelude.{
  subst, ap, ◌∙◌, sym, ltb→lt, ℕ, zero, suc, ◌<◌, ◌≤◌, ◌≡◌, refl, Bool, true, false, Option, none,
  some, List, [], ◌∷◌, ltb, leb, ◌==◌, if◌then◌else◌, length, arith, All, map, inl, inr, Bool-cases,
}
use crypto_mas.Backtest.Series.{right_end, get_elem?, entry_before}
use crypto_mas.Backtest.Series.Slices.{Ascending, find_at}

-- A time is not after the end, if there is one.
abbrev pub within : Option ℕ → ℕ → Bool
within none t = true
within (some e) t = leb t e

module _ {A : Type 0} (time : A → ℕ) where
  -- What the latest row up to an end is, whatever holds the rows: `look` gives the row of a time.
  abbrev pub IsLatest : (ℕ → Option A) → Option ℕ → Option A → Type 0
  IsLatest look end none = (t : ℕ) → within end t ≡ true → look t ≡ none
  IsLatest look end (some r) =
      (within end (time r) ≡ true)
      × (look (time r) ≡ some r)
      × ((t : ℕ) → within end t ≡ true → time r < t → look t ≡ none)

  -- There is one latest row at most.
  pub IsLatest-unique :
      (look : ℕ → Option A) (end : Option ℕ) (a b : Option A)
      → IsLatest look end a
      → IsLatest look end b
      → a ≡ b
  IsLatest-unique look end none none h k = refl
  IsLatest-unique look end none (some r) h k = absurd (cc (h (time r) k.0, k.1))
  IsLatest-unique look end (some r) none h k = absurd (cc (k (time r) h.0, h.1))
  IsLatest-unique look end (some r) (some q) h k = elim (Bool-cases (ltb (time r) (time q))) [
    | inl lt ↦ absurd (cc (h.2 (time q) k.0 (ltb→lt _ _ lt), k.1))
    | inr ge ↦ elim (Bool-cases (ltb (time q) (time r))) [
      | inl lt ↦ absurd (cc (k.2 (time r) h.0 (ltb→lt _ _ lt), h.1))
      | inr le ↦ (let e : time r ≡ time q = ground arith in sym h.1 ∙ ap look e ∙ k.1)
    ]
  ]

  -- The latest row of two ways to look that agree up to the end.
  pub IsLatest-look :
      (look look' : ℕ → Option A) (end : Option ℕ) (o : Option A)
      → ((t : ℕ) → within end t ≡ true → look t ≡ look' t)
      → IsLatest look end o
      → IsLatest look' end o
  IsLatest-look look look' end none same h = λ t w. sym (same t w) ∙ h t w
  IsLatest-look look look' end (some r) same h =
      (h.0, sym (same (time r) h.0) ∙ h.1, λ t w lt. sym (same t w) ∙ h.2 t w lt)

  abbrev or_else : Option A → A → Option A
  or_else none x = some x
  or_else (some y) x = some y

  -- The latest row of an ascending list, by structural recursion.
  abbrev up_to : Option ℕ → List A → Option A
  up_to end [] = none
  up_to end (x ∷ xs) =
      let rest = up_to end xs in if within end (time x) then or_else rest x else none

  find_at_before :
      (t b : ℕ) (xs : List A) → All (λ y. b < time y) xs → t ≤ b → find_at time t xs ≡ none
  find_at_before t b [] h k = refl
  find_at_before t b (x ∷ xs) h k = ground (arith, find_at_before t b xs h.1 k, h.0)

  find_at_All {κ} :
      (P : A → Type κ) (t : ℕ) (xs : List A) {r : A} → All P xs → find_at time t xs ≡ some r → P r
  find_at_All P t [] {r} h e = absurd (cc)
  find_at_All P t (x ∷ xs) {r} h e = elim (Bool-cases (time x == t)) [
    | inl q ↦ let e' : some x ≡ some r = rw q at e in let same : x ≡ r = cc in subst P same h.0
    | inr q ↦ find_at_All P t xs h.1 (rw q at e)
  ]

  IsLatest-or_else :
      (end : Option ℕ) (x : A) (xs : List A)
      → Ascending time (x ∷ xs)
      → within end (time x) ≡ true
      → (o : Option A) → IsLatest (λ t. find_at time t xs) end o
      → IsLatest (λ t. find_at time t (x ∷ xs)) end (or_else o x)
  IsLatest-or_else end x xs asc w none h = (w, ground arith, λ t wt lt. ground (arith, h t wt))
  IsLatest-or_else end x xs asc w (some r) h =
      let lt : time x < time r = find_at_All (λ y. time x < time y) (time r) xs asc.0 h.1 in
      (h.0, ground (arith, h.1), λ t wt gt. ground (arith, h.2 t wt gt))

  within_lt : (end : Option ℕ) (a b : ℕ) → within end a ≡ false → within end b ≡ true → b < a
  within_lt none a b h k = absurd (cc)
  within_lt (some e) a b h k = ground arith

  pub up_to-IsLatest :
      (end : Option ℕ) (xs : List A)
      → Ascending time xs
      → IsLatest (λ t. find_at time t xs) end (up_to end xs)
  up_to-IsLatest end [] asc = λ t w. refl
  up_to-IsLatest end (x ∷ xs) asc = elim (Bool-cases (within end (time x))) [
    | inl w ↦ rw w (IsLatest-or_else end x xs asc w (up_to end xs) (up_to-IsLatest end xs asc.1))
    | inr w ↦
        rw w (λ t wt.
          ground (arith, find_at_before t (time x) xs asc.0, within_lt end (time x) t w wt))
  ]

  -- How many rows stand before the end, by structural recursion.
  abbrev pub up_to_count : Option ℕ → List A → ℕ
  up_to_count end [] = 0
  up_to_count end (x ∷ xs) =
      let rest = up_to_count end xs in if within end (time x) then suc rest else 0

  pub right_end-eq-count :
      (end : Option ℕ) (xs : List A) → right_end (map time xs) end ≡ up_to_count end xs
  right_end-eq-count none [] = refl
  right_end-eq-count none (x ∷ xs) = ap suc (right_end-eq-count none xs)
  right_end-eq-count (some e) [] = refl
  right_end-eq-count (some e) (x ∷ xs) = rw (right_end-eq-count (some e) xs)

  pub count-le-length : (end : Option ℕ) (xs : List A) → up_to_count end xs ≤ length xs
  count-le-length end [] = omega arith
  count-le-length end (x ∷ xs) = ground (arith, count-le-length end xs)

  get_elem?_within : (i : ℕ) (xs : List A) → i < length xs → (r : A) × (get_elem? xs i ≡ some r)
  get_elem?_within i [] h = absurd (omega arith)
  get_elem?_within zero (x ∷ xs) h = (x, refl)
  get_elem?_within (suc i) (x ∷ xs) h = get_elem?_within i xs (omega arith)

  entry_cons :
      (c : ℕ) (x : A) (xs : List A)
      → c ≤ length xs
      → get_elem? (x ∷ xs) c ≡ or_else (entry_before c xs) x
  entry_cons zero x xs h = refl
  entry_cons (suc c) x xs h = ground (arith, (get_elem?_within c xs (omega arith)).1)

  entry_before-eq-up_to :
      (end : Option ℕ) (xs : List A) → entry_before (up_to_count end xs) xs ≡ up_to end xs
  entry_before-eq-up_to end [] = refl
  entry_before-eq-up_to end (x ∷ xs) = elim (Bool-cases (within end (time x))) [
    | inl w ↦ rw w (
        entry_cons (up_to_count end xs) x xs (count-le-length end xs)
        ∙ ap (λ o. or_else o x) (entry_before-eq-up_to end xs))
    | inr w ↦ rw w refl
  ]

  -- The row that the binary search finds is the latest one up to the end.
  pub search-IsLatest :
      (end : Option ℕ) (xs : List A)
      → Ascending time xs
      → IsLatest (λ t. find_at time t xs) end (entry_before (right_end (map time xs) end) xs)
  search-IsLatest end xs asc =
      subst (λ o. IsLatest (λ t. find_at time t xs) end o)
        (sym
          (ap (λ c. entry_before c xs) (right_end-eq-count end xs) ∙ entry_before-eq-up_to end xs))
        (up_to-IsLatest end xs asc)
