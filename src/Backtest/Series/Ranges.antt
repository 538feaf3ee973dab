-- ===== src/Backtest/Series/Ranges.antt =====
-- services/backtesting/memory_cache.py: the two binary searches of `list_by_symbol` beside a scan.
use crypto_mas.Prelude.{
  length-take, ◌∙◌, sym, ap, ℕ, zero, suc, ◌-◌, ◌+◌, ◌≤◌, ◌≡◌, refl, Bool, true, false, Option,
  none, some, List, [], ◌∷◌, ltb, leb, if◌then◌else◌, length, arith, All, map, inl, inr, Bool-cases,
  filter, take, drop, max, ◌&&◌,
}
use crypto_mas.Backtest.Series.{left_end, limited, slice, between}
use crypto_mas.Backtest.Series.Latest.{count-le-length, within, up_to_count, right_end-eq-count}

-- A time is not before the start, if there is one.
abbrev pub from : Option ℕ → ℕ → Bool
from none t = true
from (some s) t = leb s t

-- The last rows of a list, as many as a limit allows.
abbrev pub last_of {ℓ} : {A : Type ℓ} → Option ℕ → List A → List A
last_of none xs = xs
last_of (some k) xs = drop (length xs - k) xs

module _ {A : Type 0} where
  take_nil : (k : ℕ) → take {A = A} k [] ≡ []
  take_nil zero = refl
  take_nil (suc k) = refl

  pub drop_nil : (k : ℕ) → drop {A = A} k [] ≡ []
  drop_nil zero = refl
  drop_nil (suc k) = refl

  take_same : (i k : ℕ) (xs : List A) → i ≡ k → take i xs ≡ take k xs
  take_same i k xs e = rw e refl

  take_no : (i : ℕ) (xs : List A) → i ≡ 0 → take i xs ≡ []
  take_no i xs e = rw e refl

  drop-take : (j k : ℕ) (xs : List A) → drop j (take k xs) ≡ take (k - j) (drop j xs)
  drop-take zero k xs = take_same k (k - 0) xs (omega arith)
  drop-take (suc j) zero xs = sym (take_no (0 - suc j) (drop (suc j) xs) (omega arith))
  drop-take (suc j) (suc k) [] = sym (take_nil (suc k - suc j))
  drop-take (suc j) (suc k) (x ∷ xs) =
      drop-take j k xs ∙ take_same (k - j) (suc k - suc j) (drop j xs) (omega arith)

  drop-drop : (j k : ℕ) (xs : List A) → drop j (drop k xs) ≡ drop (k + j) xs
  drop-drop j zero xs = ap (λ i. drop i xs) (omega arith)
  drop-drop j (suc k) [] = drop_nil j ∙ sym (drop_nil (suc k + j))
  drop-drop j (suc k) (x ∷ xs) = drop-drop j k xs ∙ sym (ap (λ i. drop i (x ∷ xs)) (add_suc k j))
    where
      add_suc : (k j : ℕ) → suc k + j ≡ suc (k + j)
      add_suc k j = omega arith

  length-drop : (k : ℕ) (xs : List A) → length (drop k xs) ≡ length xs - k
  length-drop zero xs = omega arith
  length-drop (suc k) [] = omega arith
  length-drop (suc k) (x ∷ xs) = omega (arith, length-drop k xs)

  -- The slice whose start the limit moves is the end of the slice.
  slice-limited :
      (l r : ℕ) (limit : Option ℕ) (xs : List A)
      → r ≤ length xs
      → slice xs (limited limit l r) r ≡ last_of limit (slice xs l r)
  slice-limited l r none xs h = refl
  slice-limited l r (some k) xs h =
      let size : length (slice xs l r) ≡ r - l =
        omega (arith, length-take (r - l) (drop l xs), length-drop l xs) in
      let j = r - l - k in
      sym (
        ap (λ i. drop (i - k) (slice xs l r)) size
        ∙ drop-take j (r - l) (drop l xs)
        ∙ ap (take (r - l - j)) (drop-drop j l xs)
        ∙ same_start j refl)
    where
      same_start :
          (j : ℕ)
          → j ≡ r - l - k
          → take (r - l - j) (drop (l + j) xs) ≡ take (r - max l (r - k)) (drop (max l (r - k)) xs)
      same_start j e = elim (Bool-cases (ltb r l)) [
        | inl lt ↦
            take_no (r - l - j) (drop (l + j) xs) (ground arith)
            ∙ sym (take_no (r - max l (r - k)) (drop (max l (r - k)) xs) (ground arith))
        | inr ge ↦
            take_same (r - l - j) (r - max l (r - k)) (drop (l + j) xs) (ground arith)
            ∙ ap (λ i. take (r - max l (r - k)) (drop i xs)) (ground arith)
      ]

module _ {A : Type 0} (time : A → ℕ) where
  -- No row comes after a later one.
  abbrev pub Ordered : List A → Type 0
  Ordered [] = Unit
  Ordered (x ∷ xs) = All (λ y. time x ≤ time y) xs × Ordered xs

  abbrev pub in_range : Option ℕ → Option ℕ → A → Bool
  in_range start end x = from start (time x) && within end (time x)

  -- How many rows stand before the start, by structural recursion.
  abbrev skip_count : Option ℕ → List A → ℕ
  skip_count start [] = 0
  skip_count start (x ∷ xs) =
      let rest = skip_count start xs in if from start (time x) then 0 else suc rest

  left_end-eq-count :
      (start : Option ℕ) (xs : List A) → left_end (map time xs) start ≡ skip_count start xs
  left_end-eq-count none [] = refl
  left_end-eq-count none (x ∷ xs) = refl
  left_end-eq-count (some s) [] = refl
  left_end-eq-count (some s) (x ∷ xs) = ground (arith, left_end-eq-count (some s) xs)

  skip_count_none :
      (start : Option ℕ) (b : ℕ) (xs : List A)
      → from start b ≡ true
      → All (λ y. b ≤ time y) xs
      → skip_count start xs ≡ 0
  skip_count_none start b [] h k = refl
  skip_count_none none b (x ∷ xs) h k = refl
  skip_count_none (some s) b (x ∷ xs) h k = ground (arith, k.0)

  filter_past :
      (start end : Option ℕ) (b : ℕ) (xs : List A)
      → within end b ≡ false
      → All (λ y. b ≤ time y) xs
      → filter (in_range start end) xs ≡ []
  filter_past start end b [] h k = refl
  filter_past start none b (x ∷ xs) h k = absurd (cc)
  filter_past start (some e) b (x ∷ xs) h k =
      ground (arith, filter_past start (some e) b xs h k.1, k.0)

  no_row : (b : Bool) (x : A) → (if b && false then x ∷ [] else []) ≡ []
  no_row true x = refl
  no_row false x = refl

  range-eq-filter :
      (start end : Option ℕ) (xs : List A)
      → Ordered xs
      → slice xs (skip_count start xs) (up_to_count time end xs) ≡ filter (in_range start end) xs
  range-eq-filter start end [] h = refl
  range-eq-filter start end (x ∷ xs) h = elim (Bool-cases (within end (time x))) [
    | inr out ↦
        rw (out, filter_past start end (time x) xs out h.0)
          (take_no (0 - skip_count start (x ∷ xs)) _ (omega arith)
            ∙ sym (no_row (from start (time x)) x))
    | inl w ↦ elim (Bool-cases (from start (time x))) [
      | inl f ↦
          let none_before = skip_count_none start (time x) xs f h.0 in
          let r = up_to_count time end xs in
          rw (w, f)
            (take_same (suc r - 0) (suc r) (x ∷ xs) (omega arith)
              ∙ ap (λ ys. x ∷ ys)
                  (take_same r (r - 0) xs (omega arith)
                    ∙ sym (ap (λ i. slice xs i r) none_before)
                    ∙ range-eq-filter start end xs h.1))
      | inr before ↦
          rw (w, before)
            (take_same (suc (up_to_count time end xs) - suc (skip_count start xs))
                (up_to_count time end xs - skip_count start xs) (drop (skip_count start xs) xs)
                (omega arith)
              ∙ range-eq-filter start end xs h.1)
    ]
  ]

  -- The rows between two times, by binary search, are those of a scan; and with a limit, the last of
  -- them.
  pub between-eq-filter :
      (xs : List A) (start end limit : Option ℕ)
      → Ordered xs
      → between (record { times = map time xs; rows = xs }) start end limit
        ≡ last_of limit (filter (in_range start end) xs)
  unfolding between
  between-eq-filter xs start end limit h =
      let r = up_to_count time end xs in
      rw (left_end-eq-count start xs, right_end-eq-count time end xs)
        (slice-limited (skip_count start xs) r limit xs (count-le-length time end xs)
          ∙ ap (last_of limit) (range-eq-filter start end xs h))
