-- ===== src/Backtest/Series.antt =====
-- services/backtesting/memory_cache.py: what the caches of candles and of feature snapshots share, a list of
-- rows in the order of time beside the list of their times. A time is its number of microseconds, in UTC.
pub mod Slices
pub mod Latest
pub mod Ranges
use crypto_mas.Prelude.{
  ℕ, zero, suc, ◌-◌, Bool, true, false, Option, none, some, List, [], ◌∷◌, ltb, leb, ◌==◌,
  if◌then◌else◌, length, take, drop, max,
}

-- Python's `bisect`, on a list in ascending order: how many of its items are less than `x`, and how many
-- are not greater.
abbrev pub bisect_left : List ℕ → ℕ → ℕ
bisect_left [] x = 0
bisect_left (y ∷ ys) x = let rest = bisect_left ys x in if ltb y x then suc rest else 0

abbrev pub bisect_right : List ℕ → ℕ → ℕ
bisect_right [] x = 0
bisect_right (y ∷ ys) x = let rest = bisect_right ys x in if leb y x then suc rest else 0

module _ {ℓ} {A : Type ℓ} where
  abbrev pub get_elem? : List A → ℕ → Option A
  get_elem? [] i = none
  get_elem? (x ∷ xs) zero = some x
  get_elem? (x ∷ xs) (suc i) = get_elem? xs i

  -- `xs[i] = x`
  abbrev pub set : List A → ℕ → A → List A
  set [] i x = []
  set (y ∷ ys) zero x = x ∷ ys
  set (y ∷ ys) (suc i) x = y ∷ set ys i x

  -- `xs.insert(i, x)`
  abbrev pub insert_at : List A → ℕ → A → List A
  insert_at ys zero x = x ∷ ys
  insert_at [] (suc i) x = x ∷ []
  insert_at (y ∷ ys) (suc i) x = y ∷ insert_at ys i x

  -- `xs[start:end]`
  abbrev pub slice : List A → ℕ → ℕ → List A
  slice xs start end = take (end - start) (drop start xs)

  -- `xs[i - 1]`, or nothing where `i` is zero.
  abbrev pub entry_before : ℕ → List A → Option A
  entry_before zero xs = none
  entry_before (suc i) xs = get_elem? xs i

pub record Series {ℓ} (A : Type ℓ) : Type ℓ where
  pub times : List ℕ
  pub rows : List A

abbrev pub right_end : List ℕ → Option ℕ → ℕ
right_end times none = length times
right_end times (some e) = bisect_right times e

abbrev pub left_end : List ℕ → Option ℕ → ℕ
left_end times none = 0
left_end times (some s) = bisect_left times s

-- `max(start_idx, end_idx - limit)`, where there is a limit.
abbrev pub limited : Option ℕ → ℕ → ℕ → ℕ
limited none start end = start
limited (some limit) start end = max start (end - limit)

-- `times[i] == t`, where there is such an item.
abbrev pub is_at : ℕ → Option ℕ → Bool
is_at t none = false
is_at t (some u) = u == t

module _ {ℓ} {A : Type ℓ} where
  -- The body of `_insert_sorted`, for a row of time `t`.
  unfoldable pub insert_sorted : ℕ → A → Series A → Series A
  insert_sorted t x s =
      let i = bisect_left s.times t in
      if is_at t (get_elem? s.times i)
      then record s { rows = set s.rows i x }
      else record { times = insert_at s.times i t; rows = insert_at s.rows i x }

  -- The end of both methods `list_by_symbol`.
  unfoldable pub between : Series A → Option ℕ → Option ℕ → Option ℕ → List A
  between s start_time end_time limit =
      let end = right_end s.times end_time in
      let start = left_end s.times start_time in slice s.rows (limited limit start end) end
