-- ===== src/Prelude/Dict/Laws.antt =====
-- Membership in dictionaries and sets under assignment, update and removal.
use crypto_mas.Prelude.{ap, All-map_of, All}
use Prim.Native.Nat.{ℕ, suc, ◌<◌}
use Prim.Native.String.{String}
use mathlib.Core.Path.{◌≡◌, refl}
use mathlib.Core.Logic.{◌⊎◌, inl, inr}
use mathlib.Core.Bool.{Bool, true}
use mathlib.Core.List.{List, [], ◌∷◌, ◌++◌, map}
use mathlib.Core.Option.{some}
use native.Mathlib.Omega.{arith}
use text.Mathlib.TextEquality.{eq_iff}
use crypto_mas.Prelude.Tests.{str_eq, if◌then◌else◌, Bool-cases}
use crypto_mas.Prelude.Lists.{length, filter}
use crypto_mas.Prelude.Dict.{assign, find, contains, has, update, to_set, remove}

pub str_eq_refl : (s : String) → str_eq s s ≡ true
str_eq_refl s = (eq_iff s s).1 refl

module _ {ℓ} {A : Type ℓ} where
  pub has-assign_self : (k : String) (v : A) (d : List (String × A)) → has k (assign k v d) ≡ true
  has-assign_self k v [] = ground (arith, str_eq_refl k)
  has-assign_self k v (e ∷ es) = ground (arith, str_eq_refl k, has-assign_self k v es)

  pub find-assign : (k : String) (v : A) (d : List (String × A)) → find k (assign k v d) ≡ some v
  find-assign k v [] = ground (arith, str_eq_refl k)
  find-assign k v (e ∷ es) = ground (arith, str_eq_refl k, find-assign k v es)

  pub has-assign :
      (k j : String) (v : A) (d : List (String × A)) → has k d ≡ true → has k (assign j v d) ≡ true
  has-assign k j v [] h = cc
  has-assign k j v (e ∷ es) h = ground (arith, has-assign k j v es, eq_iff e.0 j)

  pub has-update :
      (k : String) (d es : List (String × A)) → has k d ≡ true → has k (update d es) ≡ true
  has-update k d [] h = h
  has-update k d (e ∷ es) h = has-update k (assign e.0 e.1 d) es (has-assign k e.0 e.1 d h)

  pub has-update_right :
      (k : String) (d es : List (String × A)) → has k es ≡ true → has k (update d es) ≡ true
  has-update_right k d [] h = cc
  has-update_right k d (e ∷ es) h = elim (Bool-cases (str_eq e.0 k)) [
    | inl q ↦
        has-update k (assign e.0 e.1 d) es (rw (← (eq_iff e.0 k).0 q) (has-assign_self e.0 e.1 d))
    | inr q ↦ has-update_right k (assign e.0 e.1 d) es (rw q at h)
  ]

  pub has-map {κ} :
      {B : Type κ} (f : String × A → B) (k : String) (d : List (String × A))
      → has k (map (λ e. (e.0, f e)) d) ≡ has k d
  has-map f k [] = refl
  has-map f k (e ∷ es) = rw (has-map f k es)

abbrev pub count : String → List String → ℕ
count t [] = 0
count t (x ∷ xs) = let rest = count t xs in if str_eq x t then suc rest else rest

pub contains_of_count : (t : String) (xs : List String) → 0 < count t xs → contains t xs ≡ true
contains_of_count t [] h = absurd (omega arith)
contains_of_count t (x ∷ xs) h = ground (arith, contains_of_count t xs)

pub contains-remove :
    (t w : String) (xs : List String)
    → contains t xs ≡ true
    → (str_eq w t ≡ true) ⊎ (contains t (remove w xs) ≡ true)
contains-remove t w [] h = cc
contains-remove t w (x ∷ xs) h = ground (arith, contains-remove t w xs, eq_iff x w)

pub length-remove :
    (w : String) (xs : List String) → contains w xs ≡ true → length xs ≡ suc (length (remove w xs))
length-remove w [] h = cc
length-remove w (x ∷ xs) h = ground (arith, length-remove w xs)

pub count-remove :
    (t w : String) (xs : List String)
    → contains w xs ≡ true
    → count t xs ≡ (if str_eq w t then suc (count t (remove w xs)) else count t (remove w xs))
count-remove t w [] h = cc
count-remove t w (x ∷ xs) h =
    ground (arith, count-remove t w xs, eq_iff x w, eq_iff x t, eq_iff w t)

pub contains-to_set : (t : String) (xs : List String) → contains t (to_set xs) ≡ contains t xs
contains-to_set t [] = refl
contains-to_set t (x ∷ xs) = ground (arith, contains-to_set t xs, eq_iff x t)

-- A member stays where a filter keeps it.
pub contains-filter :
    (t : String) (p : String → Bool) (xs : List String)
    → contains t xs ≡ true
    → p t ≡ true
    → contains t (filter p xs) ≡ true
contains-filter t p [] h k = cc
contains-filter t p (x ∷ xs) h k = elim (Bool-cases (str_eq x t)) [
  | inl q ↦ let e : x ≡ t = (eq_iff x t).0 q in rw (e, k, str_eq_refl t)
  | inr q ↦ ground (arith, contains-filter t p xs)
]

pub contains-filter_inv :
    (t : String) (p : String → Bool) (xs : List String)
    → contains t (filter p xs) ≡ true
    → (contains t xs ≡ true) × (p t ≡ true)
contains-filter_inv t p [] h = cc
contains-filter_inv t p (x ∷ xs) h = elim (Bool-cases (str_eq x t)) [
  | inl q ↦ ground (arith, contains-filter_inv t p xs, eq_iff x t, ap p ((eq_iff x t).0 q))
  | inr q ↦ ground (arith, contains-filter_inv t p xs)
]

pub All-contains : (xs : List String) → All (λ s. contains s xs ≡ true) xs
All-contains [] = tt
All-contains (x ∷ xs) = (
  rw (str_eq_refl x),
  All-map_of (λ s. contains s xs ≡ true) (λ s. contains s (x ∷ xs) ≡ true) xs (λ s h. ground arith)
      (All-contains xs),
)

pub All-remove {κ} :
    (P : String → Type κ) (w : String) (xs : List String) → All P xs → All P (remove w xs)
All-remove P w [] h = tt
All-remove P w (x ∷ xs) h = elim (Bool-cases (str_eq x w)) [
  | inl q ↦ rw q h.1
  | inr q ↦ rw q (h.0, All-remove P w xs h.1)
]

pub contains-append :
    (t : String) (xs ys : List String) → contains t xs ≡ true → contains t (xs ++ ys) ≡ true
contains-append t [] ys h = cc
contains-append t (x ∷ xs) ys h = ground (arith, contains-append t xs ys)
