-- ===== src/Prelude/Lists.antt =====
-- Lists measured by native numbers, and the predicates and filters over them that the parts share.
use Prim.Native.Nat.{ℕ, zero, suc, ◌+◌, min}
use mathlib.Core.Path.{◌≡◌, refl, ap}
use mathlib.Core.Bool.{Bool, true, false}
use mathlib.Core.List.{List, [], ◌∷◌, ◌++◌, map}
use native.Mathlib.Omega.{arith}
use mathlib.Core.Logic.{◌⊎◌, inl, inr}
use crypto_mas.Prelude.Tests.{if◌then◌else◌, Bool-cases}

module _ {ℓ} {A : Type ℓ} where
  abbrev pub length : List A → ℕ
  length [] = 0
  length (x ∷ xs) = suc (length xs)

  abbrev pub take : ℕ → List A → List A
  take zero xs = []
  take (suc n) [] = []
  take (suc n) (x ∷ xs) = x ∷ take n xs

  abbrev pub drop : ℕ → List A → List A
  drop zero xs = xs
  drop (suc n) [] = []
  drop (suc n) (x ∷ xs) = drop n xs

  -- The rows for which a test holds, in their order (a `where` clause).
  abbrev pub filter : (A → Bool) → List A → List A
  filter p [] = []
  filter p (x ∷ xs) = let rest = filter p xs in if p x then x ∷ rest else rest

  abbrev pub any : (A → Bool) → List A → Bool
  any p [] = false
  any p (x ∷ xs) = let rest = any p xs in if p x then true else rest

  abbrev pub All {κ} : (A → Type κ) → List A → Type κ
  All P [] = Unit
  All P (x ∷ xs) = P x × All P xs

  pub All-take {κ} : (P : A → Type κ) (k : ℕ) (xs : List A) → All P xs → All P (take k xs)
  All-take P zero xs h = tt
  All-take P (suc k) [] h = tt
  All-take P (suc k) (x ∷ xs) h = (h.0, All-take P k xs h.1)

  pub All-drop {κ} : (P : A → Type κ) (k : ℕ) (xs : List A) → All P xs → All P (drop k xs)
  All-drop P zero xs h = h
  All-drop P (suc k) [] h = tt
  All-drop P (suc k) (x ∷ xs) h = All-drop P k xs h.1

  pub take-append : (xs ys : List A) → take (length xs) (xs ++ ys) ≡ xs
  take-append [] ys = refl
  take-append (x ∷ xs) ys = rw (take-append xs ys)

  pub drop-append : (xs ys : List A) → drop (length xs) (xs ++ ys) ≡ ys
  drop-append [] ys = refl
  drop-append (x ∷ xs) ys = drop-append xs ys

  pub length-append : (xs ys : List A) → length (xs ++ ys) ≡ length xs + length ys
  length-append [] ys = omega arith
  length-append (x ∷ xs) ys = omega (arith, length-append xs ys)

  pub length-take : (n : ℕ) (xs : List A) → length (take n xs) ≡ min n (length xs)
  length-take zero xs = omega arith
  length-take (suc n) [] = omega arith
  length-take (suc n) (x ∷ xs) = omega (arith, length-take n xs)

  pub All-append {κ} : (P : A → Type κ) (xs ys : List A) → All P xs → All P ys → All P (xs ++ ys)
  All-append P [] ys hx hy = hy
  All-append P (x ∷ xs) ys hx hy = (hx.0, All-append P xs ys hx.1 hy)

  pub All-map_of {κ μ} :
      (P : A → Type κ) (Q : A → Type μ) (xs : List A) → ((x : A) → P x → Q x) → All P xs → All Q xs
  All-map_of P Q [] f h = tt
  All-map_of P Q (x ∷ xs) f h = (f x h.0, All-map_of P Q xs f h.1)

module _ {ℓ} {A : Type ℓ} where
  pub filter-append :
      (p : A → Bool) (xs ys : List A) → filter p (xs ++ ys) ≡ filter p xs ++ filter p ys
  filter-append p [] ys = refl
  filter-append p (x ∷ xs) ys = ground (arith, filter-append p xs ys)

  pub All-map {κ μ} :
      {B : Type κ} (P : B → Type μ) (f : A → B) (xs : List A)
      → All (λ x. P (f x)) xs
      → All P (map f xs)
  All-map P f [] h = tt
  All-map P f (x ∷ xs) h = (h.0, All-map P f xs h.1)

  pub All-map_inv {κ μ} :
      {B : Type κ} (P : B → Type μ) (f : A → B) (xs : List A)
      → All P (map f xs)
      → All (λ x. P (f x)) xs
  All-map_inv P f [] h = tt
  All-map_inv P f (x ∷ xs) h = (h.0, All-map_inv P f xs h.1)

  pub map_same : (xs : List A) → map (λ x. x) xs ≡ xs
  map_same [] = refl
  map_same (x ∷ xs) = ap (λ r. x ∷ r) (map_same xs)

  pub map-map {κ μ} :
      {B : Type κ} {C : Type μ} (g : B → C) (f : A → B) (xs : List A)
      → map g (map f xs) ≡ map (λ x. g (f x)) xs
  map-map g f [] = refl
  map-map g f (x ∷ xs) = ap (λ r. g (f x) ∷ r) (map-map g f xs)

  pub map-append {κ} :
      {B : Type κ} (f : A → B) (xs ys : List A) → map f (xs ++ ys) ≡ map f xs ++ map f ys
  map-append f [] ys = refl
  map-append f (x ∷ xs) ys = ap (λ r. f x ∷ r) (map-append f xs ys)

  pub length-map {κ} : {B : Type κ} (f : A → B) (xs : List A) → length (map f xs) ≡ length xs
  length-map f [] = refl
  length-map f (x ∷ xs) = ap suc (length-map f xs)

  pub filter-All : (p : A → Bool) (xs : List A) → All (λ x. p x ≡ true) (filter p xs)
  filter-All p [] = tt
  filter-All p (x ∷ xs) = ground (arith, filter-All p xs)

  pub All-filter {κ} :
      (P : A → Type κ) (p : A → Bool) (xs : List A) → All P xs → All P (filter p xs)
  All-filter P p [] h = tt
  All-filter P p (x ∷ xs) h = elim (Bool-cases (p x)) [
    | inl e ↦ rw e (h.0, All-filter P p xs h.1)
    | inr e ↦ rw e (All-filter P p xs h.1)
  ]

  pub All-zip {κ μ} :
      (P : A → Type κ) (Q : A → Type μ) (xs : List A)
      → All P xs
      → All Q xs
      → All (λ x. P x × Q x) xs
  All-zip P Q [] h k = tt
  All-zip P Q (x ∷ xs) h k = ((h.0, k.0), All-zip P Q xs h.1 k.1)

-- An item of the list.
abbrev pub Among : {A : Type 0} → A → List A → Type 0
Among x [] = ⊥
Among x (y ∷ ys) = (x ≡ y) ⊎ Among x ys

pub All_of_among {κ} :
    {A : Type 0} (P : A → Type κ) (xs : List A) → ((x : A) → Among x xs → P x) → All P xs
All_of_among P [] h = tt
All_of_among P (x ∷ xs) h = (h x (inl refl), All_of_among P xs (λ y m. h y (inr m)))

pub append-nil_inv : {A : Type 0} (xs ys : List A) → xs ++ ys ≡ [] → (xs ≡ []) × (ys ≡ [])
append-nil_inv [] ys h = (refl, h)
append-nil_inv (x ∷ xs) ys h = cc

pub length-zero : {A : Type 0} (xs : List A) → length xs ≡ 0 → xs ≡ []
length-zero [] h = refl
length-zero (x ∷ xs) h = absurd (omega arith)
