-- ===== src/Prelude/Dict.antt =====
-- Python's dictionaries and sets of texts, as lists in the order of insertion.
pub mod Laws
use Prim.Native.Nat.{ℕ, suc}
use Prim.Native.String.{String}
use mathlib.Core.Bool.{Bool, true, false}
use mathlib.Core.Option.{Option, none, some}
use mathlib.Core.List.{List, [], ◌∷◌, map}
use crypto_mas.Prelude.Tests.{str_eq, if◌then◌else◌}
use crypto_mas.Prelude.Lists.{any}

-- `d[key] = value`
abbrev pub assign {ℓ} : {A : Type ℓ} → String → A → List (String × A) → List (String × A)
assign key value [] = (key, value) ∷ []
assign key value (entry ∷ rest) =
    let later = assign key value rest in
    if str_eq entry.0 key then (key, value) ∷ rest else entry ∷ later

-- `d.get(key)`
abbrev pub find {ℓ} : {A : Type ℓ} → String → List (String × A) → Option A
find key [] = none
find key (entry ∷ rest) =
    let later = find key rest in if str_eq entry.0 key then some entry.1 else later

-- `x in xs`
abbrev pub contains : String → List String → Bool
contains x xs = any (λ y. str_eq y x) xs

-- `key in d`
abbrev pub has {ℓ} : {A : Type ℓ} → String → List (String × A) → Bool
has key d = any (λ e. str_eq e.0 key) d

-- `d.update(entries)`, entry by entry.
abbrev pub update {ℓ} : {A : Type ℓ} → List (String × A) → List (String × A) → List (String × A)
update d [] = d
update d (e ∷ es) = update (assign e.0 e.1 d) es

-- `set(xs)`
abbrev pub to_set : List String → List String
to_set [] = []
to_set (x ∷ xs) = let rest = to_set xs in if contains x rest then rest else x ∷ rest

-- `s.remove(x)`, of a member.
abbrev pub remove : String → List String → List String
remove x [] = []
remove x (y ∷ ys) = let rest = remove x ys in if str_eq y x then ys else y ∷ rest
