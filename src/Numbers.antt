-- ===== src/Numbers.antt =====
-- Python's `decimal.Decimal` and `float`, as the program uses them. The interpreter implements
-- both, so they are a parameter: the operations, and apart from them the laws that proofs use.
pub mod Fixed
use crypto_mas.Prelude.{
  none, some, false, ℕ, Bool, true, not, Option, ◌&&◌, ◌≡◌, ◌⊎◌, if◌then◌else◌,
}

-- A computation that may raise: `none` is the exception.
infixl 5 ◌>>=◌
abbrev pub ◌>>=◌ {ℓ κ} : {A : Type ℓ} {B : Type κ} → Option A → (A → Option B) → Option B
none >>= f = none
some a >>= f = f a

pub record Numerics : Type 1 where
  pub Decimal : Type 0
  pub Float : Type 0
  -- `lit m k` is the literal m * 10^-k: `lit 2 4` is Decimal("0.0002").
  pub lit : ℕ → ℕ → Decimal
  pub add : Decimal → Decimal → Decimal
  pub sub : Decimal → Decimal → Decimal
  pub mul : Decimal → Decimal → Decimal
  -- `none` is decimal.DivisionByZero.
  pub quotient : Decimal → Decimal → Option Decimal
  pub le : Decimal → Decimal → Bool
  -- `value.quantize(Decimal("0.00000001"))`
  pub quantize : Decimal → Decimal
  -- `Decimal(str(x))` and `float(d)`
  pub to_decimal : Float → Decimal
  pub to_float : Decimal → Float
  pub float_lit : ℕ → ℕ → Float
  pub float_add : Float → Float → Float
  pub float_sub : Float → Float → Float
  pub float_mul : Float → Float → Float
  -- On every path the divisor has been tested to be positive.
  pub float_div : Float → Float → Float
  pub float_le : Float → Float → Bool
  -- `round(x, 10)` and `round(x, 6)`
  pub round_ten : Float → Float
  pub round_six : Float → Float

-- The operators, which compute to the fields. A test is Python's: `a <? b` is `a < b`.
module _ ⦃n : Numerics⦄ where
  infixl 65 ◌⊕◌ ◌⊖◌
  infixl 70 ◌⊗◌
  infix 50 ◌≤?◌ ◌<?◌
  abbrev pub ◌⊕◌ : n.Decimal → n.Decimal → n.Decimal
  a ⊕ b = n.add a b

  abbrev pub ◌⊖◌ : n.Decimal → n.Decimal → n.Decimal
  a ⊖ b = n.sub a b

  abbrev pub ◌⊗◌ : n.Decimal → n.Decimal → n.Decimal
  a ⊗ b = n.mul a b

  abbrev pub ◌≤?◌ : n.Decimal → n.Decimal → Bool
  a ≤? b = n.le a b

  -- Neither operand is NaN, so `a < b` is the negation of `b <= a`.
  abbrev pub ◌<?◌ : n.Decimal → n.Decimal → Bool
  a <? b = not (n.le b a)

  abbrev pub nought : n.Decimal
  nought = n.lit 0 0

  abbrev pub one : n.Decimal
  one = n.lit 1 0

  -- `==` by value.
  abbrev pub same : n.Decimal → n.Decimal → Bool
  same a b = n.le a b && n.le b a

  -- `min(a, b)` and `max(a, b)`: the first argument where they are equal.
  abbrev pub lesser : n.Decimal → n.Decimal → n.Decimal
  lesser a b = if b <? a then b else a

  abbrev pub greater : n.Decimal → n.Decimal → n.Decimal
  greater a b = if a <? b then b else a

  abbrev pub abs : n.Decimal → n.Decimal
  abs a = if a <? nought then nought ⊖ a else a

  -- Division raises `ZeroDivisionError` where the divisor is zero.
  abbrev pub is_zero : n.Float → Bool
  is_zero x = n.float_le x (n.float_lit 0 0) && n.float_le (n.float_lit 0 0) x

  abbrev pub divide : n.Float → n.Float → Option n.Float
  divide x y = if is_zero y then none else some (n.float_div x y)

  abbrev pub float_abs : n.Float → n.Float
  float_abs x = if not (n.float_le (n.float_lit 0 0) x) then n.float_sub (n.float_lit 0 0) x else x

  abbrev pub float_lt : n.Float → n.Float → Bool
  float_lt a b = not (n.float_le b a)

  abbrev pub float_min : n.Float → n.Float → n.Float
  float_min a b = if float_lt b a then b else a

  abbrev pub float_max : n.Float → n.Float → n.Float
  float_max a b = if float_lt a b then b else a

  -- What proofs use of decimal arithmetic. Each law holds of numbers that are not NaN, have at most
  -- the 28 digits of the context and are taken up to `==`: rounding is monotone there, so it is
  -- stated for the rounded results, and no law says that a result is exact.
  pub record IsOrdered : Type 0 where
    pub le_total : (a b : n.Decimal) → (a ≤? b ≡ true) ⊎ (b ≤? a ≡ true)
    pub le_trans : (a b c : n.Decimal) → a ≤? b ≡ true → b ≤? c ≡ true → a ≤? c ≡ true
    pub quantize_mono : (a b : n.Decimal) → a ≤? b ≡ true → n.quantize a ≤? n.quantize b ≡ true
    pub quantize_idem : (a : n.Decimal) → n.quantize (n.quantize a) ≡ n.quantize a
    pub quantize_nought : n.quantize nought ≡ nought
    pub sub_nonneg : (a b : n.Decimal) → b ≤? a ≡ true → nought ≤? (a ⊖ b) ≡ true
    pub sub_nonpos : (a b : n.Decimal) → a ≤? b ≡ true → (a ⊖ b) ≤? nought ≡ true
    pub le-add : (a b : n.Decimal) → nought ≤? b ≡ true → a ≤? (a ⊕ b) ≡ true
    pub sub-le : (a b : n.Decimal) → nought ≤? b ≡ true → (a ⊖ b) ≤? a ≡ true
    pub mul_nonneg :
        (a b : n.Decimal) → nought ≤? a ≡ true → nought ≤? b ≡ true → nought ≤? (a ⊗ b) ≡ true
    pub mul_mono :
        (c a b : n.Decimal) → nought ≤? c ≡ true → a ≤? b ≡ true → (c ⊗ a) ≤? (c ⊗ b) ≡ true
    pub mul_one : (a : n.Decimal) → a ⊗ one ≡ a
    pub lit_nonneg : (m k : ℕ) → nought ≤? n.lit m k ≡ true
    pub quotient_by :
        (a b : n.Decimal) → same b nought ≡ false → (q : n.Decimal) × (n.quotient a b ≡ some q)
