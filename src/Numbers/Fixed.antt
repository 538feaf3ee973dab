-- ===== src/Numbers/Fixed.antt =====
-- The laws of `Numbers` can be met: both kinds of numbers as integers that count units of 10^-8,
-- with products and quotients rounded towards zero. It serves tests and witnesses only.
use native.Mathlib.Nat.{mul-le-mul}
use crypto_mas.Prelude.{
  false, ℕ, zero, suc, ◌+◌, ◌*◌, ◌/◌, ◌^◌, ◌≡◌, refl, true, Option, none, some, arith, ◌==◌,
  if◌then◌else◌,
}
use crypto_mas.Prelude.Int.{ℤ, pos, negsuc, pos_part, neg_part, sub_ℕ, ◌+ℤ◌, ◌-ℤ◌, leb_ℤ}
use crypto_mas.Numbers.{same, Numerics, IsOrdered}

abbrev pub unit : ℕ
unit = 10 ^ 8

abbrev pub minus : ℕ → ℤ
minus m = sub_ℕ 0 m

abbrev pub times : ℤ → ℤ → ℤ
times (pos a) (pos b) = pos (a * b / unit)
times (pos a) (negsuc b) = minus (a * suc b / unit)
times (negsuc a) (pos b) = minus (suc a * b / unit)
times (negsuc a) (negsuc b) = pos (suc a * suc b / unit)

abbrev pub divide : ℤ → ℤ → ℤ
divide (pos a) (pos b) = pos (a * unit / b)
divide (pos a) (negsuc b) = minus (a * unit / suc b)
divide (negsuc a) (pos b) = minus (suc a * unit / b)
divide (negsuc a) (negsuc b) = pos (suc a * unit / suc b)

abbrev pub quotient : ℤ → ℤ → Option ℤ
quotient a b = if pos_part b + neg_part b == 0 then none else some (divide a b)

abbrev pub literal : ℕ → ℕ → ℤ
literal m k = pos (m * unit / 10 ^ k)

instance abbrev pub fixed : Numerics
fixed = record {
  Decimal = ℤ;
  Float = ℤ;
  lit = literal;
  add = ◌+ℤ◌;
  sub = ◌-ℤ◌;
  mul = times;
  quotient = quotient;
  le = leb_ℤ;
  quantize = λ a. a;
  to_decimal = λ a. a;
  to_float = λ a. a;
  float_lit = literal;
  float_add = ◌+ℤ◌;
  float_sub = ◌-ℤ◌;
  float_mul = times;
  float_div = divide;
  float_le = leb_ℤ;
  round_ten = λ a. a;
  round_six = λ a. a;
}

mul_nonneg :
    (a b : ℤ) → leb_ℤ (pos 0) a ≡ true → leb_ℤ (pos 0) b ≡ true → leb_ℤ (pos 0) (times a b) ≡ true
mul_nonneg (pos a) (pos b) h k = ground arith
mul_nonneg (pos a) (negsuc b) h k = ground arith
mul_nonneg (negsuc a) b h k = ground arith

mul_mono :
    (c a b : ℤ) → leb_ℤ (pos 0) c ≡ true → leb_ℤ a b ≡ true → leb_ℤ (times c a) (times c b) ≡ true
mul_mono (pos c) (pos a) (pos b) h k = grind (arith, mul-le-mul)
mul_mono (pos c) (pos a) (negsuc b) h k = ground arith
mul_mono (pos c) (negsuc a) (pos b) h k = ground arith
mul_mono (pos c) (negsuc a) (negsuc b) h k = grind (arith, mul-le-mul)
mul_mono (negsuc c) a b h k = ground arith

times_one : (a : ℤ) → times a (pos unit) ≡ a
times_one (pos a) = ground arith
times_one (negsuc a) = ground arith

quotient_by :
    (a b : ℤ) → same ⦃n = fixed⦄ b (literal 0 0) ≡ false → (q : ℤ) × (quotient a b ≡ some q)
quotient_by a (pos zero) h = cc
quotient_by a (pos (suc b)) h = (divide a (pos (suc b)), ground arith)
quotient_by a (negsuc b) h = (divide a (negsuc b), ground arith)

pub fixed-IsOrdered : IsOrdered ⦃n = fixed⦄
fixed-IsOrdered = record {
  le_total = λ a b. ground arith;
  le_trans = λ a b c h k. ground arith;
  quantize_mono = λ a b h. h;
  quantize_idem = λ a. refl;
  quantize_nought = refl;
  sub_nonneg = λ a b h. ground arith;
  sub_nonpos = λ a b h. ground arith;
  le-add = λ a b h. ground arith;
  sub-le = λ a b h. ground arith;
  quotient_by = quotient_by;
  mul_nonneg = mul_nonneg;
  mul_mono = mul_mono;
  mul_one = times_one;
  lit_nonneg = λ m k. ground arith;
}
