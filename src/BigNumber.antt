-- ===== src/BigNumber.antt =====
-- The BigNumber class of ethers, as common/numbers.ts uses it. The package is not part of the
-- repository: its methods are the fields of a record, and what its documentation says of them are
-- the laws. A BigNumber is carried as the integer that it holds; `none` is a throw.
use reserve_protocol.Base.{
  ℕ, ◌+◌, ◌-◌, ◌*◌, ◌^◌, ◌≤◌, ◌≡◌, refl, Bool, true, false, Option, none, some, List, [], ◌∷◌, ◌==◌,
  if◌then◌else◌, All, arith,
}
use reserve_protocol.Base.Int.{
  ℤ, pos, negsuc, nat_abs, is_neg, signed, ◌+ℤ◌, ◌-ℤ◌, ◌*ℤ◌, ltb_ℤ, leb_ℤ, tdiv, emod,
}

pub record BigNumbers : Type 0 where
  pub from : List ℕ → Option ℤ
  pub add : ℤ → ℤ → ℤ
  pub sub : ℤ → ℤ → ℤ
  pub mul : ℤ → ℤ → ℤ
  pub div : ℤ → ℤ → Option ℤ
  pub modulo : ℤ → ℤ → Option ℤ
  pub pow : ℤ → ℤ → Option ℤ
  pub abs : ℤ → ℤ
  pub lt : ℤ → ℤ → Bool
  pub lte : ℤ → ℤ → Bool
  pub gt : ℤ → ℤ → Bool
  pub gte : ℤ → ℤ → Bool
  pub eq : ℤ → ℤ → Bool
  pub is_zero : ℤ → Bool
  pub is_negative : ℤ → Bool

-- The number that a run of decimal digits writes.
unfoldable pub digits_value : ℕ → List ℕ → ℕ
digits_value acc [] = acc
digits_value acc (d ∷ ds) = digits_value (acc * 10 + (d - b'0')) ds

abbrev pub IsDigit : ℕ → Type 0
IsDigit c = (b'0' ≤ c) × (c ≤ b'9')

-- The power of an integer; a negative exponent is refused.
unfoldable pub power : ℤ → ℤ → Option ℤ
power (pos b) (pos e) = some (pos (b ^ e))
power (negsuc b) (pos e) = none
power b (negsuc e) = none

abbrev pub eqb_ℤ : ℤ → ℤ → Bool
eqb_ℤ (pos a) (pos b) = a == b
eqb_ℤ (negsuc a) (negsuc b) = a == b
eqb_ℤ (pos a) (negsuc b) = false
eqb_ℤ (negsuc a) (pos b) = false

-- The documented behaviour: integer arithmetic, `div` rounding toward zero, `mod` with a
-- remainder that is never negative, and a throw for a zero divisor or a negative exponent.
pub record IsBigNumbers (big : BigNumbers) : Type 0 where
  pub from_law :
      (d : ℕ) (ds : List ℕ)
      → All IsDigit (d ∷ ds)
      → big.from (d ∷ ds) ≡ some (pos (digits_value 0 (d ∷ ds)))
  pub from_minus_law :
      (d : ℕ) (ds : List ℕ)
      → All IsDigit (d ∷ ds)
      → big.from (b'-' ∷ d ∷ ds) ≡ some (signed true (digits_value 0 (d ∷ ds)))
  pub add_law : (a b : ℤ) → big.add a b ≡ a +ℤ b
  pub sub_law : (a b : ℤ) → big.sub a b ≡ a -ℤ b
  pub mul_law : (a b : ℤ) → big.mul a b ≡ a *ℤ b
  pub div_law : (a b : ℤ) → big.div a b ≡ tdiv a b
  pub mod_law : (a : ℤ) (m : ℕ) → big.modulo a (pos m) ≡ emod a (pos m)
  pub pow_law : (b : ℕ) (e : ℤ) → big.pow (pos b) e ≡ power (pos b) e
  pub abs_law : (a : ℤ) → big.abs a ≡ pos (nat_abs a)
  pub lt_law : (a b : ℤ) → big.lt a b ≡ ltb_ℤ a b
  pub lte_law : (a b : ℤ) → big.lte a b ≡ leb_ℤ a b
  pub gt_law : (a b : ℤ) → big.gt a b ≡ ltb_ℤ b a
  pub gte_law : (a b : ℤ) → big.gte a b ≡ leb_ℤ b a
  pub eq_law : (a b : ℤ) → big.eq a b ≡ eqb_ℤ a b
  pub is_zero_law : (a : ℤ) → big.is_zero a ≡ (nat_abs a == 0)
  pub is_negative_law : (a : ℤ) → big.is_negative a ≡ is_neg a

-- Exact integers, which show that the laws can be met. A text is read as an optional minus sign
-- and digits.
abbrev pub from_decimal : List ℕ → Option ℤ
from_decimal [] = none
from_decimal (c ∷ ds) =
    if c == b'-'
    then some (signed true (digits_value 0 ds))
    else if c == b'+'
    then none
    else some (pos (digits_value 0 (c ∷ ds)))

pub from_decimal-digits :
    (d : ℕ) (ds : List ℕ)
    → All IsDigit (d ∷ ds)
    → from_decimal (d ∷ ds) ≡ some (pos (digits_value 0 (d ∷ ds)))
from_decimal-digits d ds h = ground arith

abbrev pub integers : BigNumbers
integers = record {
  from = from_decimal;
  add = ◌+ℤ◌;
  sub = ◌-ℤ◌;
  mul = ◌*ℤ◌;
  div = tdiv;
  modulo = emod;
  pow = power;
  abs = λ a. pos (nat_abs a);
  lt = ltb_ℤ;
  lte = leb_ℤ;
  gt = λ a b. ltb_ℤ b a;
  gte = λ a b. leb_ℤ b a;
  eq = eqb_ℤ;
  is_zero = λ a. nat_abs a == 0;
  is_negative = is_neg;
}

abbrev pub integers-IsBigNumbers : IsBigNumbers integers
integers-IsBigNumbers = record {
  from_law = from_decimal-digits;
  from_minus_law = λ d ds h. refl;
  add_law = λ a b. refl;
  sub_law = λ a b. refl;
  mul_law = λ a b. refl;
  div_law = λ a b. refl;
  mod_law = λ a m. refl;
  pow_law = λ b e. refl;
  abs_law = λ a. refl;
  lt_law = λ a b. refl;
  lte_law = λ a b. refl;
  gt_law = λ a b. refl;
  gte_law = λ a b. refl;
  eq_law = λ a b. refl;
  is_zero_law = λ a. refl;
  is_negative_law = λ a. refl;
}
