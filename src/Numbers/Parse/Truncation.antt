-- ===== src/Numbers/Parse/Truncation.antt =====
-- The number that a scaled decimal stands for, with its fraction cut off.
use reserve_protocol.Base.{ℕ, zero, suc, ◌+◌, ◌*◌, ◌/◌, ◌^◌, ◌≤◌, ◌<◌, ◌≡◌, arith, ap}
use reserve_protocol.Base.Int.{ℤ, pos, pos_part, neg_part, ◌-ℤ◌, -ℤ_parts}
use native.Mathlib.Nat.{
  one-le-pow, pow-suc, zero-add, one-mul, suc-add, le_of_mul-le-mul_right, lt_of_mul-lt-mul_right,
  mul-le-mul_left, mul-lt-mul_of_pos_left, mul-le-mul_right, mul-lt-mul_of_pos_right,
}
use reserve_protocol.Numbers.Division.{quotient_bounds}

pub pow_pos : (n : ℕ) → 0 < 10 ^ n
pow_pos n = one-le-pow n 10 (omega arith)

pow_add : (a b : ℕ) → 10 ^ (a + b) ≡ 10 ^ a * 10 ^ b
pow_add zero b = rw (zero-add, one-mul)
pow_add (suc a) b = rw (suc-add, pow-suc 10 (a + b), pow-suc 10 a, pow_add a b) (grind arith)

-- Bounds on a quotient, carried over to another scale.
scale_bounds :
    (q m n' p' d p : ℕ)
    → 0 < n'
    → 0 < d
    → p' * d ≡ p * n'
    → q * n' ≤ m * p'
    → m * p' < q * n' + n'
    → (q * d ≤ m * p) × (m * p < q * d + d)
scale_bounds q m n' p' d p hn hd e lo hi =
    let scaled : m * (p' * d) ≡ m * (p * n') = ap (λ (t : ℕ). m * t) e in
    (
      le_of_mul-le-mul_right (omega (arith, mul-le-mul_right d lo)) hn,
      lt_of_mul-lt-mul_right n' (omega (arith, mul-lt-mul_of_pos_right hi hd)),
    )

-- The magnitude that the two branches at the end of `_parseScientific` return.
unfoldable pub output_magnitude : ℕ → ℤ → ℕ
output_magnitude m e = m * 10 ^ pos_part e / 10 ^ neg_part e

output_bounds :
    (m : ℕ) (e : ℤ)
    → (output_magnitude m e * 10 ^ neg_part e ≤ m * 10 ^ pos_part e)
      × (m * 10 ^ pos_part e < output_magnitude m e * 10 ^ neg_part e + 10 ^ neg_part e)
unfolding output_magnitude
output_bounds m e = quotient_bounds (m * 10 ^ pos_part e) (10 ^ neg_part e) (pow_pos (neg_part e))

-- `q` is the magnitude (int + frac / 10^k) * 10^e, truncated.
abbrev pub Truncates : ℕ → ℕ → ℕ → ℤ → ℕ → Type 0
Truncates int frac k e q =
    (q * (10 ^ k * 10 ^ neg_part e) ≤ (int * 10 ^ k + frac) * 10 ^ pos_part e)
    × ((int * 10 ^ k + frac) * 10 ^ pos_part e
        < q * (10 ^ k * 10 ^ neg_part e) + 10 ^ k * 10 ^ neg_part e)

pub unshifted-Truncates : (int k : ℕ) (e : ℤ) → Truncates int 0 k e (output_magnitude int e)
unshifted-Truncates int k e =
    let (lo, hi) = output_bounds int e in
    omega (arith, mul-le-mul_left (10 ^ k) lo, mul-lt-mul_of_pos_left {k = 10 ^ k} hi (pow_pos k))

-- Moving the point by k digits keeps the scale.
shift_scale :
    (k : ℕ) (e : ℤ)
    → 10 ^ pos_part (e -ℤ pos k) * (10 ^ k * 10 ^ neg_part e)
      ≡ 10 ^ pos_part e * 10 ^ neg_part (e -ℤ pos k)
shift_scale k e =
    rw (← pow_add k, ← pow_add (pos_part (e -ℤ pos k)), ← pow_add (pos_part e))
      (ap (λ (t : ℕ). 10 ^ t) (omega (arith, -ℤ_parts e (pos k))))

pub shifted-Truncates :
    (int frac k : ℕ) (e : ℤ)
    → Truncates int frac k e (output_magnitude (int * 10 ^ k + frac) (e -ℤ pos k))
shifted-Truncates int frac k e =
    let (lo, hi) = output_bounds (int * 10 ^ k + frac) (e -ℤ pos k) in
    scale_bounds _ _ _ _ _ _ (pow_pos (neg_part (e -ℤ pos k)))
      (rw (← pow_add k) (pow_pos (k + neg_part e))) (shift_scale k e) lo hi

pub Truncates-unique :
    (int frac k : ℕ) (e : ℤ) (q r : ℕ) → Truncates int frac k e q → Truncates int frac k e r → q ≡ r
Truncates-unique int frac k e q r a b =
    let d = 10 ^ k * 10 ^ neg_part e in
    omega (
      arith,
      lt_of_mul-lt-mul_right d {m = q} {n = suc r} (omega arith),
      lt_of_mul-lt-mul_right d {m = r} {n = suc q} (omega arith),
    )
