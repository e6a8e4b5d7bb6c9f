-- ===== src/Numbers/Division.antt =====
-- `div` of common/numbers.ts against the quotients that its three modes mean.
use reserve_protocol.Base.{
  ℕ, zero, suc, ◌+◌, ◌-◌, ◌*◌, ◌/◌, ◌%◌, ◌≤◌, ◌<◌, ◌≡◌, refl, ◌≢◌, Bool, true, false, none, some,
  arith, if◌then◌else◌, ap, ◌∙◌, ◌↔◌,
}
use reserve_protocol.Base.Int.{ℤ, pos, negsuc, nat_abs, is_neg, xor, signed, ◌+ℤ◌, ◌-ℤ◌, ◌*ℤ◌, tdiv}
use reserve_protocol.BigNumber.{BigNumbers, IsBigNumbers, integers}
use reserve_protocol.Numbers.{RoundingMode, extra, div, div_floor, div_ceil}

-- The quotient of magnitudes in each mode, by what it is nearest to.
abbrev pub Rounds : RoundingMode → ℕ → ℕ → ℕ → Type 0
Rounds RoundingMode.floor a b q = (q * b ≤ a) × (a < q * b + b)
Rounds RoundingMode.ceil a b q = (a ≤ q * b) × (q * b < a + b)
Rounds RoundingMode.round a b q = (2 * (q * b) ≤ 2 * a + b) × (2 * a < 2 * (q * b) + b)

-- What is added to the magnitude of the dividend.
abbrev pub extra_magnitude : RoundingMode → ℕ → ℕ
extra_magnitude RoundingMode.floor b = 0
extra_magnitude RoundingMode.round b = b / 2
extra_magnitude RoundingMode.ceil b = b - 1

-- A quotient leaves less than the divisor.
pub quotient_bounds : (k b : ℕ) → 0 < b → (k / b * b ≤ k) × (k < k / b * b + b)
quotient_bounds k b h = omega arith

pub quotient-Rounds :
    (r : RoundingMode) (a b : ℕ) → 0 < b → Rounds r a b ((a + extra_magnitude r b) / b)
quotient-Rounds RoundingMode.floor a b h = omega (arith, quotient_bounds (a + 0) b h)
quotient-Rounds RoundingMode.round a b h = omega (arith, quotient_bounds (a + b / 2) b h)
quotient-Rounds RoundingMode.ceil a b h = omega (arith, quotient_bounds (a + (b - 1)) b h)

-- The sum that `div` divides has the dividend's sign and the sum of the magnitudes.
shifted : ℤ → ℕ → ℤ
shifted x e = x +ℤ (if is_neg x then pos e *ℤ negsuc 0 else pos e)

shifted-pos : (a e : ℕ) → shifted (pos a) e ≡ pos (a + e)
unfolding shifted ◌+ℤ◌
shifted-pos a e = ground arith

shifted-negsuc : (a e : ℕ) → shifted (negsuc a) e ≡ negsuc (a + e)
unfolding shifted ◌+ℤ◌ ◌*ℤ◌
shifted-negsuc a zero = ground arith
shifted-negsuc a (suc e) = ground arith

tdiv-shifted :
    (x y : ℤ) (e : ℕ)
    → y ≢ pos 0
    → tdiv (shifted x e) y ≡ some (signed (xor (is_neg x) (is_neg y)) ((nat_abs x + e) / nat_abs y))
unfolding tdiv
tdiv-shifted (pos a) (pos b) e h = rw shifted-pos (ground arith)
tdiv-shifted (pos a) (negsuc b) e h = rw shifted-pos (ground arith)
tdiv-shifted (negsuc a) (pos b) e h = rw shifted-negsuc (ground arith)
tdiv-shifted (negsuc a) (negsuc b) e h = rw shifted-negsuc (ground arith)

module _ (big : BigNumbers) (laws : IsBigNumbers big) where
  div-reduce : (x y : ℤ) (r : RoundingMode) → div big x y r ≡ div integers x y r
  unfolding div
  div-reduce x y RoundingMode.floor =
      simp (laws.is_negative_law, laws.add_law, laws.mul_law, laws.div_law)
  div-reduce x y RoundingMode.round =
      simp (laws.is_negative_law, laws.add_law, laws.mul_law, laws.div_law, laws.abs_law)
  div-reduce x y RoundingMode.ceil =
      simp
        (laws.is_negative_law, laws.add_law, laws.mul_law, laws.div_law, laws.abs_law, laws.sub_law)

extra-integers :
    (y : ℤ) (r : RoundingMode)
    → y ≢ pos 0
    → extra integers y r ≡ some (pos (extra_magnitude r (nat_abs y)))
unfolding extra tdiv ◌-ℤ◌
extra-integers y RoundingMode.floor h = refl
extra-integers y RoundingMode.round h = refl
extra-integers (pos b) RoundingMode.ceil h = ground arith
extra-integers (negsuc b) RoundingMode.ceil h = ground arith

div-integers :
    (x y : ℤ) (r : RoundingMode)
    → y ≢ pos 0
    → div integers x y r
      ≡ some (
          signed
            (xor (is_neg x) (is_neg y))
            ((nat_abs x + extra_magnitude r (nat_abs y)) / nat_abs y))
unfolding div shifted
div-integers x y r h =
    rw (extra-integers y r h) (tdiv-shifted x y (extra_magnitude r (nat_abs y)) h)

nat_abs-pos : (y : ℤ) → y ≢ pos 0 → 0 < nat_abs y
nat_abs-pos y h = ground arith

signed_magnitude : (s : Bool) (p q : ℕ) → some (signed s p) ≡ some (signed s q) → p ≡ q
signed_magnitude false p q e = cc
signed_magnitude true zero zero e = refl
signed_magnitude true zero (suc q) e = cc
signed_magnitude true (suc p) zero e = cc
signed_magnitude true (suc p) (suc q) e = cc

-- The two quotients meet only where nothing is left.
ceil_quotient_iff : (a b : ℕ) → 0 < b → ((a + (b - 1)) / b ≡ (a + 0) / b) ↔ (a % b ≡ 0)
ceil_quotient_iff a b h = (
  λ e. grind (arith, quotient_bounds (a + (b - 1)) b h, quotient_bounds (a + 0) b h),
  λ e. grind (arith, quotient_bounds (a + (b - 1)) b h, quotient_bounds (a + 0) b h),
)

module _ (big : BigNumbers) (laws : IsBigNumbers big) (x y : ℤ) where
  -- By a divisor that is not zero, `div` returns an integer whose sign is that of the quotient and
  -- whose magnitude is the quotient of the magnitudes: rounded down for FLOOR, up for CEIL, and to
  -- the nearest for ROUND, where a half goes up. So FLOOR rounds toward zero.
  pub div-Rounds :
      (r : RoundingMode)
      → y ≢ pos 0
      → (q : ℕ) × (div big x y r ≡ some (signed (xor (is_neg x) (is_neg y)) q))
        × Rounds r (nat_abs x) (nat_abs y) q
  div-Rounds r h = (
    (nat_abs x + extra_magnitude r (nat_abs y)) / nat_abs y,
    div-reduce big laws x y r ∙ div-integers x y r h,
    quotient-Rounds r (nat_abs x) (nat_abs y) (nat_abs-pos y h),
  )

  -- By a divisor that is not zero, `divCeil` and `divFloor` agree exactly when the divisor divides
  -- the dividend.
  pub div_ceil-eq-div_floor_iff :
      y ≢ pos 0 → (div_ceil big x y ≡ div_floor big x y) ↔ (nat_abs x % nat_abs y ≡ 0)
  unfolding div_ceil div_floor
  div_ceil-eq-div_floor_iff h =
      rw
        (
          div-reduce big laws x y RoundingMode.ceil,
          div-reduce big laws x y RoundingMode.floor,
          div-integers x y RoundingMode.ceil h,
          div-integers x y RoundingMode.floor h,
        )
        (let (to, from) = ceil_quotient_iff (nat_abs x) (nat_abs y) (nat_abs-pos y h) in
          (
            λ e. to (signed_magnitude (xor (is_neg x) (is_neg y)) _ _ e),
            λ e. ap (λ q. some (signed (xor (is_neg x) (is_neg y)) q)) (from e),
          ))

-- By zero every mode throws.
pub div_zero :
    (big : BigNumbers) (laws : IsBigNumbers big) (x : ℤ) (r : RoundingMode)
    → div big x (pos 0) r ≡ none
unfolding div tdiv
div_zero big laws x RoundingMode.floor = div-reduce big laws x (pos 0) RoundingMode.floor
div_zero big laws x RoundingMode.round = div-reduce big laws x (pos 0) RoundingMode.round
div_zero big laws x RoundingMode.ceil = div-reduce big laws x (pos 0) RoundingMode.ceil
