-- ===== src/Numbers.antt =====
-- common/numbers.ts over a BigNumber implementation; `none` is a throw.
pub mod Division
pub mod Rounding
pub mod Parse
pub mod Short
mod Tests
use reserve_protocol.Base.{
  ℕ, ◌-◌, ◌≡◌, Bool, true, false, not, Option, none, some, List, [], ◌∷◌, if◌then◌else◌,
}
use reserve_protocol.Base.Int.{ℤ, pos, negsuc, ◌-ℤ◌}
use reserve_protocol.BigNumber.{BigNumbers}

-- constants.ts: `enum RoundingMode`, `SCALE_DECIMALS` and `BN_SCALE_FACTOR`
pub data RoundingMode : Type 0 where
  floor round ceil : RoundingMode

abbrev pub scale_decimals : ℕ
scale_decimals = 18

abbrev pub bn_scale_factor : ℤ
bn_scale_factor = pos 1_000_000_000_000_000_000

infixl 5 ◌>>=◌
abbrev pub ◌>>=◌ {ℓ κ} : {A : Type ℓ} {B : Type κ} → Option A → (A → Option B) → Option B
none >>= f = none
some a >>= f = f a

module _ (big : BigNumbers) where
  unfoldable pub pow10 : ℤ → Option ℤ
  pow10 exponent = big.pow (pos 10) exponent

  -- `SCALE_DECIMALS - decimals` is a subtraction of JavaScript numbers.
  unfoldable pub to_bn_decimals : ℤ → ℤ → Option ℤ
  unfolding pow10
  to_bn_decimals x decimals = do unit ← pow10 (pos scale_decimals -ℤ decimals); big.div x unit

  -- the first part of `div`: what is added to the magnitude of the dividend
  extra : ℤ → RoundingMode → Option ℤ
  extra y RoundingMode.floor = some (pos 0)
  extra y RoundingMode.round = big.div (big.abs y) (pos 2)
  extra y RoundingMode.ceil = some (big.sub (big.abs y) (pos 1))

  unfoldable pub div : ℤ → ℤ → RoundingMode → Option ℤ
  unfolding extra
  div x y rnd = do
    e ← extra y rnd
    big.div (big.add x (if big.is_negative x then big.mul e (negsuc 0) else e)) y

  unfoldable pub div_floor : ℤ → ℤ → Option ℤ
  unfolding div
  div_floor x y = div x y RoundingMode.floor

  unfoldable pub div_ceil : ℤ → ℤ → Option ℤ
  unfolding div
  div_ceil x y = div x y RoundingMode.ceil

  unfoldable pub near : ℤ → ℤ → ℤ → Bool
  near x y z = if big.lt x y then big.lte (big.sub y x) z else big.lte (big.sub x y) z

  unfoldable pub fp_floor : ℤ → Option ℤ
  fp_floor x = do
    m ← big.modulo x bn_scale_factor
    some (
        if big.is_zero m
        then x
        else if big.is_negative x
        then big.add (big.sub x m) bn_scale_factor
        else big.sub x m)

  unfoldable pub fp_round : ℤ → Option ℤ
  fp_round x = do
    m ← big.modulo x bn_scale_factor
    half ← big.div bn_scale_factor (pos 2)
    let threshold = if big.is_negative x then half else big.sub half (pos 1)
    some (if big.gt m threshold then big.add (big.sub x m) bn_scale_factor else big.sub x m)

  unfoldable pub fp_ceil : ℤ → Option ℤ
  fp_ceil x = do
    m ← big.modulo x bn_scale_factor
    some (
        if big.is_zero m
        then x
        else if big.is_negative x
        then big.sub x m
        else big.add (big.sub x m) bn_scale_factor)
