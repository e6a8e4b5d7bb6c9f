-- ===== src/Numbers/Rounding.antt =====
-- `fpFloor`, `fpRound`, `fpCeil` and `near` of common/numbers.ts.
use reserve_protocol.Base.{
  ℕ, suc, ◌+◌, ◌-◌, ◌*◌, ◌/◌, ◌%◌, ◌≡◌, ◌≢◌, true, Option, some, arith, ◌∙◌, ◌↔◌,
}
use reserve_protocol.Base.Int.{
  ℤ, pos, negsuc, nat_abs, is_neg, signed, ◌+ℤ◌, ◌-ℤ◌, ◌≤ℤ◌, tdiv, emod,
}
use reserve_protocol.BigNumber.{BigNumbers, IsBigNumbers, integers}
use reserve_protocol.Numbers.{RoundingMode, fp_floor, fp_round, fp_ceil, near}
use reserve_protocol.Numbers.Division.{Rounds, quotient_bounds, quotient-Rounds}

abbrev pub unit : ℕ
unit = 1_000_000_000_000_000_000

-- A whole number of units with the sign of `x`, whose magnitude is that of `x` rounded.
abbrev pub RoundsTo : RoundingMode → ℤ → Option ℤ → Type 0
RoundsTo r x result =
    (q : ℕ) × (result ≡ some (signed (is_neg x) (q * unit))) × Rounds r (nat_abs x) unit q

module _ (big : BigNumbers) (laws : IsBigNumbers big) (x : ℤ) where
  fp_floor-reduce : fp_floor big x ≡ fp_floor integers x
  unfolding fp_floor
  fp_floor-reduce =
      simp (laws.mod_law, laws.is_zero_law, laws.is_negative_law, laws.add_law, laws.sub_law)

  fp_ceil-reduce : fp_ceil big x ≡ fp_ceil integers x
  unfolding fp_ceil
  fp_ceil-reduce =
      simp (laws.mod_law, laws.is_zero_law, laws.is_negative_law, laws.add_law, laws.sub_law)

  fp_round-reduce : fp_round big x ≡ fp_round integers x
  unfolding fp_round
  fp_round-reduce =
      simp
        (laws.mod_law, laws.div_law, laws.gt_law, laws.is_negative_law, laws.add_law, laws.sub_law)

fp_floor-integers :
    (x : ℤ) → fp_floor integers x ≡ some (signed (is_neg x) (nat_abs x / unit * unit))
unfolding fp_floor emod ◌+ℤ◌ ◌-ℤ◌
fp_floor-integers (pos a) = ground arith
fp_floor-integers (negsuc a) = ground arith

fp_ceil-integers :
    (x : ℤ) → fp_ceil integers x ≡ some (signed (is_neg x) ((nat_abs x + (unit - 1)) / unit * unit))
unfolding fp_ceil emod ◌+ℤ◌ ◌-ℤ◌
fp_ceil-integers (pos a) = ground arith
fp_ceil-integers (negsuc a) = ground arith

fp_round-integers :
    (x : ℤ) → fp_round integers x ≡ some (signed (is_neg x) ((nat_abs x + unit / 2) / unit * unit))
unfolding fp_round emod tdiv ◌+ℤ◌ ◌-ℤ◌
fp_round-integers (pos a) = ground arith
fp_round-integers (negsuc a) = ground arith

-- What the rounded value is at a negative number that is no whole number of units.
floor_above : (a : ℕ) → suc a % unit ≢ 0 → ¬ (signed true (suc a / unit * unit) ≤ℤ negsuc a)
floor_above a h = ground arith

module _ (big : BigNumbers) (laws : IsBigNumbers big) (x : ℤ) where
  -- `fpFloor` returns a whole number of units with the sign of `x`; its magnitude is that of `x`
  -- rounded down, so the result is `x` rounded toward zero.
  pub fp_floor-RoundsTo : RoundsTo RoundingMode.floor x (fp_floor big x)
  fp_floor-RoundsTo = (
    nat_abs x / unit,
    fp_floor-reduce big laws x ∙ fp_floor-integers x,
    quotient_bounds (nat_abs x) unit (omega arith),
  )

  -- `fpCeil` returns `x` rounded away from zero to a whole number of units.
  pub fp_ceil-RoundsTo : RoundsTo RoundingMode.ceil x (fp_ceil big x)
  fp_ceil-RoundsTo = (
    (nat_abs x + (unit - 1)) / unit,
    fp_ceil-reduce big laws x ∙ fp_ceil-integers x,
    quotient-Rounds RoundingMode.ceil (nat_abs x) unit (omega arith),
  )

  -- `fpRound` returns `x` rounded to the nearest whole number of units, a half away from zero: the
  -- two thresholds of the code make the negative numbers mirror the positive ones.
  pub fp_round-RoundsTo : RoundsTo RoundingMode.round x (fp_round big x)
  fp_round-RoundsTo = (
    (nat_abs x + unit / 2) / unit,
    fp_round-reduce big laws x ∙ fp_round-integers x,
    quotient-Rounds RoundingMode.round (nat_abs x) unit (omega arith),
  )

  -- `near` tells whether the absolute difference is at most `z`, the case of equality included.
  pub near_iff : (y z : ℤ) → (near big x y z ≡ true) ↔ ((x -ℤ y ≤ℤ z) × (y -ℤ x ≤ℤ z))
  unfolding near ◌-ℤ◌
  near_iff y z = simp (laws.lt_law, laws.lte_law, laws.sub_law) (ground arith)

-- `fpFloor` is not the floor below zero: at a negative number that is no whole number of units the
-- result lies above the number.
pub fp_floor_above :
    (big : BigNumbers) (laws : IsBigNumbers big) (a : ℕ)
    → suc a % unit ≢ 0
    → (r : ℤ) × (fp_floor big (negsuc a) ≡ some r) × ¬ (r ≤ℤ negsuc a)
fp_floor_above big laws a h = (
  signed true (suc a / unit * unit),
  fp_floor-reduce big laws (negsuc a) ∙ fp_floor-integers (negsuc a),
  floor_above a h,
)
