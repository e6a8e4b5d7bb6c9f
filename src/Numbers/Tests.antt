-- ===== src/Numbers/Tests.antt =====
-- common/numbers.ts over exact integers, at the inputs of its comments and tests.
use reserve_protocol.Base.{ℕ, ◌%◌, ◌≡◌, refl, ◌↔◌, true, none, some, List, [], ◌∷◌}
use reserve_protocol.Base.Int.{ℤ, pos, negsuc, signed, ◌+ℤ◌, ◌-ℤ◌, ◌*ℤ◌, ◌≤ℤ◌, tdiv, emod}
use reserve_protocol.Base.Text.{codes}
use reserve_protocol.BigNumber.{integers, integers-IsBigNumbers, digits_value, power}
use reserve_protocol.Numbers.{
  RoundingMode, pow10, div, div_floor, div_ceil, near, fp_floor, fp_round, fp_ceil,
}
use reserve_protocol.Numbers.Division.{Rounds, div-Rounds, div_zero, div_ceil-eq-div_floor_iff}
use reserve_protocol.Numbers.Rounding.{
  RoundsTo, fp_floor-RoundsTo, fp_round-RoundsTo, fp_ceil-RoundsTo, near_iff, fp_floor_above,
}
use reserve_protocol.Numbers.Parse.{
  Groups, scan_digits, span_digits, scan_fraction, scan_exponent, match_groups, parse_scientific,
  text, bn, fp,
}
use reserve_protocol.Numbers.Parse.Grammar.{IsWellFormed, render, match_groups_iff}
use reserve_protocol.Numbers.Parse.Truncation.{Truncates}
use reserve_protocol.Numbers.Parse.Value.{parse_scientific-Truncates, parse_scientific_agree}

-- -1.5e18, whose floor is -2e18
abbrev below_zero : ℤ
below_zero = negsuc 1_499_999_999_999_999_999

div-Rounds_example :
    (q : ℕ) × (div integers (pos 13) (negsuc 3) RoundingMode.ceil ≡ some (signed true q))
    × Rounds RoundingMode.ceil 13 4 q
div-Rounds_example =
    div-Rounds integers integers-IsBigNumbers (pos 13) (negsuc 3) RoundingMode.ceil (λ e. cc)

by_zero : div integers (pos 13) (pos 0) RoundingMode.round ≡ none
by_zero = div_zero integers integers-IsBigNumbers (pos 13) RoundingMode.round

div_ceil-eq-div_floor_iff_example :
    (div_ceil integers (pos 13) (pos 5) ≡ div_floor integers (pos 13) (pos 5)) ↔ (13 % 5 ≡ 0)
div_ceil-eq-div_floor_iff_example =
    div_ceil-eq-div_floor_iff integers integers-IsBigNumbers (pos 13) (pos 5) (λ e. cc)

fp_floor-RoundsTo_example : RoundsTo RoundingMode.floor below_zero (fp_floor integers below_zero)
fp_floor-RoundsTo_example = fp_floor-RoundsTo integers integers-IsBigNumbers below_zero

fp_ceil-RoundsTo_example : RoundsTo RoundingMode.ceil below_zero (fp_ceil integers below_zero)
fp_ceil-RoundsTo_example = fp_ceil-RoundsTo integers integers-IsBigNumbers below_zero

fp_round-RoundsTo_example : RoundsTo RoundingMode.round below_zero (fp_round integers below_zero)
fp_round-RoundsTo_example = fp_round-RoundsTo integers integers-IsBigNumbers below_zero

nearly_equal :
    (near integers (pos 5) (pos 8) (pos 3) ≡ true)
    ↔ ((pos 5 -ℤ pos 8 ≤ℤ pos 3) × (pos 8 -ℤ pos 5 ≤ℤ pos 3))
nearly_equal = near_iff integers integers-IsBigNumbers (pos 5) (pos 8) (pos 3)

minus_five_above : (r : ℤ) × (fp_floor integers (negsuc 4) ≡ some r) × ¬ (r ≤ℤ negsuc 4)
minus_five_above = fp_floor_above integers integers-IsBigNumbers 4 (λ e. cc)

-- "-10.05e-1"
abbrev scientific : Groups
scientific = record {
  sign = b'-' ∷ [];
  int_part = b'1' ∷ b'0' ∷ [];
  frac_part = some (b'0' ∷ b'5' ∷ []);
  exponent = some (b'-' ∷ [], b'1' ∷ []);
}

abbrev scientific_text : List ℕ
scientific_text = codes "-10.05e-1"

match_groups_iff_example :
    (match_groups scientific_text ≡ some scientific)
    ↔ ((render scientific ≡ scientific_text) × IsWellFormed scientific)
match_groups_iff_example = match_groups_iff scientific_text scientific

parse_scientific-Truncates_example :
    (q : ℕ) × (parse_scientific integers scientific_text (pos 18) ≡ some (signed true q))
    × Truncates 10 5 2 (pos 17) q
unfolding digits_value ◌+ℤ◌ match_groups scan_digits span_digits scan_fraction scan_exponent
parse_scientific-Truncates_example =
    parse_scientific-Truncates integers integers-IsBigNumbers scientific_text scientific (pos 18)
      refl (λ e. cc)

parse_scientific_agree_example :
    parse_scientific integers scientific_text (pos 18)
    ≡ parse_scientific integers scientific_text (pos 18)
unfolding match_groups scan_digits span_digits scan_fraction scan_exponent
parse_scientific_agree_example =
    parse_scientific_agree integers integers integers-IsBigNumbers integers-IsBigNumbers
      scientific_text (pos 18) refl

-- the numbers that the comments name
bn_test : bn integers (text (codes "-3.14e2")) ≡ some (negsuc 313)
unfolding bn parse_scientific match_groups scan_digits span_digits scan_fraction scan_exponent
    digits_value power tdiv pow10 ◌*ℤ◌ ◌+ℤ◌ ◌-ℤ◌
bn_test = refl

fp_test : fp integers (text (codes "0.5")) ≡ some (pos 500_000_000_000_000_000)
unfolding fp parse_scientific match_groups scan_digits span_digits scan_fraction scan_exponent
    digits_value power tdiv pow10 ◌*ℤ◌ ◌+ℤ◌ ◌-ℤ◌
fp_test = refl

-- A plus sign in the exponent passes the expression, and `BigNumber.from` refuses it.
plus_test : parse_scientific integers (codes "1e+2") (pos 0) ≡ none
unfolding parse_scientific match_groups scan_digits span_digits scan_fraction scan_exponent
    digits_value
plus_test = refl

floor_test : fp_floor integers below_zero ≡ some (negsuc 999_999_999_999_999_999)
unfolding fp_floor emod ◌+ℤ◌ ◌-ℤ◌
floor_test = refl
