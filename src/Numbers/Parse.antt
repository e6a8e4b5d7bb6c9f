-- ===== src/Numbers/Parse.antt =====
-- `_parseScientific`, `bn` and `fp` of common/numbers.ts. Texts are lists of code points.
pub mod Grammar
pub mod Truncation
pub mod Value
use reserve_protocol.Base.{
  ℕ, suc, ◌≡◌, ◌≢◌, Bool, true, false, not, ◌&&◌, ◌||◌, Option, none, some, List, [], ◌∷◌, ◌++◌,
  leb, ◌==◌, if◌then◌else◌, length, All,
}
use reserve_protocol.Base.Int.{ℤ, pos, negsuc}
use reserve_protocol.BigNumber.{BigNumbers, IsDigit}
use reserve_protocol.Numbers.{pow10, scale_decimals, bn_scale_factor, ◌>>=◌}

abbrev pub is_digit : ℕ → Bool
is_digit c = leb b'0' c && leb c b'9'

-- `[+-]?`
abbrev pub scan_sign : List ℕ → List ℕ × List ℕ
scan_sign [] = ([], [])
scan_sign (c ∷ cs) = if c == b'+' || c == b'-' then (c ∷ [], cs) else ([], c ∷ cs)

-- `\d*`, greedy
unfoldable pub span_digits : List ℕ → List ℕ × List ℕ
span_digits [] = ([], [])
span_digits (c ∷ cs) =
    let (ds, rest) = span_digits cs in if is_digit c then (c ∷ ds, rest) else ([], c ∷ cs)

-- `\d+`
abbrev at_least_one : List ℕ × List ℕ → Option (List ℕ × List ℕ)
at_least_one ([], rest) = none
at_least_one (d ∷ ds, rest) = some (d ∷ ds, rest)

unfoldable pub scan_digits : List ℕ → Option (List ℕ × List ℕ)
scan_digits s = at_least_one (span_digits s)

-- `(\.(?<frac_part>\d+))?`
unfoldable pub scan_fraction : List ℕ → Option (Option (List ℕ) × List ℕ)
scan_fraction [] = some (none, [])
scan_fraction (c ∷ cs) =
    if c == b'.' then (scan_digits cs >>= λ m. some (some m.0, m.1)) else some (none, c ∷ cs)

-- `(e(?<exponent>[+-]?\d+))?`, with the sign and the digits kept apart
unfoldable pub scan_exponent : List ℕ → Option (Option (List ℕ × List ℕ) × List ℕ)
scan_exponent [] = some (none, [])
scan_exponent (c ∷ cs) =
    if c == b'e'
    then (scan_digits (scan_sign cs).1 >>= λ m. some (some ((scan_sign cs).0, m.0), m.1))
    else some (none, c ∷ cs)

-- the named groups of a match
pub record Groups : Type 0 where
  pub sign : List ℕ
  pub int_part : List ℕ
  pub frac_part : Option (List ℕ)
  pub exponent : Option (List ℕ × List ℕ)

-- `$`
abbrev at_end : Groups → List ℕ → Option Groups
at_end g [] = some g
at_end g (c ∷ cs) = none

-- `s.match(…)`
unfoldable pub match_groups : List ℕ → Option Groups
match_groups s = do
  let (sign, unsigned) = scan_sign s
  (int_part, after_int) ← scan_digits unsigned
  (frac_part, after_frac) ← scan_fraction after_int
  (exponent, after_exponent) ← scan_exponent after_frac
  at_end (record { sign = sign; int_part = int_part; frac_part = frac_part; exponent = exponent })
      after_exponent

module _ (big : BigNumbers) where
  -- `groups.frac_part ? BigNumber.from(groups.frac_part) : ZERO`
  frac_value : Option (List ℕ) → Option ℤ
  frac_value none = some (pos 0)
  frac_value (some digits) = big.from digits

  exponent_value : Option (List ℕ × List ℕ) → Option ℤ
  exponent_value none = some (pos 0)
  exponent_value (some (sign, digits)) = big.from (sign ++ digits)

  -- `match.groups.frac_part.length`
  abbrev shift_digits : Option (List ℕ) → ℤ
  shift_digits none = pos 0
  shift_digits (some digits) = pos (length digits)

  -- the block that moves the fractional part into `int_part`
  shift_fraction : Option (List ℕ) → ℤ → ℤ → ℤ → Option (ℤ × ℤ)
  shift_fraction frac int_part frac_part exponent =
      if big.eq frac_part (pos 0)
      then some (int_part, exponent)
      else pow10 big (shift_digits frac) >>= λ p.
          some (big.add (big.mul int_part p) frac_part, big.sub exponent (shift_digits frac))

  positive_output : ℤ → ℤ → Option ℤ
  unfolding pow10
  positive_output int_part exponent =
      if big.gte exponent (pos 0)
      then (pow10 big exponent >>= λ p. some (big.mul int_part p))
      else (pow10 big (big.abs exponent) >>= λ p. big.div int_part p)

  -- `match.groups.sign === '-' ? -1 : 1`
  abbrev sign_value : List ℕ → ℤ
  sign_value [] = pos 1
  sign_value (c ∷ cs) = if c == b'-' then negsuc 0 else pos 1

  scale_groups : ℤ → Groups → Option ℤ
  unfolding frac_value exponent_value shift_fraction positive_output
  scale_groups scale g = do
    int_part ← big.from g.int_part
    frac_part ← frac_value g.frac_part
    exponent ← exponent_value g.exponent
    shifted ← shift_fraction g.frac_part int_part frac_part (big.add exponent scale)
    output ← positive_output shifted.0 shifted.1
    some (big.mul output (sign_value g.sign))

  unfoldable pub parse_scientific : List ℕ → ℤ → Option ℤ
  unfolding match_groups scale_groups
  parse_scientific s scale = match_groups s >>= scale_groups scale

-- BigNumberish: a text, a whole number or BigNumber, or a fractional JavaScript number, which
-- enters with the text that `toFixed(9)` gives for it. `BigNumber.from` refuses fractions.
pub data BigNumberish : Type 0 where
  text : List ℕ → BigNumberish
  whole : ℤ → BigNumberish
  fraction : List ℕ → BigNumberish

module _ (big : BigNumbers) where
  unfoldable pub bn : BigNumberish → Option ℤ
  unfolding parse_scientific
  bn (text s) = parse_scientific big s (pos 0)
  bn (whole x) = some x
  bn (fraction s) = none

  unfoldable pub fp : BigNumberish → Option ℤ
  unfolding parse_scientific
  fp (text s) = parse_scientific big s (pos scale_decimals)
  fp (whole x) = some (big.mul x bn_scale_factor)
  fp (fraction s) = parse_scientific big s (pos scale_decimals)
