-- ===== src/Numbers/Parse/Value.antt =====
-- The number that `_parseScientific` returns for a text of its grammar.
use reserve_protocol.Base.{
  ℕ, zero, suc, ◌+◌, ◌*◌, ◌^◌, ◌≡◌, ◌≢◌, refl, Bool, true, false, Option, none, some, List, [], ◌∷◌,
  inl, inr, arith, length, ◌==◌, ◌∙◌, sym, ap, Bool-cases, ==_iff, Option-cases,
}
use reserve_protocol.Base.Int.{ℤ, pos, negsuc, signed, ◌+ℤ◌, ◌-ℤ◌, ◌*ℤ◌, tdiv}
use reserve_protocol.BigNumber.{BigNumbers, IsBigNumbers, digits_value, power}
use reserve_protocol.Numbers.{◌>>=◌, pow10}
use reserve_protocol.Numbers.Parse.{
  Groups, match_groups, frac_value, exponent_value, shift_fraction, positive_output, sign_value,
  scale_groups, parse_scientific,
}
use reserve_protocol.Numbers.Parse.Truncation.{
  pow_pos, output_magnitude, Truncates, unshifted-Truncates, shifted-Truncates, Truncates-unique,
}
use reserve_protocol.Numbers.Parse.Grammar.{
  IsRun, IsFraction, IsExponent, IsWellFormed, match_groups_iff,
}

pos-mul_add : (a b c : ℕ) → pos a *ℤ pos b +ℤ pos c ≡ pos (a * b + c)
unfolding ◌*ℤ◌ ◌+ℤ◌
pos-mul_add a b c = ground arith

>>=-then :
    {A B C : Type 0} (m : Option A) (f : A → Option B) (k : B → Option C) {b : B}
    → (m >>= f) ≡ some b
    → (m >>= λ a. f a >>= k) ≡ k b
>>=-then none f k h = cc
>>=-then (some a) f k h = rw h

-- The values of the groups, as numbers.
abbrev pub frac_number : Option (List ℕ) → ℕ
frac_number none = 0
frac_number (some ds) = digits_value 0 ds

abbrev pub frac_length : Option (List ℕ) → ℕ
frac_length none = 0
frac_length (some ds) = length ds

abbrev pub is_minus : List ℕ → Bool
is_minus [] = false
is_minus (c ∷ cs) = c == b'-'

abbrev pub exponent_number : Option (List ℕ × List ℕ) → ℤ
exponent_number none = pos 0
exponent_number (some (sign, ds)) = signed (is_minus sign) (digits_value 0 ds)

-- The exponent has no plus sign.
abbrev pub HasNoPlus : Option (List ℕ × List ℕ) → Type 0
HasNoPlus none = Unit
HasNoPlus (some (sign, ds)) = sign ≢ b'+' ∷ []

module _ (big : BigNumbers) (laws : IsBigNumbers big) where
  from_run : (ds : List ℕ) → IsRun ds → big.from ds ≡ some (pos (digits_value 0 ds))
  from_run [] h = elim h [ ]
  from_run (d ∷ ds) h = laws.from_law d ds h

  from_minus_run :
      (ds : List ℕ) → IsRun ds → big.from (b'-' ∷ ds) ≡ some (signed true (digits_value 0 ds))
  from_minus_run [] h = elim h [ ]
  from_minus_run (d ∷ ds) h = laws.from_minus_law d ds h

  frac_value-eq :
      (f : Option (List ℕ)) → IsFraction f → frac_value big f ≡ some (pos (frac_number f))
  unfolding frac_value
  frac_value-eq none h = refl
  frac_value-eq (some ds) h = from_run ds h

  exponent_value-eq :
      (x : Option (List ℕ × List ℕ))
      → IsExponent x
      → HasNoPlus x
      → exponent_value big x ≡ some (exponent_number x)
  unfolding exponent_value
  exponent_value-eq none h p = refl
  exponent_value-eq (some (sign, ds)) (inl e, run) p = rw e (from_run ds run)
  exponent_value-eq (some (sign, ds)) (inr (inl e), run) p = absurd (p e)
  exponent_value-eq (some (sign, ds)) (inr (inr e), run) p = rw e (from_minus_run ds run)

  pow10-eq : (n : ℕ) → pow10 big (pos n) ≡ some (pos (10 ^ n))
  unfolding pow10 power
  pow10-eq n = laws.pow_law 10 (pos n)

  positive_output-eq :
      (m : ℕ) (e : ℤ) → positive_output big (pos m) e ≡ some (pos (output_magnitude m e))
  unfolding positive_output output_magnitude power tdiv ◌*ℤ◌
  positive_output-eq m (pos n) = simp (laws.gte_law, laws.pow_law, laws.mul_law) (ground arith)
  positive_output-eq m (negsuc n) =
      simp (laws.gte_law, laws.abs_law, laws.pow_law, laws.div_law)
        (ground (arith, pow_pos (suc n)))

  sign_value-eq :
      (sign : List ℕ) (q : ℕ) → big.mul (pos q) (sign_value big sign) ≡ signed (is_minus sign) q
  unfolding ◌*ℤ◌
  sign_value-eq [] q = simp laws.mul_law (ground arith)
  sign_value-eq (c ∷ cs) zero = simp laws.mul_law (ground arith)
  sign_value-eq (c ∷ cs) (suc q) = simp laws.mul_law (ground arith)

  -- The output for the groups' values, before the sign.
  shift_then_output :
      (f : Option (List ℕ)) (int : ℕ) (e : ℤ)
      → (q : ℕ) × ((shift_fraction big f (pos int) (pos (frac_number f)) e >>= λ s.
            positive_output big s.0 s.1)
          ≡ some (pos q))
        × Truncates int (frac_number f) (frac_length f) e q
  unfolding shift_fraction
  shift_then_output none int e = (
    output_magnitude int e,
    simp laws.eq_law (positive_output-eq int e),
    unshifted-Truncates int 0 e,
  )
  shift_then_output (some ds) int e = elim (Bool-cases (digits_value 0 ds == 0)) [
    | inl none_left ↦ (
      output_magnitude int e,
      simp (laws.eq_law, none_left) (positive_output-eq int e),
      rw ((==_iff (digits_value 0 ds) 0).0 none_left) (unshifted-Truncates int (length ds) e),
    )
    | inr some_left ↦ (
      output_magnitude (int * 10 ^ length ds + digits_value 0 ds) (e -ℤ pos (length ds)),
      simp (laws.eq_law, some_left, pow10-eq, laws.mul_law, laws.add_law, laws.sub_law, pos-mul_add)
          (positive_output-eq (int * 10 ^ length ds + digits_value 0 ds) (e -ℤ pos (length ds))),
      shifted-Truncates int (digits_value 0 ds) (length ds) e,
    )
  ]

  scale_groups-Truncates :
      (g : Groups) (scale : ℤ)
      → IsWellFormed g
      → HasNoPlus g.exponent
      → (q : ℕ) × (scale_groups big scale g ≡ some (signed (is_minus g.sign) q))
        × Truncates
            (digits_value 0 g.int_part)
            (frac_number g.frac_part)
            (frac_length g.frac_part)
            (exponent_number g.exponent +ℤ scale)
            q
  unfolding scale_groups
  scale_groups-Truncates g scale w p =
      let (q, out, bounds) =
        shift_then_output g.frac_part (digits_value 0 g.int_part)
          (exponent_number g.exponent +ℤ scale) in
      (
        q,
        rw
            (
              from_run g.int_part w.int_part,
              frac_value-eq g.frac_part w.frac_part,
              exponent_value-eq g.exponent w.exponent p,
              laws.add_law (exponent_number g.exponent) scale,
            )
            (>>=-then
                (shift_fraction big g.frac_part (pos (digits_value 0 g.int_part))
                  (pos (frac_number g.frac_part)) (exponent_number g.exponent +ℤ scale))
                (λ s. positive_output big s.0 s.1)
                (λ output. some (big.mul output (sign_value big g.sign))) out
              ∙ ap some (sign_value-eq g.sign q)),
        bounds,
      )

  -- A text that matches, with no plus sign in its exponent, stands for
  -- (int + frac / 10^k) * 10^(exponent + scale), and the parser returns that number with its
  -- fraction cut off and the sign of the text.
  pub parse_scientific-Truncates :
      (s : List ℕ) (g : Groups) (scale : ℤ)
      → match_groups s ≡ some g
      → HasNoPlus g.exponent
      → (q : ℕ) × (parse_scientific big s scale ≡ some (signed (is_minus g.sign) q))
        × Truncates
            (digits_value 0 g.int_part)
            (frac_number g.frac_part)
            (frac_length g.frac_part)
            (exponent_number g.exponent +ℤ scale)
            q
  unfolding parse_scientific
  parse_scientific-Truncates s g scale m p =
      let (q, out, bounds) = scale_groups-Truncates g scale ((match_groups_iff s g).0 m).1 p in
      (q, rw m out, bounds)

-- The exponent of a match starts with a plus sign.
abbrev pub starts_plus : Option (List ℕ × List ℕ) → Bool
starts_plus none = false
starts_plus (some ([], ds)) = false
starts_plus (some (c ∷ cs, ds)) = c == b'+'

abbrev pub has_plus : Option Groups → Bool
has_plus none = false
has_plus (some g) = starts_plus g.exponent

HasNoPlus-starts_plus : (x : Option (List ℕ × List ℕ)) → starts_plus x ≡ false → HasNoPlus x
HasNoPlus-starts_plus none h = tt
HasNoPlus-starts_plus (some ([], ds)) h = λ e. cc
HasNoPlus-starts_plus (some (c ∷ cs, ds)) h = λ e. ground arith

-- On every text without a plus sign in its exponent, two BigNumber implementations that meet the
-- documented laws give the same result, or both throw.
pub parse_scientific_agree :
    (b c : BigNumbers) (lb : IsBigNumbers b) (lc : IsBigNumbers c) (s : List ℕ) (scale : ℤ)
    → has_plus (match_groups s) ≡ false
    → parse_scientific b s scale ≡ parse_scientific c s scale
unfolding parse_scientific
parse_scientific_agree b c lb lc s scale h = elim (Option-cases (match_groups s)) [
  | inl missed ↦ rw missed refl
  | inr (g, m) ↦
      let plain = HasNoPlus-starts_plus g.exponent (rw m at h) in
      let (q, eq, tq) = parse_scientific-Truncates b lb s g scale m plain in
      let (r, er, tr) = parse_scientific-Truncates c lc s g scale m plain in
      let same = Truncates-unique _ _ _ _ q r tq tr in
      eq ∙ ap (λ (t : ℕ). some (signed (is_minus g.sign) t)) same ∙ sym er
]
