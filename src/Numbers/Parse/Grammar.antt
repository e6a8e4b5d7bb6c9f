-- ===== src/Numbers/Parse/Grammar.antt =====
-- The matcher of `_parseScientific` accepts exactly the texts of its grammar.
use reserve_protocol.Base.{
  ℕ, ◌≡◌, refl, false, Option, none, some, List, [], ◌∷◌, ◌++◌, ◌⊎◌, inl, inr, ◌↔◌, arith, ◌==◌,
  All, Bool-cases, subst, sym, ap, ◌∙◌, ==_iff,
}
use mathlib.Core.List.{append_assoc, append-nil}
use mathlib.Core.Path.{ap₂}
use mathlib.Core.Option.{some-injective}
use reserve_protocol.BigNumber.{IsDigit}
use reserve_protocol.Numbers.{◌>>=◌}
use reserve_protocol.Numbers.Parse.{
  is_digit, at_least_one, at_end, scan_sign, span_digits, scan_digits, scan_fraction, scan_exponent,
  Groups, match_groups,
}

-- A run of at least one digit, and an optional sign.
abbrev pub IsRun : List ℕ → Type 0
IsRun [] = ⊥
IsRun (d ∷ ds) = All IsDigit (d ∷ ds)

abbrev pub IsSign : List ℕ → Type 0
IsSign s = (s ≡ []) ⊎ (s ≡ b'+' ∷ []) ⊎ (s ≡ b'-' ∷ [])

abbrev pub IsFraction : Option (List ℕ) → Type 0
IsFraction none = Unit
IsFraction (some ds) = IsRun ds

abbrev pub IsExponent : Option (List ℕ × List ℕ) → Type 0
IsExponent none = Unit
IsExponent (some (sign, ds)) = IsSign sign × IsRun ds

pub record IsWellFormed (g : Groups) : Type 0 where
  pub sign : IsSign g.sign
  pub int_part : IsRun g.int_part
  pub frac_part : IsFraction g.frac_part
  pub exponent : IsExponent g.exponent

abbrev pub render_fraction : Option (List ℕ) → List ℕ
render_fraction none = []
render_fraction (some ds) = b'.' ∷ ds

abbrev pub render_exponent : Option (List ℕ × List ℕ) → List ℕ
render_exponent none = []
render_exponent (some (sign, ds)) = b'e' ∷ (sign ++ ds)

-- <sign><int>(.<frac>)?(e<exponent>)?
abbrev pub render : Groups → List ℕ
render g = g.sign ++ (g.int_part ++ (render_fraction g.frac_part ++ render_exponent g.exponent))

-- The next character, if there is one, is no digit.
abbrev Stops : List ℕ → Type 0
Stops [] = Unit
Stops (c ∷ cs) = is_digit c ≡ false

span_digits-append :
    (ds rest : List ℕ) → All IsDigit ds → Stops rest → span_digits (ds ++ rest) ≡ (ds, rest)
unfolding span_digits
span_digits-append [] [] a h = refl
span_digits-append [] (c ∷ cs) a h = ground arith
span_digits-append (d ∷ ds) rest a h = ground (arith, span_digits-append ds rest a.1 h)

scan_digits-append :
    (ds rest : List ℕ) → IsRun ds → Stops rest → scan_digits (ds ++ rest) ≡ some (ds, rest)
unfolding scan_digits
scan_digits-append [] rest a h = elim a [ ]
scan_digits-append (d ∷ ds) rest a h = rw (span_digits-append (d ∷ ds) rest a h)

-- What was scanned is a prefix of digits, and what follows it stops them.
span_digits_sound :
    (s : List ℕ) → (span_digits s).0 ++ (span_digits s).1 ≡ s × All IsDigit (span_digits s).0
unfolding span_digits
span_digits_sound [] = (refl, tt)
span_digits_sound (c ∷ cs) = let (e, a) = span_digits_sound cs in ground arith

at_least_one_sound :
    (p : List ℕ × List ℕ) (s ds rest : List ℕ)
    → p.0 ++ p.1 ≡ s
    → All IsDigit p.0
    → at_least_one p ≡ some (ds, rest)
    → (ds ++ rest ≡ s) × IsRun ds
at_least_one_sound ([], r) s ds rest e a h = cc
at_least_one_sound (d ∷ xs, r) s ds rest e a h =
    subst (λ (m : List ℕ × List ℕ). (m.0 ++ m.1 ≡ s) × IsRun m.0) (some-injective _ _ h) (e, a)

scan_digits_sound :
    (s ds rest : List ℕ) → scan_digits s ≡ some (ds, rest) → (ds ++ rest ≡ s) × IsRun ds
unfolding scan_digits
scan_digits_sound s ds rest h =
    let (e, a) = span_digits_sound s in at_least_one_sound (span_digits s) s ds rest e a h

scan_sign-append :
    (sign : List ℕ) (d : ℕ) (rest : List ℕ)
    → IsSign sign
    → IsDigit d
    → scan_sign (sign ++ d ∷ rest) ≡ (sign, d ∷ rest)
scan_sign-append sign d rest (inl e) h = rw e (ground arith)
scan_sign-append sign d rest (inr (inl e)) h = rw e refl
scan_sign-append sign d rest (inr (inr e)) h = rw e refl

scan_sign_sound : (s : List ℕ) → ((scan_sign s).0 ++ (scan_sign s).1 ≡ s) × IsSign (scan_sign s).0
scan_sign_sound [] = (refl, inl refl)
scan_sign_sound (c ∷ cs) = ground arith

-- The signed run of an exponent or of the whole part.
scan_run-append :
    (sign ds rest : List ℕ)
    → IsSign sign
    → IsRun ds
    → scan_sign (sign ++ (ds ++ rest)) ≡ (sign, ds ++ rest)
scan_run-append sign [] rest s a = elim a [ ]
scan_run-append sign (d ∷ ds) rest s a = scan_sign-append sign d (ds ++ rest) s a.0

scan_sign_run : (sign ds : List ℕ) → IsSign sign → IsRun ds → scan_sign (sign ++ ds) ≡ (sign, ds)
scan_sign_run sign [] s a = elim a [ ]
scan_sign_run sign (d ∷ ds) s a = scan_sign-append sign d ds s a.0

scan_digits_run : (ds : List ℕ) → IsRun ds → scan_digits ds ≡ some (ds, [])
scan_digits_run ds a = rw (append-nil ds) at (scan_digits-append ds [] a tt)

scan_exponent-render :
    (x : Option (List ℕ × List ℕ)) → IsExponent x → scan_exponent (render_exponent x) ≡ some (x, [])
unfolding scan_exponent
scan_exponent-render none h = refl
scan_exponent-render (some (sign, ds)) (s, a) = rw (scan_sign_run sign ds s a, scan_digits_run ds a)

Stops-render_exponent : (x : Option (List ℕ × List ℕ)) → Stops (render_exponent x)
Stops-render_exponent none = tt
Stops-render_exponent (some x) = refl

scan_fraction-render :
    (f : Option (List ℕ)) (x : Option (List ℕ × List ℕ))
    → IsFraction f
    → scan_fraction (render_fraction f ++ render_exponent x) ≡ some (f, render_exponent x)
unfolding scan_fraction
scan_fraction-render none none h = refl
scan_fraction-render none (some x) h = refl
scan_fraction-render (some ds) x h =
    rw (scan_digits-append ds (render_exponent x) h (Stops-render_exponent x))

Stops-render_fraction :
    (f : Option (List ℕ)) (x : Option (List ℕ × List ℕ))
    → Stops (render_fraction f ++ render_exponent x)
Stops-render_fraction none x = Stops-render_exponent x
Stops-render_fraction (some ds) x = refl

match_groups-render : (g : Groups) → IsWellFormed g → match_groups (render g) ≡ some g
unfolding match_groups
match_groups-render g w = rw (
  scan_run-append g.sign g.int_part _ w.sign w.int_part,
  scan_digits-append g.int_part _ w.int_part (Stops-render_fraction g.frac_part g.exponent),
  scan_fraction-render g.frac_part g.exponent w.frac_part,
  scan_exponent-render g.exponent w.exponent,
)

-- Inversion of a successful bind.
>>=-eq-some :
    {A B : Type 0} (m : Option A) (f : A → Option B) {b : B}
    → (m >>= f) ≡ some b
    → (a : A) × (m ≡ some a) × (f a ≡ some b)
>>=-eq-some none f h = cc
>>=-eq-some (some a) f h = (a, refl, h)

some_transport {ℓ} : {A : Type 0} (P : A → Type ℓ) {a b : A} → some a ≡ some b → P a → P b
some_transport P e p = subst P (some-injective _ _ e) p

abbrev ScansFraction : List ℕ → Option (List ℕ) × List ℕ → Type 0
ScansFraction s (f, rest) = (render_fraction f ++ rest ≡ s) × IsFraction f

scan_fraction_sound :
    (s : List ℕ) (m : Option (List ℕ) × List ℕ) → scan_fraction s ≡ some m → ScansFraction s m
unfolding scan_fraction
scan_fraction_sound [] m h = some_transport (ScansFraction []) h (refl, tt)
scan_fraction_sound (c ∷ cs) m h = elim (Bool-cases (c == b'.')) [
  | inl dot ↦
      let (d, e, k) = >>=-eq-some (scan_digits cs) _ (rw dot at h) in
      let (same, run) = scan_digits_sound cs d.0 d.1 e in
      some_transport (ScansFraction (c ∷ cs)) k (ap₂ ◌∷◌ (sym ((==_iff c b'.').0 dot)) same, run)
  | inr other ↦ some_transport (ScansFraction (c ∷ cs)) (rw other at h) (refl, tt)
]

abbrev ScansExponent : List ℕ → Option (List ℕ × List ℕ) × List ℕ → Type 0
ScansExponent s (x, rest) = (render_exponent x ++ rest ≡ s) × IsExponent x

scan_exponent_sound :
    (s : List ℕ) (m : Option (List ℕ × List ℕ) × List ℕ)
    → scan_exponent s ≡ some m
    → ScansExponent s m
unfolding scan_exponent
scan_exponent_sound [] m h = some_transport (ScansExponent []) h (refl, tt)
scan_exponent_sound (c ∷ cs) m h = elim (Bool-cases (c == b'e')) [
  | inl dot ↦
      let (d, e, k) = >>=-eq-some (scan_digits (scan_sign cs).1) _ (rw dot at h) in
      let (same, run) = scan_digits_sound _ d.0 d.1 e in
      let (signed, sign) = scan_sign_sound cs in
      some_transport (ScansExponent (c ∷ cs)) k (
        ap₂ ◌∷◌ (sym ((==_iff c b'e').0 dot))
            (append_assoc _ d.0 d.1 ∙ ap (λ t. (scan_sign cs).0 ++ t) same ∙ signed),
        (sign, run),
      )
  | inr other ↦ some_transport (ScansExponent (c ∷ cs)) (rw other at h) (refl, tt)
]

at_end_sound : (g : Groups) (s : List ℕ) (r : Groups) → at_end g s ≡ some r → (s ≡ []) × (g ≡ r)
at_end_sound g [] r h = (refl, some-injective _ _ h)
at_end_sound g (c ∷ cs) r h = cc

match_groups_sound :
    (s : List ℕ) (g : Groups) → match_groups s ≡ some g → (render g ≡ s) × IsWellFormed g
unfolding match_groups
match_groups_sound s g h =
    let (signed, sign) = scan_sign_sound s in
    let (i, ei, hi) = >>=-eq-some (scan_digits (scan_sign s).1) _ h in
    let (f, ef, hf) = >>=-eq-some (scan_fraction i.1) _ hi in
    let (x, ex, hx) = >>=-eq-some (scan_exponent f.1) _ hf in
    let (int_same, int_run) = scan_digits_sound _ i.0 i.1 ei in
    let (frac_same, frac_ok) = scan_fraction_sound _ f ef in
    let (exp_same, exp_ok) = scan_exponent_sound _ x ex in
    let (over, same) = at_end_sound _ x.1 g hx in
    subst (λ (r : Groups). (render r ≡ s) × IsWellFormed r) same
      (
        ap (λ t. (scan_sign s).0 ++ t)
              (ap (λ t. i.0 ++ t)
                  (ap (λ t. render_fraction f.0 ++ t)
                      (sym (append-nil _)
                        ∙ ap (λ t. render_exponent x.0 ++ t) (sym over)
                        ∙ exp_same)
                    ∙ frac_same)
                ∙ int_same)
            ∙ signed,
        record { sign = sign; int_part = int_run; frac_part = frac_ok; exponent = exp_ok },
      )

-- The matcher finds the groups `g` in a text exactly when the text is an optional sign, digits,
-- optionally a point and digits, and optionally an "e", a sign and digits, with the parts `g`.
pub match_groups_iff :
    (s : List ℕ) (g : Groups) → (match_groups s ≡ some g) ↔ ((render g ≡ s) × IsWellFormed g)
match_groups_iff s g = (
  match_groups_sound s g,
  λ h. subst (λ (t : List ℕ). match_groups t ≡ some g) h.0 (match_groups-render g h.1),
)
