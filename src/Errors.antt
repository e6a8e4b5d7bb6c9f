-- ===== src/Errors.antt =====
-- What the program throws, and results. An error keeps what tells its message apart from the others.
use reserve_protocol.Base.{String, ◌≡◌, refl, ◌⊎◌, inl, inr, Option, none, some}

pub data Error : Type 0 where
  missing_network : Error
  rtoken_unavailable : String → Error
  type_error : Error
  file_exists_already : String → Error
  file_missing : String → Error
  file_unreadable : String → Error
  missing_address : String → Error
  contract_not_found : String → Error
  missing_argument : String → Error
  number_error : Error
  provider_error : Error
  deploy_failed : String → Error
  call_failed : String → Error
  invalid_addresses : Error
  development_chain : Error
  check_failed : String → Error
  no_events : Error
  no_event_named : String → Error
  no_event_arguments : Error
  argument_not_found : String → Error
  argument_differs : String → Error
  undefined_thrown : Error
  event_expected : String → Error
  event_unexpected : String → Error

-- The outcome of code that may throw.
pub data Result (A : Type 0) : Type 0 where
  err : Error → Result A
  ok : A → Result A

module _ {A : Type 0} where
  -- a value that may be missing, and the error thrown where it is
  abbrev pub or_throw : Error → Option A → Result A
  or_throw e none = err e
  or_throw e (some a) = ok a

  pub or_throw-eq-ok : (e : Error) (o : Option A) {a : A} → or_throw e o ≡ ok a → o ≡ some a
  or_throw-eq-ok e none h = cc
  or_throw-eq-ok e (some b) h = cc

pub Result-cases :
    {A : Type 0} (r : Result A) → ((e : Error) × (r ≡ err e)) ⊎ ((a : A) × (r ≡ ok a))
Result-cases (err e) = inl (e, refl)
Result-cases (ok a) = inr (a, refl)

pub ok-injective : {A : Type 0} {a b : A} → ok a ≡ ok b → a ≡ b
ok-injective h = cc

module _ {A B : Type 0} where
  -- The rest of the code runs on what was returned, and not after a throw.
  infixl 5 ◌>>=◌
  abbrev pub ◌>>=◌ : Result A → (A → Result B) → Result B
  err e >>= rest = err e
  ok a >>= rest = rest a

  -- What returned went through both parts.
  pub >>=-eq-ok :
      (m : Result A) (rest : A → Result B) {b : B}
      → (m >>= rest) ≡ ok b
      → (a : A) × (m ≡ ok a) × (rest a ≡ ok b)
  >>=-eq-ok (err e) rest h = cc
  >>=-eq-ok (ok a) rest h = (a, refl, h)

-- a test, and the code after it
infixl 5 ◌>>◌
abbrev pub ◌>>◌ : {B : Type 0} → Result (Unit {0}) → Result B → Result B
test >> rest = test >>= λ passed. rest
