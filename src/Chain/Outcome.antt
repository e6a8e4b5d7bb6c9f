-- ===== src/Chain/Outcome.antt =====
-- What a script ensures, by how it ends, and the rules for its steps.
use reserve_protocol.Base.{String, ◌≡◌, refl, subst, true, false, Option, none, some}
use reserve_protocol.Base.Text.{is_empty}
use reserve_protocol.Errors.{Error, Result, ok, err}
use reserve_protocol.Chain.{
  Creation, Hardhat, IsHardhat, World, Script, pure, ◌>>=◌, ◌>>◌, reads, deploy,
}

module _ {C : Type 0} where
  -- `Q` of the result and the state if the script ends, `E` of the state if it throws.
  abbrev pub Outcome :
      {A : Type 0} → (A → World C → Type 0) → (World C → Type 0) → Result A × World C → Type 0
  Outcome Q E (ok a, w) = Q a w
  Outcome Q E (err e, w) = E w

  Outcome-next :
      {A B : Type 0} (Q : A → World C → Type 0) (E : World C → Type 0) (R : B → World C → Type 0)
      (f : A → Script C B) (r : Result A × World C)
      → Outcome Q E r
      → ((a : A) (w : World C) → Q a w → Outcome R E (f a w))
      → Outcome R E (elim r.0 [ ok a ↦ f a r.1 | err e ↦ (err e, r.1) ])
  Outcome-next Q E R f (ok a, w) h k = k a w h
  Outcome-next Q E R f (err e, w) h k = h

  Outcome-read :
      {A B : Type 0} (E : World C → Type 0) (R : B → World C → Type 0) (r : Result A)
      (f : A → Script C B) (w : World C)
      → E w
      → ((a : A) → r ≡ ok a → Outcome R E (f a w))
      → Outcome R E (elim r [ ok a ↦ f a w | err e ↦ (err e, w) ])
  Outcome-read E R (ok a) f w e k = k a refl
  Outcome-read E R (err x) f w e k = e

  Outcome-weaken :
      {A : Type 0} (Q R : A → World C → Type 0) (E F : World C → Type 0) (r : Result A × World C)
      → Outcome Q E r
      → ((a : A) (w : World C) → Q a w → R a w)
      → ((w : World C) → E w → F w)
      → Outcome R F r
  Outcome-weaken Q R E F (ok a, w) h q e = q a w h
  Outcome-weaken Q R E F (err x, w) h q e = e w h

module _ {C : Type 0} where
  -- The same for a script and the state that it starts from.
  pub record Runs {A : Type 0} (Q : A → World C → Type 0) (E : World C → Type 0) (m : Script C A)
      (w : World C) : Type 0 where
    pub outcome : Outcome Q E (m w)

  module _ {A B : Type 0} {E : World C → Type 0} {R : B → World C → Type 0} where
    pub Runs-bind :
        (Q : A → World C → Type 0) {m : Script C A} {f : A → Script C B} {w : World C}
        → Runs Q E m w
        → ((a : A) (w' : World C) → Q a w' → Runs R E (f a) w')
        → Runs R E (m >>= f) w
    unfolding ◌>>=◌
    Runs-bind Q {m} {f} {w} h k = record {
      outcome = Outcome-next Q E R f (m w) h.outcome (λ a w' q. (k a w' q).outcome);
    }

    pub Runs-then :
        (Q : A → World C → Type 0) {m : Script C A} {k : Script C B} {w : World C}
        → Runs Q E m w
        → ((a : A) (w' : World C) → Q a w' → Runs R E k w')
        → Runs R E (m >> k) w
    unfolding ◌>>◌
    Runs-then Q h k = Runs-bind Q h k

    -- A part that reads only: what follows starts from the same state.
    pub Runs-reads :
        (g : World C → Result A) {f : A → Script C B} {w : World C}
        → E w
        → ((a : A) → g w ≡ ok a → Runs R E (f a) w)
        → Runs R E (reads g >>= f) w
    unfolding ◌>>=◌ reads
    Runs-reads g {f} {w} e k = record {
      outcome = Outcome-read E R (g w) f w e (λ a e'. (k a e').outcome);
    }

  pub Runs-check :
      {A B : Type 0} {E : World C → Type 0} {R : B → World C → Type 0} (g : World C → Result A)
      {k : Script C B} {w : World C}
      → E w
      → ((a : A) → g w ≡ ok a → Runs R E k w)
      → Runs R E (reads g >> k) w
  unfolding ◌>>◌
  Runs-check g e k = Runs-reads g e k

  Outcome-ok :
      {A : Type 0} (Q : A → World C → Type 0) (E : World C → Type 0) (r : Result A × World C)
      {a : A} {w : World C}
      → Outcome Q E r
      → r ≡ (ok a, w)
      → Q a w
  Outcome-ok Q E r h e = subst (Outcome Q E) e h

  -- What holds at the end of a script that is known to end.
  pub Runs-ok :
      {A : Type 0} (Q : A → World C → Type 0) {E : World C → Type 0} {m : Script C A} {w : World C}
      {a : A} {w' : World C}
      → Runs Q E m w
      → m w ≡ (ok a, w')
      → Q a w'
  Runs-ok Q {E} {m} {w} r h = Outcome-ok Q E (m w) r.outcome h

  Outcome-any : {A : Type 0} (r : Result A × World C) → Outcome (λ a w. Unit {0}) (λ w. Unit {0}) r
  Outcome-any (ok a, w) = tt
  Outcome-any (err e, w) = tt

  -- a script of which nothing needs to be known
  pub Runs-any :
      {A : Type 0} (m : Script C A) (w : World C) → Runs (λ a w. Unit {0}) (λ w. Unit {0}) m w
  Runs-any m w = record { outcome = Outcome-any (m w) }

  pub Runs-weaken :
      {A : Type 0} (Q R : A → World C → Type 0) (E F : World C → Type 0) {m : Script C A}
      {w : World C}
      → Runs Q E m w
      → ((a : A) (w : World C) → Q a w → R a w)
      → ((w : World C) → E w → F w)
      → Runs R F m w
  Runs-weaken Q R E F {m} {w} h q e = record {
    outcome = Outcome-weaken Q R E F (m w) h.outcome q e;
  }

  module _ {A : Type 0} {E : World C → Type 0} where
    pub Runs-pure : (Q : A → World C → Type 0) {a : A} {w : World C} → Q a w → Runs Q E (pure a) w
    unfolding pure
    Runs-pure Q q = record { outcome = q }

module _ (hre : Hardhat) where
  sent_lem :
      (c : Creation) (w : World hre.Chain) (o : Option (String × hre.Chain))
      → Outcome
          (λ a w'. o ≡ some (a, w'.chain))
          (λ w'. Unit {0})
          (elim o [
            | none ↦ (err (Error.deploy_failed c.contract), w)
            | some (a, chain) ↦ (ok a, record w { chain = chain })
          ])
  sent_lem c w none = tt
  sent_lem c w (some (a, chain)) = refl

  -- What was deployed, and what came back.
  pub deploy-sent :
      (c : Creation) (w : World hre.Chain)
      → Runs (λ a w'. hre.deploy c w.chain ≡ some (a, w'.chain)) (λ w'. Unit {0}) (deploy hre c) w
  unfolding deploy
  deploy-sent c w = record { outcome = sent_lem c w (hre.deploy c w.chain) }

  -- The code at an address.
  abbrev pub IsLive : World hre.Chain → String → Type 0
  IsLive w a = hre.has_code w.chain a ≡ true

  -- Every address that had code has it still.
  abbrev pub Extends : World hre.Chain → World hre.Chain → Type 0
  Extends w w' = (b : String) → IsLive w b → IsLive w' b

  -- A deployment that went through: new code, all the old code, and no file changed.
  pub record IsDeployed (w : World hre.Chain) (a : String) (w' : World hre.Chain) : Type 0 where
    pub files : w'.files ≡ w.files
    pub extends : Extends w w'
    pub live : IsLive w' a
    pub named : is_empty a ≡ false
    pub network : (method : String) → hre.send w'.chain method ≡ hre.send w.chain method

  module _ (laws : IsHardhat hre) where
    deploy_lem :
        (c : Creation) (w : World hre.Chain) (o : Option (String × hre.Chain))
        → hre.deploy c w.chain ≡ o
        → Outcome
            (IsDeployed w)
            (λ w'. w' ≡ w)
            (elim o [
              | none ↦ (err (Error.deploy_failed c.contract), w)
              | some (a, chain) ↦ (ok a, record w { chain = chain })
            ])
    deploy_lem c w none e = refl
    deploy_lem c w (some (a, chain')) e = record {
      files = refl;
      extends = λ b live. laws.kept c w.chain a chain' b e live;
      live = (laws.deployed c w.chain a chain' e).0;
      named = (laws.deployed c w.chain a chain' e).1;
      network = λ method. laws.same_network c w.chain a chain' method e;
    }

    pub deploy-IsDeployed :
        (c : Creation) (w : World hre.Chain) → Runs (IsDeployed w) (λ w'. w' ≡ w) (deploy hre c) w
    unfolding deploy
    deploy-IsDeployed c w = record { outcome = deploy_lem c w (hre.deploy c w.chain) refl }
