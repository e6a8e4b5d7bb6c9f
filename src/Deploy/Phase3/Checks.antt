-- ===== src/Deploy/Phase3/Checks.antt =====
-- What the tests of phase 3 accept.
use text.Mathlib.Text.{◌==◌ as str_eq}
use text.Mathlib.TextEquality.{eq_iff}
use reserve_protocol.Base.{
  String, ◌≡◌, refl, sym, ◌∙◌, ap, subst, ◌↔◌, true, ◌||◌, Option, some, List, [], ◌∷◌, map, All,
  arith,
}
use reserve_protocol.Base.Text.{is_empty}
use reserve_protocol.BigNumber.{BigNumbers}
use reserve_protocol.Errors.{Error, ok, or_throw, or_throw-eq-ok, >>=-eq-ok, ok-injective}
use reserve_protocol.Deploy.Store.{IrTokenDeployments}
use reserve_protocol.Deploy.Guards.{throw_if, require_contract}
use reserve_protocol.Deploy.Guards.Valid.{IsDeployedAt}
use reserve_protocol.Deploy.Phase3.{require_contracts, check_main}
use reserve_protocol.Chain.{Hardhat, World, call_text}
use reserve_protocol.Chain.Outcome.{IsLive}

module _ (hre : Hardhat) where
  -- The addresses that the loop lets through are those that it was given, each with code.
  pub require_contracts-IsLive :
      (label : String) (os : List (Option String)) (w : World hre.Chain) {xs : List String}
      → require_contracts hre label os w ≡ ok xs
      → All (IsLive hre w) xs × (map some xs ≡ os)
  unfolding require_contracts
  require_contracts-IsLive label [] w h =
      subst (λ xs. All (IsLive hre w) xs × (map some xs ≡ [])) (ok-injective h) (tt, refl)
  require_contracts-IsLive label (a ∷ os) w {xs} h =
      let (x, e, h₁) = >>=-eq-ok (or_throw Error.provider_error a) _ h in
      let found = or_throw-eq-ok _ a e in
      let (u, live, h₂) = >>=-eq-ok (require_contract hre w label x) _ h₁ in
      let (ys, rest, h₃) = >>=-eq-ok (require_contracts hre label os w) _ h₂ in
      let (all, same) = require_contracts-IsLive label os w rest in
      subst (λ xs. All (IsLive hre w) xs × (map some xs ≡ a ∷ os)) (ok-injective h₃)
        ((ground arith, all), cc)

  -- and it lets those through
  pub require_contracts-ok :
      (label : String) (xs : List String) (w : World hre.Chain)
      → All (IsLive hre w) xs
      → require_contracts hre label (map some xs) w ≡ ok xs
  unfolding require_contracts
  require_contracts-ok label [] w all = refl
  require_contracts-ok label (x ∷ xs) w (live, all) = rw (live, require_contracts-ok label xs w all)

  -- The addresses of the file and of the chain agree: Main, the RToken and StRSR are written down
  -- and have code, the RToken names this Main, and Main names this StRSR.
  pub record IsAgreed (d : IrTokenDeployments) (w : World hre.Chain) : Type 0 where
    pub main : IsDeployedAt hre w d.main
    pub rtoken : IsDeployedAt hre w d.components.rtoken
    pub st_rsr : IsDeployedAt hre w d.components.st_rsr
    pub main_of : hre.call_text w.chain d.components.rtoken "main" ≡ some d.main
    pub st_rsr_of : hre.call_text w.chain d.main "stRSR" ≡ some d.components.st_rsr

  -- The governance script goes on to its transaction exactly if the addresses of its file agree with
  -- the chain.
  pub check_main_iff :
      (big : BigNumbers) (d : IrTokenDeployments) (w : World hre.Chain)
      → (check_main hre big d w ≡ ok tt) ↔ IsAgreed d w
  unfolding check_main call_text
  check_main_iff big d w = (
    λ h.
        let c = d.components in
        let (u, named, h) =
          >>=-eq-ok
            (throw_if (is_empty d.main || is_empty c.rtoken || is_empty c.st_rsr)
              (Error.missing_address "deployments"))
            _ h in
        let (u₁, live₁, h) = >>=-eq-ok (require_contract hre w "Main" d.main) _ h in
        let (u₂, live₂, h) = >>=-eq-ok (require_contract hre w "RToken" c.rtoken) _ h in
        let (u₃, live₃, h) = >>=-eq-ok (require_contract hre w "StRSR" c.st_rsr) _ h in
        let (main, e₁, h) = >>=-eq-ok (call_text hre c.rtoken "main" w) _ h in
        let (st_rsr, e₂, h) = >>=-eq-ok (call_text hre main "stRSR" w) _ h in
        let same : (str_eq main d.main ≡ true) × (str_eq st_rsr c.st_rsr ≡ true) =
          (ground arith, ground arith) in
        let s₁ = (eq_iff main d.main).0 same.0 in
        let s₂ = (eq_iff st_rsr c.st_rsr).0 same.1 in
        record {
          main = (ground arith, ground arith);
          rtoken = (ground arith, ground arith);
          st_rsr = (ground arith, ground arith);
          main_of = or_throw-eq-ok _ _ e₁ ∙ ap some s₁;
          st_rsr_of =
              ap (λ m. hre.call_text w.chain m "stRSR") (sym s₁)
              ∙ or_throw-eq-ok _ _ e₂
              ∙ ap some s₂;
        },
    λ a.
        let t₁ = (eq_iff d.main d.main).1 refl in
        let t₂ = (eq_iff d.components.st_rsr d.components.st_rsr).1 refl in
        let (n₁, l₁) = a.main in
        let (n₂, l₂) = a.rtoken in
        let (n₃, l₃) = a.st_rsr in rw (n₁, n₂, n₃, l₁, l₂, l₃, a.main_of, a.st_rsr_of, t₁, t₂),
  )
