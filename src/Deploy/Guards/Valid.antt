-- ===== src/Deploy/Guards/Valid.antt =====
-- `validatePrerequisites` and `validateImplementations` accept exactly what they mean to.
use reserve_protocol.Base.{String, ◌≡◌, ◌↔◌, Bool, true, false, not, List, [], ◌∷◌, All, arith}
use reserve_protocol.Base.Text.{is_empty}
use reserve_protocol.Errors.{Error, ok, ◌>>=◌}
use reserve_protocol.Config.{IComponents, IImplementations}
use reserve_protocol.Deploy.Store.{IDeployments}
use reserve_protocol.Deploy.Guards.{
  throw_if, validate_prerequisites, valid_components, lacks_implementations,
  validate_implementations,
}
use reserve_protocol.Chain.{Hardhat, World}

-- The addresses that each validation is about.
abbrev pub prerequisite_addresses : IDeployments → List String
prerequisite_addresses d =
    d.prerequisites.rsr ∷ d.prerequisites.rsr_feed ∷ d.prerequisites.gnosis_easy_auction ∷ []

abbrev pub component_addresses : IComponents → List String
component_addresses c =
    c.asset_registry ∷ c.backing_manager ∷ c.basket_handler ∷ c.broker ∷ c.distributor ∷ c.furnace
    ∷ c.rsr_trader ∷ c.rtoken_trader ∷ c.rtoken ∷ c.st_rsr ∷ []

abbrev pub implementation_addresses : IImplementations → List String
implementation_addresses i = i.main ∷ i.trade ∷ component_addresses i.components

module _ (P Q : String → Type 0) where
  All-zip : (xs : List String) → All P xs → All Q xs → All (λ a. P a × Q a) xs
  All-zip [] p q = tt
  All-zip (x ∷ xs) (p, ps) (q, qs) = ((p, q), All-zip xs ps qs)

  All-unzip : (xs : List String) → All (λ a. P a × Q a) xs → All P xs × All Q xs
  All-unzip [] a = (tt, tt)
  All-unzip (x ∷ xs) ((p, q), a) = let (ps, qs) = All-unzip xs a in ((p, ps), (q, qs))

lacks_iff :
    (i : IImplementations)
    → (lacks_implementations i ≡ false) ↔ All (λ a. is_empty a ≡ false) (implementation_addresses i)
unfolding lacks_implementations
lacks_iff i = ground arith

module _ (hre : Hardhat) (w : World hre.Chain) where
  -- An address that is written down and has code.
  abbrev pub IsDeployedAt : String → Type 0
  IsDeployedAt a = (is_empty a ≡ false) × (hre.has_code w.chain a ≡ true)

  -- The validation passes exactly when RSR, its feed and the EasyAuction are written down and have
  -- code.
  pub validate_prerequisites_iff :
      (d : IDeployments)
      → (validate_prerequisites hre d w ≡ ok tt) ↔ All IsDeployedAt (prerequisite_addresses d)
  unfolding validate_prerequisites
  validate_prerequisites_iff d = ground arith

  valid_components_iff :
      (c : IComponents)
      → (valid_components hre c w ≡ true)
        ↔ All (λ a. hre.has_code w.chain a ≡ true) (component_addresses c)
  unfolding valid_components
  valid_components_iff c = ground arith

  guards_iff :
      (a m t c : Bool) (e f g h : Error)
      → ((throw_if a e >>= λ _.
            (throw_if (not m) f >>= λ _. (throw_if (not t) g >>= λ _. throw_if (not c) h)))
          ≡ ok tt)
        ↔ ((a ≡ false) × (m ≡ true) × (t ≡ true) × (c ≡ true))
  guards_iff a m t c e f g h = ground arith

  -- The validation passes exactly when each of the twelve addresses is written down and has code:
  -- those of Main, of the trade and of the ten components.
  pub validate_implementations_iff :
      (d : IDeployments)
      → (validate_implementations hre d w ≡ ok tt)
        ↔ All IsDeployedAt (implementation_addresses d.implementations)
  unfolding validate_implementations
  validate_implementations_iff d =
      let i = d.implementations in
      let (to, from) =
        guards_iff (lacks_implementations i) (hre.has_code w.chain i.main)
          (hre.has_code w.chain i.trade) (valid_components hre i.components w) _ _ _ _ in
      (
        λ v.
            let (a, m, t, c) = to v in
            All-zip (λ x. is_empty x ≡ false) (λ x. hre.has_code w.chain x ≡ true)
              (implementation_addresses i) ((lacks_iff i).0 a)
              (m, (t, (valid_components_iff i.components).0 c)),
        λ all.
            let (named, live) =
              All-unzip (λ x. is_empty x ≡ false) (λ x. hre.has_code w.chain x ≡ true)
                (implementation_addresses i) all in
            from (
              (lacks_iff i).1 named,
              live.0,
              live.1.0,
              (valid_components_iff i.components).1 live.1.1,
            ),
      )
