-- ===== src/Deploy/Phase3/Started.antt =====
-- 0_setup_deployments.ts of phase 3: it starts once, on a deployed FacadeWrite, and goes through
-- after a full deployment.
use reserve_protocol.Base.{
  ℕ, zero, suc, String, ◌≡◌, refl, sym, ◌∙◌, ap, false, some, All, List, arith, ◌∷◌, [],
}
use reserve_protocol.Base.Text.{Dict, lookup, insert}
use reserve_protocol.BigNumber.{BigNumbers, IsBigNumbers}
use reserve_protocol.Errors.{Error, ok, err, >>=-eq-ok, ok-injective}
use reserve_protocol.Config.{get_network_config}
use reserve_protocol.Config.Networks.{INetworkConfig}
use reserve_protocol.Config.RToken.{IrToken, rtoken_name, get_rtoken_config}
use reserve_protocol.Config.Laws.{published, rtoken_config-published}
use reserve_protocol.Deploy.Store.{
  IDeployments, IrTokenDeployments, File, deployments, rtoken, get_deployment_filename,
  get_rtoken_deployment_filename, file_exists, get_deployment_file, as_deployments,
}
use reserve_protocol.Deploy.Guards.{throw_if, get_chain_id, validate_prerequisites}
use reserve_protocol.Deploy.Guards.Valid.{
  IsDeployedAt, prerequisite_addresses, validate_prerequisites_iff,
}
use reserve_protocol.Deploy.Prepare.{check_previous}
use reserve_protocol.Deploy.Phase1.Progress.{Filled}
use reserve_protocol.Deploy.Phase1.Getters.{complete}
use reserve_protocol.Deploy.Phase3.{fresh_rtoken, open_rtoken_config, prepare_rtoken_file}
use reserve_protocol.Deploy.Phase3.Prepared.{open_published, held_deployments}
use reserve_protocol.Deploy.Phase3.Scripts.{setup_rtoken_file}
use reserve_protocol.Deploy.Full.Complete.{IsComplete}
use reserve_protocol.Chain.{Hardhat, IsHardhat, World, reads, write_file}
use reserve_protocol.Chain
use reserve_protocol.Chain.Outcome.{Runs, Runs-reads}

network_of :
    (id : String) (c : IrToken)
    → get_rtoken_config published id rtoken_name ≡ ok c
    → (network : INetworkConfig) × (get_network_config id ≡ ok network)
unfolding get_rtoken_config
network_of id c h = let (network, e, h) = >>=-eq-ok (get_network_config id) _ h in (network, e)

read_deployments :
    (files : Dict File) (name : String) {d : IDeployments}
    → lookup name files ≡ some (deployments d)
    → get_deployment_file name files ≡ ok (deployments d)
unfolding get_deployment_file
read_deployments files name h = rw h

-- A list without its first elements.
abbrev skip : {A : Type 0} → ℕ → List A → List A
skip zero xs = xs
skip (suc n) [] = []
skip (suc n) (x ∷ xs) = skip n xs

skip-All : {A : Type 0} (P : A → Type 0) (n : ℕ) (xs : List A) → All P xs → All P (skip n xs)
skip-All P zero xs a = a
skip-All P (suc n) [] a = tt
skip-All P (suc n) (x ∷ xs) (p, a) = skip-All P n xs a

-- The prerequisites are among the addresses of a whole file.
prerequisites_of :
    (hre : Hardhat) (d : IDeployments) (w : World hre.Chain)
    → Filled hre complete d w
    → All (IsDeployedAt hre w) (prerequisite_addresses d)
prerequisites_of hre d w f = skip-All (λ g. IsDeployedAt hre w (g d)) 22 complete f

module _ (hre : Hardhat) (big : BigNumbers) (laws : IsBigNumbers big) (w : World hre.Chain)
    (id : String) (chain : get_chain_id hre w ≡ ok id) where
  -- The state with a fresh file of the RToken.
  abbrev pub started : IDeployments → World hre.Chain
  started d = record w {
    files =
        insert (get_rtoken_deployment_filename id rtoken_name)
          (rtoken (fresh_rtoken d.facade_write)) w.files;
  }

  -- The script went through: there was no file of the RToken, the prerequisites and the FacadeWrite
  -- of the deployment file are deployed, and a fresh file is all that is new.
  pub record IsStarted (w' : World hre.Chain) : Type 0 where
    pub absent : file_exists (get_rtoken_deployment_filename id rtoken_name) w.files ≡ false
    pub first : IDeployments
    pub held : lookup (get_deployment_filename id) w.files ≡ some (deployments first)
    pub valid : All (IsDeployedAt hre w) (prerequisite_addresses first)
    pub facade_write : IsDeployedAt hre w first.facade_write
    pub ended : w' ≡ started first

  check_previous_iff :
      (label field : String)
      → (check_previous hre label field w ≡ ok tt → IsDeployedAt hre w field)
        × (IsDeployedAt hre w field → check_previous hre label field w ≡ ok tt)
  unfolding check_previous
  check_previous_iff label field = ground arith

  prepare_rtoken_file-IsStarted :
      (p : String × IrTokenDeployments)
      → prepare_rtoken_file hre big w ≡ ok p
      → IsStarted (record w { files = insert p.0 (rtoken p.1) w.files })
  unfolding prepare_rtoken_file
  prepare_rtoken_file-IsStarted p h =
      let (q, e₀, h) = >>=-eq-ok (open_rtoken_config hre big w) _ h in
      let name = get_rtoken_deployment_filename q.0 rtoken_name in
      let (u, e₁, h) =
        >>=-eq-ok (throw_if (file_exists name w.files) (Error.file_exists_already name)) _ h in
      let (f, e₂, h) = >>=-eq-ok (get_deployment_file (get_deployment_filename q.0) w.files) _ h in
      let (d, e₃, h) = >>=-eq-ok (as_deployments f) _ h in
      let (u₁, e₄, h) = >>=-eq-ok (validate_prerequisites hre d w) _ h in
      let (u₂, e₅, h) = >>=-eq-ok (check_previous hre "FacadeWrite" d.facade_write w) _ h in
      let (same, conf) = open_published hre big laws w id chain q e₀ in
      let absent : file_exists name w.files ≡ false = ground arith in
      let named = ap (λ i. get_rtoken_deployment_filename i rtoken_name) same in
      record {
        absent = ap (λ n. file_exists n w.files) (sym named) ∙ absent;
        first = d;
        held =
            ap (λ i. lookup (get_deployment_filename i) w.files) (sym same)
            ∙ held_deployments w.files _ e₂ e₃;
        valid = (validate_prerequisites_iff hre w d).0 e₄;
        facade_write = (check_previous_iff _ _).0 e₅;
        ended =
            ap
              (λ (p : String × IrTokenDeployments). record w {
                files = insert p.0 (rtoken p.1) w.files;
              })
              (sym (ok-injective h) ∙ ap (λ n. (n, fresh_rtoken d.facade_write)) named);
      }

  -- If the chain id is known, the script changes nothing, or it went through, see `IsStarted`.
  pub setup_rtoken_file-IsStarted :
      Runs (λ u w'. IsStarted w') (λ w'. w' ≡ w) (setup_rtoken_file hre big) w
  unfolding setup_rtoken_file write_file
  setup_rtoken_file-IsStarted =
      Runs-reads (prepare_rtoken_file hre big) refl
        λ p e. record { outcome = prepare_rtoken_file-IsStarted p e }

  -- With a configuration for the chain the start of each script goes through.
  pub open_rtoken_config-ok :
      (c : IrToken)
      → get_rtoken_config published id rtoken_name ≡ ok c
      → open_rtoken_config hre big w ≡ ok (id, c)
  unfolding open_rtoken_config
  open_rtoken_config-ok c conf =
      let (network, known) = network_of id c conf in
      rw (rtoken_config-published big laws, chain, conf, known)

  prepare_rtoken_file-ok :
      (d : IDeployments) (c : IrToken)
      → get_rtoken_config published id rtoken_name ≡ ok c
      → file_exists (get_rtoken_deployment_filename id rtoken_name) w.files ≡ false
      → lookup (get_deployment_filename id) w.files ≡ some (deployments d)
      → Filled hre complete d w
      → prepare_rtoken_file hre big w
        ≡ ok (get_rtoken_deployment_filename id rtoken_name, fresh_rtoken d.facade_write)
  unfolding prepare_rtoken_file
  prepare_rtoken_file-ok d c conf absent written filled = rw (
    open_rtoken_config-ok c conf,
    absent,
    read_deployments w.files _ written,
    (validate_prerequisites_iff hre w d).1 (prerequisites_of hre d w filled),
    (check_previous_iff "FacadeWrite" d.facade_write).1 filled.1.0,
  )

  -- After scripts/deploy.ts, on a chain with a configuration for the RToken and no file of it, the
  -- script goes through: it ends, with a fresh file for the FacadeWrite that was deployed.
  pub setup_rtoken_file-ok :
      (laws' : IsHardhat hre) (w₀ : World hre.Chain) (chain₀ : get_chain_id hre w₀ ≡ ok id)
      (all : IsComplete hre laws' w₀ id chain₀ w) (c : IrToken)
      → get_rtoken_config published id rtoken_name ≡ ok c
      → file_exists (get_rtoken_deployment_filename id rtoken_name) w.files ≡ false
      → setup_rtoken_file hre big w ≡ (ok tt, started all.first)
  unfolding setup_rtoken_file reads Chain.◌>>=◌ write_file
  setup_rtoken_file-ok laws' w₀ chain₀ all c conf absent =
      ap (λ r. elim r [ ok p ↦ write_file p.0 (rtoken p.1) w | err e ↦ (err e, w) ])
        (prepare_rtoken_file-ok all.first c conf absent all.written all.filled)
