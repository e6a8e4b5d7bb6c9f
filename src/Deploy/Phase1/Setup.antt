-- ===== src/Deploy/Phase1/Setup.antt =====
-- 0_setup_deployments.ts: it starts a deployment once, from contracts that are there.
use reserve_protocol.Base.{
  String, ◌≡◌, refl, sym, ap, subst, true, false, Option, none, some, arith,
}
use reserve_protocol.Base.Text.{lookup}
use reserve_protocol.Errors.{Error, Result, ok, err, ◌>>=◌, ◌>>◌, >>=-eq-ok, ok-injective}
use reserve_protocol.Config.Networks.{INetworkConfig}
use reserve_protocol.Config.{get_network_config}
use reserve_protocol.Deploy.Store.{IDeployments, deployments, get_deployment_filename, file_exists}
use reserve_protocol.Deploy.Guards.{require_truthy, require_contract, get_chain_id}
use reserve_protocol.Deploy.Guards.Valid.{IsDeployedAt}
use reserve_protocol.Deploy.Prepare.{prepare_setup, setup_from}
use reserve_protocol.Deploy.Phase1.{setup_deployments}
use reserve_protocol.Deploy.Phase1.Progress.{Filled, Stage, fresh-Stage}
use reserve_protocol.Deploy.Phase1.Getters.{with_prerequisites}
use reserve_protocol.Chain.{Hardhat, World, Script, reads, write_file}
use reserve_protocol.Chain
use reserve_protocol.Chain.Outcome.{Runs, Runs-reads}

module _ (hre : Hardhat) (w : World hre.Chain) where
  -- `if (!address) throw …` and `if (!(await isValidContract(hre, address))) throw …`
  require_deployed :
      {B C : Type 0} (e : Error) (label : String) (o : Option String) (f : String → Result B)
      (b : B)
      → (require_truthy e o >>= λ a. require_contract hre w label a >> f a) ≡ ok b
      → ((a : String) → IsDeployedAt hre w a → f a ≡ ok b → C)
      → C
  require_deployed e label none f b h k = cc
  require_deployed e label (some a) f b h k = k a (ground arith, ground arith) (ground arith)

  setup_from-Filled :
      (config : INetworkConfig) (name : String) (p : String × IDeployments)
      → setup_from hre config name w ≡ ok p
      → (p.0 ≡ name) × Filled hre with_prerequisites p.1 w
  unfolding setup_from
  setup_from-Filled config name p h =
      require_deployed _ _ (lookup "RSR" config.tokens) _ p h λ rsr d h.
        require_deployed _ _ (lookup "RSR" config.chainlink_feeds) _ p h λ feed d₁ h.
          require_deployed _ _ config.gnosis_easy_auction _ p h λ gnosis d₂ h.
            subst (λ p. (p.0 ≡ name) × Filled hre with_prerequisites p.1 w) (ok-injective h)
              (refl, (d, (d₁, (d₂, tt))))

  module _ (id : String) (chain : get_chain_id hre w ≡ ok id) where
    setup_named :
        (p : String × IDeployments)
        → prepare_setup hre w ≡ ok p
        → (file_exists (get_deployment_filename id) w.files ≡ false)
          × (config : INetworkConfig) × (setup_from hre config (get_deployment_filename id) w
              ≡ ok p)
    unfolding prepare_setup
    setup_named p h =
        let (i, e₀, h₁) = >>=-eq-ok (get_chain_id hre w) _ h in
        let same : i ≡ id = ground arith in
        let (config, e₁, h₂) = >>=-eq-ok (get_network_config i) _ h₁ in
        subst
          (λ i.
            (file_exists (get_deployment_filename i) w.files ≡ false)
            × (config : INetworkConfig) × (setup_from hre config (get_deployment_filename i) w
                ≡ ok p))
          same (ground arith, config, ground arith)

    -- The script either changes nothing, or leaves a file of the chain whose three prerequisites
    -- are written down and have code, and touches no other file.
    pub setup-Stage :
        Runs
          (λ u w'. Stage hre (get_deployment_filename id) w with_prerequisites w')
          (λ w'. w' ≡ w)
          (setup_deployments hre)
          w
    unfolding setup_deployments
    setup-Stage = Runs-reads (prepare_setup hre) refl λ p e.
        let (absent, config, h) = setup_named p e in
        let (named, filled) = setup_from-Filled config (get_deployment_filename id) p h in
        subst
          (λ n.
            Runs (λ u w'. Stage hre (get_deployment_filename id) w with_prerequisites w')
              (λ w'. w' ≡ w) (write_file n (deployments p.1)) w)
          (sym named) (fresh-Stage hre (get_deployment_filename id) w with_prerequisites p.1 filled)

    setup_refused :
        (config : INetworkConfig)
        → get_network_config id ≡ ok config
        → file_exists (get_deployment_filename id) w.files ≡ true
        → prepare_setup hre w ≡ err (Error.file_exists_already (get_deployment_filename id))
    unfolding prepare_setup
    setup_refused config known h = ground arith

    -- A file that is there is never written over: on a chain with a network configuration the
    -- script throws that the file exists, and the state is as it was.
    pub setup_deployments-kept :
        (config : INetworkConfig)
        → get_network_config id ≡ ok config
        → file_exists (get_deployment_filename id) w.files ≡ true
        → setup_deployments hre w
          ≡ (err (Error.file_exists_already (get_deployment_filename id)), w)
    unfolding setup_deployments reads Chain.◌>>=◌
    setup_deployments-kept config known h =
        ap (λ r. elim r [ ok p ↦ write_file p.0 (deployments p.1) w | err e ↦ (err e, w) ])
          (setup_refused config known h)
