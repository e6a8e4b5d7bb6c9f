-- ===== src/Deploy/Phase3/Prepared.antt =====
-- What the scripts of phase 3 have tested when they go on.
use text.Mathlib.Text.{◌==◌ as str_eq}
use reserve_protocol.Base.{String, ◌≡◌, refl, sym, ◌∙◌, ap, subst, not, some, arith}
use reserve_protocol.Base.Text.{Dict, lookup}
use reserve_protocol.BigNumber.{BigNumbers, IsBigNumbers}
use reserve_protocol.Errors.{Error, ok, or_throw, or_throw-eq-ok, >>=-eq-ok, ok-injective}
use reserve_protocol.Config.{get_network_config}
use reserve_protocol.Config.RToken.{IrToken, rtoken_name, rtoken_config, get_rtoken_config}
use reserve_protocol.Config.Laws.{published, rtoken_config-published}
use reserve_protocol.Deploy.Store.{
  IDeployments, IAssetCollDeployments, IrTokenDeployments, File, deployments, asset_coll, rtoken,
  get_asset_coll_deployment_filename, get_rtoken_deployment_filename, get_deployment_file,
  as_deployments, as_asset_coll, as_rtoken,
}
use reserve_protocol.Deploy.Guards.{get_chain_id}
use reserve_protocol.Deploy.Phase3.{
  RTokenRun, GovernanceRun, open_rtoken_config, open_rtoken_file, rtoken_setup, prepare_rtoken,
  check_main, prepare_governance,
}
use reserve_protocol.Deploy.Phase3.Checks.{IsAgreed, check_main_iff}
use reserve_protocol.Deploy.Phase3.Weights.{IsSetup, rtoken_setup-IsSetup}
use reserve_protocol.Chain.{Hardhat, World}

-- a file that is read, by its shape
module _ (files : Dict File) (name : String) {f : File} where
  held_rtoken :
      {d : IrTokenDeployments}
      → get_deployment_file name files ≡ ok f
      → as_rtoken f ≡ ok d
      → lookup name files ≡ some (rtoken d)
  unfolding get_deployment_file
  held_rtoken h e = ground arith

  held_asset_coll :
      {d : IAssetCollDeployments}
      → get_deployment_file name files ≡ ok f
      → as_asset_coll f ≡ ok d
      → lookup name files ≡ some (asset_coll d)
  unfolding get_deployment_file
  held_asset_coll h e = ground arith

  pub held_deployments :
      {d : IDeployments}
      → get_deployment_file name files ≡ ok f
      → as_deployments f ≡ ok d
      → lookup name files ≡ some (deployments d)
  unfolding get_deployment_file
  held_deployments h e = ground arith

module _ (hre : Hardhat) (big : BigNumbers) (laws : IsBigNumbers big) (w : World hre.Chain)
    (id : String) (chain : get_chain_id hre w ≡ ok id) where
  -- The start of each script: the chain id, and the published configuration for it.
  pub open_published :
      (p : String × IrToken)
      → open_rtoken_config hre big w ≡ ok p
      → (p.0 ≡ id) × (get_rtoken_config published id rtoken_name ≡ ok p.1)
  unfolding open_rtoken_config
  open_published p h =
      let (table, e₀, h) = >>=-eq-ok (or_throw Error.number_error (rtoken_config big)) _ h in
      let (i, e₁, h) = >>=-eq-ok (get_chain_id hre w) _ h in
      let (conf, e₂, h) = >>=-eq-ok (get_rtoken_config table i rtoken_name) _ h in
      let (network, e₃, h) = >>=-eq-ok (get_network_config i) _ h in
      let same : i ≡ id = ok-injective (sym e₁ ∙ chain) in
      let loaded : table ≡ published =
        ground (arith, or_throw-eq-ok _ _ e₀, rtoken_config-published big laws) in
      subst
        (λ (p : String × IrToken).
          (p.0 ≡ id) × (get_rtoken_config published id rtoken_name ≡ ok p.1))
        (ok-injective h)
        (
          same,
          ap (λ t. get_rtoken_config t id rtoken_name) (sym loaded)
              ∙ ap (λ j. get_rtoken_config table j rtoken_name) (sym same)
              ∙ e₂,
        )

  abbrev pub rtoken_file : String
  rtoken_file = get_rtoken_deployment_filename id rtoken_name

  -- What 1_deploy_rtoken.ts has tested: it works on the file of its RToken with the published
  -- configuration, and its set-up comes from the file of assets and collateral, see `IsSetup`.
  pub record IsPrepared (run : RTokenRun) : Type 0 where
    pub file : run.file ≡ rtoken_file
    pub held : lookup rtoken_file w.files ≡ some (rtoken run.deployments)
    pub token : IrToken
    pub published_as : get_rtoken_config published id rtoken_name ≡ ok token
    pub config : run.config ≡ token.config
    pub coll : IAssetCollDeployments
    pub coll_held : lookup (get_asset_coll_deployment_filename id) w.files ≡ some (asset_coll coll)
    pub setup : IsSetup big laws hre coll w run.setup

  -- If the chain id is known, 1_deploy_rtoken.ts goes on from its tests to the transaction only with
  -- a run that is prepared, see `IsPrepared`.
  pub prepare_rtoken-IsPrepared :
      (run : RTokenRun) → prepare_rtoken hre big w ≡ ok run → IsPrepared run
  unfolding prepare_rtoken open_rtoken_file
  prepare_rtoken-IsPrepared run h =
      let (p, e₀, h) = >>=-eq-ok (open_rtoken_config hre big w) _ h in
      let (d, e₁, h) = >>=-eq-ok (open_rtoken_file hre big p.0 w) _ h in
      let (f, e₂, h) =
        >>=-eq-ok (get_deployment_file (get_asset_coll_deployment_filename p.0) w.files) _ h in
      let (coll, e₃, h) = >>=-eq-ok (as_asset_coll f) _ h in
      let (setup, e₄, h) = >>=-eq-ok (rtoken_setup hre big coll w) _ h in
      let (g, e₅, e₆) =
        >>=-eq-ok (get_deployment_file (get_rtoken_deployment_filename p.0 rtoken_name) w.files) _
          e₁ in
      let (same, conf) = open_published p e₀ in
      let name = ap (λ i. get_rtoken_deployment_filename i rtoken_name) same in
      let coll_name = ap get_asset_coll_deployment_filename same in
      subst IsPrepared (ok-injective h) (record {
        file = name;
        held = ap (λ n. lookup n w.files) (sym name) ∙ held_rtoken w.files _ e₅ e₆;
        token = p.1;
        published_as = conf;
        config = refl;
        coll = coll;
        coll_held = ap (λ n. lookup n w.files) (sym coll_name) ∙ held_asset_coll w.files _ e₂ e₃;
        setup = rtoken_setup-IsSetup big laws hre coll w setup e₄;
      })

  -- What 2_deploy_governance.ts has tested, and what it asks for: the parameters of the published
  -- configuration, and to unpause the RToken on every chain but the main network.
  pub record IsGovernancePrepared (run : GovernanceRun) : Type 0 where
    pub file : run.file ≡ rtoken_file
    pub held : lookup rtoken_file w.files ≡ some (rtoken run.deployments)
    pub agreed : IsAgreed hre run.deployments w
    pub token : IrToken
    pub published_as : get_rtoken_config published id rtoken_name ≡ ok token
    pub params : run.setup.params ≡ token.gov
    pub rtoken : run.setup.rtoken ≡ run.deployments.components.rtoken
    pub unpause : run.setup.unpause ≡ not (str_eq id "1")

  -- If the chain id is known, 2_deploy_governance.ts goes on to its transaction only with a run that
  -- is prepared, see `IsGovernancePrepared`.
  pub prepare_governance-IsGovernancePrepared :
      (run : GovernanceRun) → prepare_governance hre big w ≡ ok run → IsGovernancePrepared run
  unfolding prepare_governance open_rtoken_file
  prepare_governance-IsGovernancePrepared run h =
      let (p, e₀, h) = >>=-eq-ok (open_rtoken_config hre big w) _ h in
      let (d, e₁, h) = >>=-eq-ok (open_rtoken_file hre big p.0 w) _ h in
      let (u, e₂, h) = >>=-eq-ok (check_main hre big d w) _ h in
      let (g, e₅, e₆) =
        >>=-eq-ok (get_deployment_file (get_rtoken_deployment_filename p.0 rtoken_name) w.files) _
          e₁ in
      let (same, conf) = open_published p e₀ in
      let name = ap (λ i. get_rtoken_deployment_filename i rtoken_name) same in
      subst IsGovernancePrepared (ok-injective h) (record {
        file = name;
        held = ap (λ n. lookup n w.files) (sym name) ∙ held_rtoken w.files _ e₅ e₆;
        agreed = (check_main_iff hre big d w).0 e₂;
        token = p.1;
        published_as = conf;
        params = refl;
        rtoken = refl;
        unpause = ap (λ i. not (str_eq i "1")) same;
      })
