-- ===== src/Deploy/Phase3.antt =====
-- scripts/deployment/phase3-rtoken: what each script reads and tests before it sends a transaction.
pub mod Scripts
pub mod Followed
pub mod Started
pub mod Prepared
pub mod Sent
pub mod Weights
pub mod Checks
use text.Mathlib.Text.{◌==◌ as str_eq}
use reserve_protocol.Base.{
  String, Bool, true, false, not, ◌||◌, Option, none, some, List, [], ◌∷◌, ◌++◌,
}
use reserve_protocol.Base.Int.{ℤ, pos}
use reserve_protocol.Base.Text.{Dict, lookup, codes, is_empty}
use reserve_protocol.BigNumber.{BigNumbers}
use reserve_protocol.Numbers.Parse.{text as text_of, whole, bn, fp}
use reserve_protocol.Errors.{Error, Result, ok, err, ◌>>=◌, ◌>>◌, or_throw}
use reserve_protocol.Config.{
  IrTokenConfig, IrTokenSetup, IBackupInfo, IGovParams, get_network_config,
}
use reserve_protocol.Config.RToken.{IrToken, rtoken_name, rtoken_config, get_rtoken_config}
use reserve_protocol.Deploy.Store.{
  IAssetCollDeployments, IrTokenDeployments, get_deployment_filename,
  get_asset_coll_deployment_filename, get_rtoken_deployment_filename, file_exists,
  get_deployment_file, as_deployments, as_asset_coll, as_rtoken,
}
use reserve_protocol.Deploy.Guards.{
  throw_if, require_contract, get_chain_id, validate_prerequisites,
}
use reserve_protocol.Deploy.Prepare.{zero_address, no_components, check_previous}
use reserve_protocol.Chain.{Hardhat, World, call_text}
use reserve_protocol.Chain.Calls.{GovernanceSetup}

-- The object that 0_setup_deployments.ts writes.
abbrev pub fresh_rtoken : String → IrTokenDeployments
fresh_rtoken facade_write = record {
  facade_write = facade_write;
  main = "";
  components = no_components;
  rtoken_asset = "";
  governance = "";
  timelock = "";
}

-- The entries of the file that the set-up names, by key; a key that is missing is undefined.
abbrev pub setup_assets : IAssetCollDeployments → List (Option String)
setup_assets d = lookup "stkAAVE" d.assets ∷ lookup "COMP" d.assets ∷ []

abbrev pub setup_basket : IAssetCollDeployments → List (Option String)
setup_basket d =
    lookup "DAI" d.collateral ∷ lookup "aDAI" d.collateral ∷ lookup "cDAI" d.collateral ∷ []

abbrev pub setup_backup : IAssetCollDeployments → List (Option String)
setup_backup d = lookup "USDC" d.collateral ∷ []

-- What 1_deploy_rtoken.ts has when it sends the transaction.
pub record RTokenRun : Type 0 where
  pub file : String
  pub deployments : IrTokenDeployments
  pub config : IrTokenConfig
  pub setup : IrTokenSetup

-- What 2_deploy_governance.ts has.
pub record GovernanceRun : Type 0 where
  pub file : String
  pub deployments : IrTokenDeployments
  pub setup : GovernanceSetup

module _ (big : BigNumbers) where
  -- `[fp('0.25'), fp('0.25'), fp('0.5')]`
  unfoldable pub setup_weights : Result (List ℤ)
  setup_weights = do
    dai ← or_throw Error.number_error (fp big (text_of (codes "0.25")))
    adai ← or_throw Error.number_error (fp big (text_of (codes "0.25")))
    cdai ← or_throw Error.number_error (fp big (text_of (codes "0.5")))
    ok (dai ∷ adai ∷ cdai ∷ [])

  -- The backup unit, a bytes32, is carried as the text that it writes.
  unfoldable pub backup_info : List String → Result IBackupInfo
  backup_info collateral = do
    factor ← or_throw Error.number_error (bn big (whole (pos 1)))
    ok (record { backup_unit = "USD"; diversity_factor = factor; backup_collateral = collateral })

module _ (hre : Hardhat) where
  -- The loop over addresses: `getCode` of undefined throws, and so does an address without code.
  unfoldable pub require_contracts :
      String → List (Option String) → World hre.Chain → Result (List String)
  require_contracts label [] w = ok []
  require_contracts label (a ∷ addresses) w = do
    addr ← or_throw Error.provider_error a
    require_contract hre w label addr
    rest ← require_contracts label addresses w
    ok (addr ∷ rest)

  module _ (big : BigNumbers) where
    -- The start of each script: the table of rTokenConfig.ts is loaded first.
    unfoldable pub open_rtoken_config : World hre.Chain → Result (String × IrToken)
    open_rtoken_config w = do
      table ← or_throw Error.number_error (rtoken_config big)
      chain_id ← get_chain_id hre w
      conf ← get_rtoken_config table chain_id rtoken_name
      network ← get_network_config chain_id
      ok (chain_id, conf)

    -- 0_setup_deployments.ts
    unfoldable pub prepare_rtoken_file : World hre.Chain → Result (String × IrTokenDeployments)
    unfolding open_rtoken_config check_previous
    prepare_rtoken_file w = do
      opened ← open_rtoken_config w
      let name = get_rtoken_deployment_filename opened.0 rtoken_name
      throw_if (file_exists name w.files) (Error.file_exists_already name)
      file ← get_deployment_file (get_deployment_filename opened.0) w.files
      d ← as_deployments file
      validate_prerequisites hre d w
      check_previous hre "FacadeWrite" d.facade_write w
      ok (name, fresh_rtoken d.facade_write)

    -- The file that the first script of the phase left.
    unfoldable pub open_rtoken_file : String → World hre.Chain → Result IrTokenDeployments
    open_rtoken_file chain_id w = do
      file ← get_deployment_file (get_rtoken_deployment_filename chain_id rtoken_name) w.files
      as_rtoken file

    -- The set-up of 1_deploy_rtoken.ts, its addresses tested.
    unfoldable pub rtoken_setup : IAssetCollDeployments → World hre.Chain → Result IrTokenSetup
    rtoken_setup d w = do
      weights ← setup_weights big
      backup ← backup_info big []
      assets ← require_contracts "Asset" (setup_assets d) w
      basket ← require_contracts "Collateral" (setup_basket d) w
      collateral ← require_contracts "Collateral" (setup_backup d) w
      ok (record {
        assets = assets;
        primary_basket = basket;
        weights = weights;
        backups = record backup { backup_collateral = collateral } ∷ [];
      })

    -- 1_deploy_rtoken.ts
    unfoldable pub prepare_rtoken : World hre.Chain → Result RTokenRun
    unfolding open_rtoken_config open_rtoken_file
    prepare_rtoken w = do
      opened ← open_rtoken_config w
      d ← open_rtoken_file opened.0 w
      file ← get_deployment_file (get_asset_coll_deployment_filename opened.0) w.files
      coll ← as_asset_coll file
      setup ← rtoken_setup coll w
      ok (record {
        file = get_rtoken_deployment_filename opened.0 rtoken_name;
        deployments = d;
        config = opened.1.config;
        setup = setup;
      })

    -- The tests of 2_deploy_governance.ts: the addresses are there, and agree with the chain.
    unfoldable pub check_main : IrTokenDeployments → World hre.Chain → Result (Unit {0})
    check_main d w = do
      throw_if (is_empty d.main || is_empty d.components.rtoken || is_empty d.components.st_rsr)
          (Error.missing_address "deployments")
      require_contract hre w "Main" d.main
      require_contract hre w "RToken" d.components.rtoken
      require_contract hre w "StRSR" d.components.st_rsr
      main ← call_text hre d.components.rtoken "main" w
      st_rsr ← call_text hre main "stRSR" w
      throw_if (not (str_eq main d.main) || not (str_eq st_rsr d.components.st_rsr))
          Error.invalid_addresses

    unfoldable pub prepare_governance : World hre.Chain → Result GovernanceRun
    unfolding open_rtoken_config open_rtoken_file
    prepare_governance w = do
      opened ← open_rtoken_config w
      d ← open_rtoken_file opened.0 w
      check_main d w
      ok (record {
        file = get_rtoken_deployment_filename opened.0 rtoken_name;
        deployments = d;
        setup = record {
          rtoken = d.components.rtoken;
          deploy_governance = true;
          unpause = not (str_eq opened.0 "1");
          params = opened.1.gov;
          owner = zero_address;
          guardian = zero_address;
          pauser = zero_address;
        };
      })
