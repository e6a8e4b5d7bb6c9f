-- ===== src/Verify/Scripts.antt =====
-- scripts/verification, and scripts/verify_etherscan.ts, which runs its scripts in order.
use reserve_protocol.Base.{String, not, List, [], ◌∷◌, map}
use reserve_protocol.Base.Text.{Dict}
use reserve_protocol.BigNumber.{BigNumbers}
use reserve_protocol.Errors.{Error, Result, ok, or_throw}
use reserve_protocol.Errors
use reserve_protocol.Config.{get_network_config}
use reserve_protocol.Config.RToken.{IrToken, rtoken_name, rtoken_config, get_rtoken_config}
use reserve_protocol.Deploy.Store.{
  IDeployments, IrTokenDeployments, get_deployment_filename, get_asset_coll_deployment_filename,
  get_rtoken_deployment_filename, file_exists, get_deployment_file, as_deployments, as_asset_coll,
  as_rtoken,
}
use reserve_protocol.Deploy.Guards.{throw_if}
use reserve_protocol.Confirm.{open_network}
use reserve_protocol.Chain.{Hardhat, World, Script, ◌>>=◌, ◌>>◌, reads}
use reserve_protocol.Verify.{Request, Etherscan, verify_each}
use reserve_protocol.Verify.Requests.{
  library_requests, implementation_requests, deployer_requests, facade_requests,
  facade_write_requests, rtoken_requests, governance_requests,
}
use reserve_protocol.Verify.Collateral.{Listing, rsr_asset_request, collateral_requests}

module _ (hre : Hardhat) where
  -- The start of scripts 0 to 5.
  unfoldable pub open_phase1 : World hre.Chain → Result (String × IDeployments)
  open_phase1 w = Errors.◌>>=◌ (open_network hre w) λ chain_id.
      Errors.◌>>=◌ (get_deployment_file (get_deployment_filename chain_id) w.files)
        λ file. Errors.◌>>=◌ (as_deployments file) λ d. ok (chain_id, d)

  -- The start of 6_verify_collateral.ts.
  unfoldable pub open_listing : World hre.Chain → Result Listing
  open_listing w = Errors.◌>>=◌ (open_network hre w) λ chain_id.
      Errors.◌>>=◌ (get_network_config chain_id) λ config.
        Errors.◌>>=◌ (get_deployment_file (get_asset_coll_deployment_filename chain_id) w.files)
          λ file. Errors.◌>>=◌ (as_asset_coll file) λ d.
            Errors.◌>>=◌ (get_deployment_file (get_deployment_filename chain_id) w.files)
              λ stage1. ok (record { chain_id = chain_id; config = config; deployments = d })

  -- The RToken of a file and of the table.
  unfoldable pub read_rtoken :
      Dict (Dict IrToken) → String → World hre.Chain → Result (IrTokenDeployments × IrToken)
  read_rtoken table chain_id w =
      Errors.◌>>=◌
        (get_deployment_file (get_rtoken_deployment_filename chain_id rtoken_name) w.files)
        λ file.
          Errors.◌>>=◌ (as_rtoken file)
            λ d. Errors.◌>>=◌ (get_rtoken_config table chain_id rtoken_name) λ conf. ok (d, conf)

  -- 7_verify_rToken.ts and 8_verify_governance.ts. The table of rTokenConfig.ts is loaded first.
  unfoldable pub open_rtoken :
      BigNumbers → World hre.Chain → Result (String × IDeployments × IrTokenDeployments × IrToken)
  open_rtoken big w = Errors.◌>>=◌ (or_throw Error.number_error (rtoken_config big)) λ table.
      Errors.◌>>=◌ (open_network hre w) λ chain_id.
        Errors.◌>>◌
          (throw_if (not (file_exists (get_deployment_filename chain_id) w.files))
            (Error.file_missing (get_deployment_filename chain_id)))
          (Errors.◌>>=◌ (get_deployment_file (get_deployment_filename chain_id) w.files) λ file.
            Errors.◌>>=◌ (as_deployments file) λ phase1.
              Errors.◌>>=◌ (read_rtoken table chain_id w) λ p. ok (chain_id, phase1, p.0, p.1))

  unfoldable pub open_governance :
      BigNumbers → World hre.Chain → Result (String × IrTokenDeployments × IrToken)
  open_governance big w = Errors.◌>>=◌ (or_throw Error.number_error (rtoken_config big)) λ table.
      Errors.◌>>=◌ (open_network hre w)
        λ chain_id. Errors.◌>>=◌ (read_rtoken table chain_id w) λ p. ok (chain_id, p.0, p.1)

  -- requests that are known from the start
  abbrev known : List Request → List (World hre.Chain → Result Request)
  known rs = map (λ r w. ok r) rs

  module _ (etherscan : Etherscan hre) (big : BigNumbers) where
    unfoldable pub verify_phase1 : (IDeployments → List Request) → Script hre.Chain (Unit {0})
    verify_phase1 requests = do
      p ← reads open_phase1
      verify_each hre etherscan p.0 (known (requests p.1))

    unfoldable pub verify_rsr_asset : Script hre.Chain (Unit {0})
    verify_rsr_asset = do
      p ← reads open_phase1
      verify_each hre etherscan p.0 (rsr_asset_request hre big p.1 ∷ [])

    unfoldable pub verify_collateral : Script hre.Chain (Unit {0})
    verify_collateral = do
      c ← reads open_listing
      verify_each hre etherscan c.chain_id (collateral_requests hre big c)

    unfoldable pub verify_rtoken : Script hre.Chain (Unit {0})
    verify_rtoken = do
      p ← reads (open_rtoken big)
      verify_each hre etherscan p.0 (known (rtoken_requests p.1 p.2 p.3))

    unfoldable pub verify_governance : Script hre.Chain (Unit {0})
    verify_governance = do
      p ← reads (open_governance big)
      verify_each hre etherscan p.0 (known (governance_requests p.1 p.2))

    -- the loop of scripts/verify_etherscan.ts
    unfoldable pub verify_scripts : Script hre.Chain (Unit {0})
    verify_scripts = do
      verify_phase1 library_requests
      verify_phase1 implementation_requests
      verify_rsr_asset
      verify_phase1 deployer_requests
      verify_phase1 facade_requests
      verify_phase1 facade_write_requests
      verify_collateral
      verify_rtoken
      verify_governance

    -- Both deployment files have to be there.
    unfoldable pub open_both : World hre.Chain → Result (Unit {0})
    open_both w = Errors.◌>>=◌ (open_network hre w) λ chain_id.
        Errors.◌>>=◌ (get_deployment_file (get_deployment_filename chain_id) w.files) λ phase1.
          Errors.◌>>=◌ (get_deployment_file (get_asset_coll_deployment_filename chain_id) w.files)
            λ assets. ok tt

    unfoldable pub verify_etherscan : Script hre.Chain (Unit {0})
    verify_etherscan = do reads open_both; verify_scripts
