-- ===== src/Deploy/Tests/Verified.antt =====
-- The deployer and the FacadeWrite, deployed and then verified.
use reserve_protocol.Base.{ℕ, ◌≡◌, refl, [], ◌∷◌}
use reserve_protocol.Base.Text.{lookup, insert}
use reserve_protocol.Errors.{ok}
use reserve_protocol.Config.{get_network_config}
use reserve_protocol.Config.Networks.{network_config}
use reserve_protocol.Deploy.Store.{deployments, get_deployment_filename, get_deployment_file}
use reserve_protocol.Deploy.Guards.{
  ask_chain_id, get_chain_id, validate_implementations, lacks_implementations, valid_components,
}
use reserve_protocol.Deploy.Prepare.{
  prepare_deployer, prepare_after_asset, open_deployments, check_previous,
}
use reserve_protocol.Deploy.Phase1.{deploy_deployer, deploy_facade_write}
use reserve_protocol.Deploy.Tests.{local_chain, local_chain-IsHardhat, local_file, local_id}
use reserve_protocol.Deploy.Tests.Deployed.{all_deployed}
use reserve_protocol.Verify.Deployers.{AreMatched, deployers-matched}
use reserve_protocol.Chain
use reserve_protocol.Chain.{World}

-- A state in which the facade and the assets have been deployed.
abbrev asset_deployed : World ℕ
asset_deployed = record { files = (local_file, deployments all_deployed) ∷ []; chain = 0 }

-- after 5_deploy_deployer.ts, and after 6_deploy_facadeWrite.ts
abbrev deployer_deployed : World ℕ
deployer_deployed = record asset_deployed { chain = 1 }

abbrev facade_deployed : World ℕ
facade_deployed = record asset_deployed { chain = 3 }

scripts_end :
    (deploy_deployer local_chain asset_deployed ≡ (ok tt, deployer_deployed))
    × (deploy_facade_write local_chain deployer_deployed ≡ (ok tt, facade_deployed))
unfolding deploy_deployer deploy_facade_write prepare_deployer prepare_after_asset open_deployments
    check_previous get_chain_id ask_chain_id get_network_config network_config lookup insert
    get_deployment_filename get_deployment_file validate_implementations lacks_implementations
    valid_components Chain.reads Chain.deploy Chain.write_file Chain.pure Chain.◌>>=◌ Chain.◌>>◌
scripts_end = (refl, refl)

deployers-matched_example :
    AreMatched local_chain local_chain-IsHardhat asset_deployed deployer_deployed facade_deployed
      "31337"
      (local_id asset_deployed)
deployers-matched_example =
    deployers-matched local_chain local_chain-IsHardhat asset_deployed deployer_deployed
      facade_deployed "31337" (local_id asset_deployed) scripts_end.0 scripts_end.1
