-- ===== src/Confirm/Missing.antt =====
-- scripts/confirm.ts after scripts/deploy.ts alone, which leaves no file of the RToken.
use text.Mathlib.TextLemmas.{append_cancel_left}
use reserve_protocol.Base.{String, ◌≡◌, ◌≢◌, ◌∙◌, false, none, some}
use reserve_protocol.Base.Text.{lookup}
use reserve_protocol.BigNumber.{BigNumbers}
use reserve_protocol.Errors.{Error, ok, err}
use reserve_protocol.Config.{get_network_config, is_development_chain}
use reserve_protocol.Config.Networks.{INetworkConfig}
use reserve_protocol.Config.RToken.{rtoken_name}
use reserve_protocol.Deploy.Store.{
  IDeployments, IAssetCollDeployments, deployments, asset_coll, get_deployment_filename,
  get_asset_coll_deployment_filename, get_rtoken_deployment_filename, get_deployment_file,
  path_to_folder, temp_file_suffix, temp_asset_coll_file_suffix,
}
use reserve_protocol.Deploy.Guards.{get_chain_id}
use reserve_protocol.Deploy.Full.{deploy_all}
use reserve_protocol.Deploy.Full.Again.{deploy_all-configured, deploy_all-left}
use reserve_protocol.Confirm.{open_network, confirm_components, confirm}
use reserve_protocol.Chain.{Hardhat, IsHardhat, World}
use reserve_protocol.Chain.Calls.{Contracts}

-- The file of the RToken is none of those that scripts/deploy.ts writes.
deployment_ne :
    (id : String) → get_deployment_filename id ≢ get_rtoken_deployment_filename id rtoken_name
unfolding get_deployment_filename get_rtoken_deployment_filename
deployment_ne id e =
    let tails : temp_file_suffix ≡ "-RTKN-tmp-deployments.json" =
      append_cancel_left id _ _ (append_cancel_left path_to_folder _ _ e) in
    cc

asset_coll_ne :
    (id : String)
    → get_asset_coll_deployment_filename id ≢ get_rtoken_deployment_filename id rtoken_name
unfolding get_asset_coll_deployment_filename get_rtoken_deployment_filename
asset_coll_ne id e =
    let tails : temp_asset_coll_file_suffix ≡ "-RTKN-tmp-deployments.json" =
      append_cancel_left id _ _ (append_cancel_left path_to_folder _ _ e) in
    cc

module _ (hre : Hardhat) (contracts : Contracts hre) (big : BigNumbers) where
  open_network-ok :
      (w : World hre.Chain) (id : String) (network : INetworkConfig)
      → get_chain_id hre w ≡ ok id
      → get_network_config id ≡ ok network
      → is_development_chain hre.network_name ≡ false
      → open_network hre w ≡ ok id
  unfolding open_network
  open_network-ok w id network chain known live = rw (chain, known, live)

  throws_missing :
      (w : World hre.Chain) (id : String) (d : IDeployments) (e : IAssetCollDeployments)
      → open_network hre w ≡ ok id
      → lookup (get_deployment_filename id) w.files ≡ some (deployments d)
      → lookup (get_asset_coll_deployment_filename id) w.files ≡ some (asset_coll e)
      → lookup (get_rtoken_deployment_filename id rtoken_name) w.files ≡ none
      → confirm hre contracts big w
        ≡ err (Error.file_missing (get_rtoken_deployment_filename id rtoken_name))
  unfolding confirm confirm_components get_deployment_file
  throws_missing w id d e network first second missing = rw (network, first, second, missing)

  -- If scripts/deploy.ts starts on a network that is no development chain, whose chain id is known,
  -- that meets the documented laws and that has no file of the RToken, and ends, then
  -- scripts/confirm.ts, run from the state that it left, throws that the file of the RToken is
  -- missing, whatever the contracts answer.
  pub confirm-missing :
      (laws : IsHardhat hre) (w₀ w : World hre.Chain) (id : String)
      (chain : get_chain_id hre w₀ ≡ ok id)
      → is_development_chain hre.network_name ≡ false
      → lookup (get_rtoken_deployment_filename id rtoken_name) w₀.files ≡ none
      → deploy_all hre big w₀ ≡ (ok tt, w)
      → confirm hre contracts big w
        ≡ err (Error.file_missing (get_rtoken_deployment_filename id rtoken_name))
  confirm-missing laws w₀ w id chain live absent ended =
      let left = deploy_all-left hre laws big w₀ w id chain ended in
      let (network, known) = deploy_all-configured hre laws big w₀ w id chain ended in
      throws_missing w id left.first left.second
        (open_network-ok w id network left.same_chain known live) left.written left.held
        (left.untouched _ (deployment_ne id) (asset_coll_ne id) ∙ absent)
