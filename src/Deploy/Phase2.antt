-- ===== src/Deploy/Phase2.antt =====
-- scripts/deployment/phase2-assets: the file of assets and collateral, the two assets, and the
-- order in which an address is recorded and the file is written.
pub mod Terms
pub mod Collateral
pub mod Progress
pub mod Blocks
pub mod Listing
pub mod Collected
pub mod Setup
pub mod Lag
use reserve_protocol.Base.{String, not, Option, some, List, [], ◌∷◌}
use reserve_protocol.Base.Text.{Dict, lookup, insert}
use reserve_protocol.BigNumber.{BigNumbers}
use reserve_protocol.Errors.{Error, Result, ok}
use reserve_protocol.Errors
use reserve_protocol.Config.{get_network_config}
use reserve_protocol.Config.Networks.{INetworkConfig}
use reserve_protocol.Deploy.Store.{
  IAssetCollDeployments, asset_coll, get_deployment_filename, get_asset_coll_deployment_filename,
  file_exists, get_deployment_file, as_deployments, as_asset_coll,
}
use reserve_protocol.Deploy.Guards.{throw_if, get_chain_id}
use reserve_protocol.Chain.{Hardhat, World, Script, pure, ◌>>=◌, ◌>>◌, reads, write_file}

-- What the scripts read at the start and use throughout.
pub record Context : Type 0 where
  pub chain_id : String
  pub config : INetworkConfig
  pub oracle_lib : String
  pub file : String

-- `assetCollDeployments.assets[symbol] = address`
abbrev pub set_asset : String → String → IAssetCollDeployments → IAssetCollDeployments
set_asset symbol a d = record d { assets = insert symbol a d.assets }

-- `assetCollDeployments.collateral[symbol] = address`
abbrev pub set_collateral : String → String → IAssetCollDeployments → IAssetCollDeployments
set_collateral symbol a d = record d { collateral = insert symbol a d.collateral }

module _ (hre : Hardhat) where
  -- 0_setup_deployments.ts
  unfoldable pub prepare_asset_coll : World hre.Chain → Result String
  prepare_asset_coll w = Errors.◌>>=◌ (get_chain_id hre w) λ chain_id.
      Errors.◌>>=◌ (get_network_config chain_id) λ config.
        Errors.◌>>◌
          (throw_if (not (file_exists (get_deployment_filename chain_id) w.files))
            (Error.file_missing (get_deployment_filename chain_id)))
          (Errors.◌>>◌
            (throw_if (file_exists (get_asset_coll_deployment_filename chain_id) w.files)
              (Error.file_exists_already (get_asset_coll_deployment_filename chain_id)))
            (ok (get_asset_coll_deployment_filename chain_id)))

  unfoldable pub setup_asset_coll : Script hre.Chain (Unit {0})
  setup_asset_coll = do
    name ← reads prepare_asset_coll
    write_file name (asset_coll (record { assets = []; collateral = [] }))

  -- The start of 1_deploy_assets.ts and of 2_deploy_collateral.ts.
  unfoldable pub open_asset_coll : World hre.Chain → Result (Context × IAssetCollDeployments)
  open_asset_coll w = Errors.◌>>=◌ (get_chain_id hre w) λ chain_id.
      Errors.◌>>=◌ (get_network_config chain_id) λ config.
        Errors.◌>>◌
          (throw_if (not (file_exists (get_deployment_filename chain_id) w.files))
            (Error.file_missing (get_deployment_filename chain_id)))
          (Errors.◌>>=◌ (get_deployment_file (get_deployment_filename chain_id) w.files) λ f.
            Errors.◌>>=◌ (as_deployments f) λ phase1.
              Errors.◌>>=◌
                (get_deployment_file (get_asset_coll_deployment_filename chain_id) w.files)
                λ g. Errors.◌>>=◌ (as_asset_coll g) λ d. ok (
                  record {
                    chain_id = chain_id;
                    config = config;
                    oracle_lib = phase1.oracle_lib;
                    file = get_asset_coll_deployment_filename chain_id;
                  },
                  d,
                ))

-- What a block of 2_deploy_collateral.ts does with a new address, in the three ways of the code.
abbrev pub Keep : Type 0 → Type 0
Keep C = String → String → String → IAssetCollDeployments → Script C IAssetCollDeployments

module _ {C : Type 0} where
  -- The file is written, and the address recorded after that.
  unfoldable pub write_then_record : Keep C
  write_then_record file symbol a d = do
    write_file file (asset_coll d)
    pure (set_collateral symbol a d)

  unfoldable pub record_then_write : Keep C
  record_then_write file symbol a d = do
    write_file file (asset_coll (set_collateral symbol a d))
    pure (set_collateral symbol a d)

  unfoldable pub record_only : Keep C
  record_only file symbol a d = pure (set_collateral symbol a d)
