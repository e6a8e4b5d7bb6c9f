-- ===== src/Deploy/Full.antt =====
-- scripts/deploy.ts: the scripts of phase 1 and of phase 2 in order. A script that throws makes its
-- process fail, which ends the loop.
pub mod Onward
pub mod Complete
pub mod Again
use reserve_protocol.BigNumber.{BigNumbers}
use reserve_protocol.Config.{get_network_config}
use reserve_protocol.Deploy.Guards.{get_chain_id}
use reserve_protocol.Deploy.Phase1.{deploy_phase1}
use reserve_protocol.Deploy.Phase2.{setup_asset_coll}
use reserve_protocol.Deploy.Phase2.Collateral.{deploy_assets, deploy_collateral}
use reserve_protocol.Chain.{Hardhat, Script, pure, ◌>>=◌, ◌>>◌, reads}

module _ (hre : Hardhat) where
  -- the second part of the loop
  unfoldable pub deploy_phase2 : BigNumbers → Script hre.Chain (Unit {0})
  deploy_phase2 big = do
    setup_asset_coll hre
    deploy_assets hre big
    collateral ← deploy_collateral hre big
    pure tt

  unfoldable pub deploy_all : BigNumbers → Script hre.Chain (Unit {0})
  deploy_all big = do
    chain_id ← reads (get_chain_id hre)
    config ← reads (λ w. get_network_config chain_id)
    deploy_phase1 hre big
    deploy_phase2 big
