-- ===== src/Deploy/Phase1.antt =====
-- scripts/deployment/phase1-common: each script tests, `Prepare`, and then deploys and writes.
pub mod Progress
pub mod Getters
pub mod Implementations
pub mod Opening
pub mod Scripts
pub mod Setup
pub mod Pipeline
use reserve_protocol.Base.{String, List, [], ◌∷◌}
use reserve_protocol.Base.Text.{Dict}
use reserve_protocol.BigNumber.{BigNumbers}
use reserve_protocol.Config.{IComponents, IImplementations}
use reserve_protocol.Deploy.Store.{IDeployments, deployments}
use reserve_protocol.Deploy.Prepare.{
  prepare_setup, prepare_libraries, prepare_implementations, prepare_rsr_asset, prepare_after_asset,
  prepare_deployer,
}
use reserve_protocol.Deploy.Tasks.{deploy_asset}
use reserve_protocol.Chain.{
  Arg, address, implementations, Creation, Hardhat, Script, pure, ◌>>=◌, ◌>>◌, reads, write_file,
  deploy,
}

-- a contract with neither libraries nor constructor arguments
abbrev pub plain : String → Creation
plain contract = record { contract = contract; libraries = []; arguments = [] }

abbrev pub linked : String → Dict Arg → Creation
linked contract libraries = record { contract = contract; libraries = libraries; arguments = [] }

-- `keyof typeof deployments.implementations.components`
pub data ComponentKey : Type 0 where
  asset_registry backing_manager basket_handler broker distributor : ComponentKey
  furnace rsr_trader rtoken_trader rtoken st_rsr : ComponentKey

abbrev pub set_component : ComponentKey → String → IComponents → IComponents
set_component asset_registry a c = record c { asset_registry = a }
set_component backing_manager a c = record c { backing_manager = a }
set_component basket_handler a c = record c { basket_handler = a }
set_component broker a c = record c { broker = a }
set_component distributor a c = record c { distributor = a }
set_component furnace a c = record c { furnace = a }
set_component rsr_trader a c = record c { rsr_trader = a }
set_component rtoken_trader a c = record c { rtoken_trader = a }
set_component rtoken a c = record c { rtoken = a }
set_component st_rsr a c = record c { st_rsr = a }

abbrev pub set_main : String → IDeployments → IDeployments
set_main a d = record d { implementations = record (d.implementations) { main = a } }

abbrev pub set_trade : String → IDeployments → IDeployments
set_trade a d = record d { implementations = record (d.implementations) { trade = a } }

abbrev pub set_implementation : ComponentKey → String → IDeployments → IDeployments
set_implementation key a d = record d {
  implementations = record (d.implementations) {
    components = set_component key a d.implementations.components;
  };
}

module _ (hre : Hardhat) where
  -- 0_setup_deployments.ts
  unfoldable pub setup_deployments : Script hre.Chain (Unit {0})
  setup_deployments = do p ← reads (prepare_setup hre); write_file p.0 (deployments p.1)

  -- 1_deploy_libraries.ts
  unfoldable pub deploy_libraries : Script hre.Chain (Unit {0})
  deploy_libraries = do
    p ← reads (prepare_libraries hre)
    trading ← deploy hre (plain "RecollateralizationLibP1")
    rewardable ← deploy hre (plain "RewardableLibP1")
    permit ← deploy hre (plain "PermitLib")
    oracle ← deploy hre (plain "OracleLib")
    write_file p.0 (
        deployments (record (p.1) {
          trading_lib = trading;
          rewardable_lib = rewardable;
          permit_lib = permit;
          oracle_lib = oracle;
        }))

  -- An assignment to the object that is followed by a write of the file.
  unfoldable pub save : String → IDeployments → Script hre.Chain IDeployments
  save name d = write_file name (deployments d) >> pure d

  -- `writeComponentDeployment`
  unfoldable pub write_component_deployment :
      String → ComponentKey → String → IDeployments → Script hre.Chain IDeployments
  unfolding save
  write_component_deployment name key impl_addr d = save name (set_implementation key impl_addr d)

  -- The deployment of one component and the write that follows it.
  unfoldable pub deploy_component :
      String → ComponentKey → Creation → IDeployments → Script hre.Chain IDeployments
  deploy_component name key creation d = do
    a ← deploy hre creation
    write_component_deployment name key a d

  -- 2_deploy_implementations.ts
  unfoldable pub deploy_main : String → IDeployments → Script hre.Chain IDeployments
  deploy_main name d = do a ← deploy hre (plain "MainP1"); save name (set_main a d)

  unfoldable pub deploy_trade : String → IDeployments → Script hre.Chain IDeployments
  deploy_trade name d = do a ← deploy hre (plain "GnosisTrade"); save name (set_trade a d)

  -- One implementation serves both traders.
  unfoldable pub deploy_traders : String → IDeployments → Script hre.Chain IDeployments
  deploy_traders name d = do
    a ← deploy hre (linked "RevenueTraderP1" (("RewardableLibP1", address d.rewardable_lib) ∷ []))
    d' ← write_component_deployment name rsr_trader a d
    write_component_deployment name rtoken_trader a d'

  -- the deployments of 2_deploy_implementations.ts, in order
  unfoldable pub deploy_all_implementations : String → IDeployments → Script hre.Chain IDeployments
  deploy_all_implementations name d = do
    let rewardable = address d.rewardable_lib
    let trading = address d.trading_lib
    let permit = address d.permit_lib
    d ← deploy_main name d
    d ← deploy_trade name d
    d ← deploy_component name asset_registry (plain "AssetRegistryP1") d
    d ←
        deploy_component name backing_manager
          (linked "BackingManagerP1"
            (("RewardableLibP1", rewardable) ∷ ("RecollateralizationLibP1", trading) ∷ []))
          d
    d ← deploy_component name basket_handler (plain "BasketHandlerP1") d
    d ← deploy_component name broker (plain "BrokerP1") d
    d ← deploy_component name distributor (plain "DistributorP1") d
    d ← deploy_component name furnace (plain "FurnaceP1") d
    d ← deploy_traders name d
    d ←
        deploy_component name rtoken
          (linked "RTokenP1" (("RewardableLibP1", rewardable) ∷ ("PermitLib", permit) ∷ [])) d
    deploy_component name st_rsr (linked "StRSRP1Votes" (("PermitLib", permit) ∷ [])) d

  unfoldable pub deploy_implementations : Script hre.Chain IDeployments
  deploy_implementations = do
    p ← reads (prepare_implementations hre)
    deploy_all_implementations p.0 p.1

  -- 3_deploy_rsrAsset.ts
  unfoldable pub deploy_rsr_asset : BigNumbers → Script hre.Chain (Unit {0})
  deploy_rsr_asset big = do
    p ← reads (prepare_rsr_asset hre big)
    asset ← deploy_asset hre p.2
    write_file p.0 (deployments (record (p.1) { rsr_asset = asset }))

  -- 4_deploy_facade.ts
  unfoldable pub deploy_facade : Script hre.Chain (Unit {0})
  deploy_facade = do
    p ← reads (prepare_after_asset hre)
    facade_read ← deploy hre (plain "FacadeRead")
    write_file p.0 (deployments (record (p.1) { facade_read = facade_read }))

  -- 5_deploy_deployer.ts
  unfoldable pub deploy_deployer : Script hre.Chain (Unit {0})
  deploy_deployer = do
    p ← reads (prepare_deployer hre)
    deployer ← deploy hre (record {
      contract = "DeployerP1";
      libraries = [];
      arguments =
          address p.1.prerequisites.rsr
          ∷ address p.1.prerequisites.gnosis_easy_auction
          ∷ address p.1.rsr_asset
          ∷ implementations p.1.implementations
          ∷ [];
    })
    write_file p.0 (deployments (record (p.1) { deployer = deployer }))

  -- 6_deploy_facadeWrite.ts
  unfoldable pub deploy_facade_write : Script hre.Chain (Unit {0})
  deploy_facade_write = do
    p ← reads (prepare_after_asset hre)
    lib ← deploy hre (plain "FacadeWriteLib")
    facade_write ← deploy hre (record {
      contract = "FacadeWrite";
      libraries = ("FacadeWriteLib", address lib) ∷ [];
      arguments = address p.1.deployer ∷ [];
    })
    write_file p.0
        (deployments (record (p.1) { facade_write_lib = lib; facade_write = facade_write }))

  -- 7_deploy_facadeAct.ts
  unfoldable pub deploy_facade_act : Script hre.Chain (Unit {0})
  deploy_facade_act = do
    p ← reads (prepare_after_asset hre)
    facade_act ← deploy hre (plain "FacadeAct")
    write_file p.0 (deployments (record (p.1) { facade_act = facade_act }))

  -- The first part of the loop of scripts/deploy.ts. A script that throws ends the loop.
  unfoldable pub deploy_phase1 : BigNumbers → Script hre.Chain (Unit {0})
  deploy_phase1 big = do
    setup_deployments
    deploy_libraries
    d ← deploy_implementations
    deploy_rsr_asset big
    deploy_facade
    deploy_deployer
    deploy_facade_write
    deploy_facade_act
