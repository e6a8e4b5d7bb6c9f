-- ===== src/Deploy/Phase3/Scripts.antt =====
-- scripts/deployment/phase3-rtoken: the three scripts. They deploy an RToken and its governance
-- through the FacadeWrite contract, and record what the chain answers.
use reserve_protocol.Base.{String, []}
use reserve_protocol.BigNumber.{BigNumbers}
use reserve_protocol.Errors.{Error, Result, ok, or_throw}
use reserve_protocol.Errors
use reserve_protocol.Config.{IComponents}
use reserve_protocol.Deploy.Store.{IrTokenDeployments, rtoken}
use reserve_protocol.Deploy.Phase3.{
  RTokenRun, GovernanceRun, prepare_rtoken_file, prepare_rtoken, prepare_governance,
}
use reserve_protocol.Events.{ContractReceipt, expect_in_receipt, expect_in_indirect_receipt}
use reserve_protocol.Chain.{Hardhat, World, Script, ◌>>=◌, reads, write_file, call_text}
use reserve_protocol.Chain.Calls.{Contracts, transact, event_address}

-- The addresses of an RToken that 1_deploy_rtoken.ts reads from Main and from the registry.
pub record RTokenAddresses : Type 0 where
  pub main : String
  pub components : IComponents
  pub rtoken_asset : String

-- the assignments to the object
abbrev pub record_rtoken : RTokenAddresses → IrTokenDeployments → IrTokenDeployments
record_rtoken a d = record d {
  main = a.main;
  components = a.components;
  rtoken_asset = a.rtoken_asset;
}

abbrev pub record_governance : String → String → IrTokenDeployments → IrTokenDeployments
record_governance governance timelock d = record d { governance = governance; timelock = timelock }

module _ (hre : Hardhat) where
  -- 0_setup_deployments.ts
  unfoldable pub setup_rtoken_file : BigNumbers → Script hre.Chain (Unit {0})
  setup_rtoken_file big = do p ← reads (prepare_rtoken_file hre big); write_file p.0 (rtoken p.1)

  module _ (contracts : Contracts hre) where
    -- `assetRegistry.toAsset(rTokenAddr)`
    unfoldable pub to_asset : String → String → World hre.Chain → Result String
    to_asset registry token w =
        or_throw (Error.call_failed "toAsset") (contracts.to_asset w.chain registry token)

    -- the calls on Main after the deployment, in their order
    unfoldable pub read_rtoken : String → World hre.Chain → Result RTokenAddresses
    read_rtoken main w = Errors.◌>>=◌ (call_text hre main "rToken" w) λ token.
        Errors.◌>>=◌ (call_text hre main "assetRegistry" w) λ registry.
          Errors.◌>>=◌ (to_asset registry token w) λ asset.
            Errors.◌>>=◌ (call_text hre main "backingManager" w) λ backing_manager.
              Errors.◌>>=◌ (call_text hre main "basketHandler" w) λ basket_handler.
                Errors.◌>>=◌ (call_text hre main "broker" w) λ broker.
                  Errors.◌>>=◌ (call_text hre main "distributor" w) λ distributor.
                    Errors.◌>>=◌ (call_text hre main "furnace" w) λ furnace.
                      Errors.◌>>=◌ (call_text hre main "rTokenTrader" w) λ rtoken_trader.
                        Errors.◌>>=◌ (call_text hre main "rsrTrader" w) λ rsr_trader.
                          Errors.◌>>=◌ (call_text hre main "stRSR" w) λ st_rsr. ok (record {
                            main = main;
                            components = record {
                              asset_registry = registry;
                              backing_manager = backing_manager;
                              basket_handler = basket_handler;
                              broker = broker;
                              distributor = distributor;
                              furnace = furnace;
                              rsr_trader = rsr_trader;
                              rtoken_trader = rtoken_trader;
                              rtoken = token;
                              st_rsr = st_rsr;
                            };
                            rtoken_asset = asset;
                          })

    -- `expectInIndirectReceipt(receipt, deployer.interface, 'RTokenCreated').args.main`
    unfoldable pub created_main : ContractReceipt contracts.chai.Value contracts.Log → Result String
    created_main receipt =
        Errors.◌>>=◌
          (expect_in_indirect_receipt contracts.chai contracts.parse_log receipt "RTokenCreated" [])
          λ event. event_address contracts.address_of "main" event.args

    -- `expectInReceipt(receipt, 'GovernanceCreated').args.name`
    unfoldable pub created_governance :
        String → ContractReceipt contracts.chai.Value contracts.Log → Result String
    created_governance name receipt =
        Errors.◌>>=◌ (expect_in_receipt contracts.chai receipt "GovernanceCreated" [])
          λ event. event_address contracts.address_of name event.args

    -- 1_deploy_rtoken.ts from the transaction on
    unfoldable pub send_rtoken : RTokenRun → Script hre.Chain (Unit {0})
    send_rtoken run = do
      receipt ←
          transact "deployRToken"
            (contracts.deploy_rtoken run.deployments.facade_write run.config run.setup)
      main ← reads (λ w. created_main receipt)
      addresses ← reads (read_rtoken main)
      write_file run.file (rtoken (record_rtoken addresses run.deployments))

    unfoldable pub deploy_rtoken : BigNumbers → Script hre.Chain (Unit {0})
    deploy_rtoken big = do
      run ← reads (prepare_rtoken hre big)
      deployer ← reads (call_text hre run.deployments.facade_write "deployer")
      send_rtoken run

    -- 2_deploy_governance.ts from the transaction on
    unfoldable pub send_governance : GovernanceRun → Script hre.Chain (Unit {0})
    send_governance run = do
      receipt ←
          transact "setupGovernance"
            (contracts.setup_governance run.deployments.facade_write run.setup)
      governance ← reads (λ w. created_governance "governance" receipt)
      timelock ← reads (λ w. created_governance "timelock" receipt)
      write_file run.file (rtoken (record_governance governance timelock run.deployments))

    unfoldable pub deploy_governance : BigNumbers → Script hre.Chain (Unit {0})
    deploy_governance big = do run ← reads (prepare_governance hre big); send_governance run
