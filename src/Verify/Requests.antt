-- ===== src/Verify/Requests.antt =====
-- The requests of scripts/verification that follow from the deployment files: 0_verify_libraries.ts,
-- 1_verify_implementations.ts, 3_verify_deployer.ts, 4_verify_facade.ts, 5_verify_facadeWrite.ts,
-- 7_verify_rToken.ts and 8_verify_governance.ts.
use reserve_protocol.Base.{String, none, some, List, [], ◌∷◌}
use reserve_protocol.Config.RToken.{IrToken}
use reserve_protocol.Deploy.Store.{IDeployments, IrTokenDeployments}
use reserve_protocol.Chain.{Arg, address, amount, label, implementations, addresses}
use reserve_protocol.Verify.{Request}

-- a contract without libraries
abbrev pub request : String → List Arg → String → Request
request at arguments contract = record {
  address = some at;
  arguments = arguments;
  contract = contract;
  libraries = none;
}

abbrev pub library_requests : IDeployments → List Request
library_requests d =
    request d.trading_lib []
      "contracts/p1/mixins/RecollateralizationLib.sol:RecollateralizationLibP1"
    ∷ request d.rewardable_lib [] "contracts/p1/mixins/RewardableLib.sol:RewardableLibP1"
    ∷ request d.permit_lib [] "contracts/libraries/Permit.sol:PermitLib"
    ∷ request d.oracle_lib [] "contracts/plugins/assets/OracleLib.sol:OracleLib"
    ∷ []

-- `compInfos`, with the address of each
abbrev pub component_requests : IDeployments → List Request
component_requests d =
    let c = d.implementations.components in
    request c.asset_registry [] "contracts/p1/AssetRegistry.sol:AssetRegistryP1"
    ∷ request c.backing_manager [] "contracts/p1/BackingManager.sol:BackingManagerP1"
    ∷ request c.basket_handler [] "contracts/p1/BasketHandler.sol:BasketHandlerP1"
    ∷ request c.broker [] "contracts/p1/Broker.sol:BrokerP1"
    ∷ request c.distributor [] "contracts/p1/Distributor.sol:DistributorP1"
    ∷ request c.furnace [] "contracts/p1/Furnace.sol:FurnaceP1"
    ∷ request c.rsr_trader [] "contracts/p1/RevenueTrader.sol:RevenueTraderP1"
    ∷ request c.rtoken [] "contracts/p1/RToken.sol:RTokenP1"
    ∷ request c.st_rsr [] "contracts/p1/StRSRVotes.sol:StRSRP1Votes"
    ∷ []

abbrev pub implementation_requests : IDeployments → List Request
implementation_requests d =
    request d.implementations.main [] "contracts/p1/Main.sol:MainP1"
    ∷ request d.implementations.trade [] "contracts/plugins/trading/GnosisTrade.sol:GnosisTrade"
    ∷ component_requests d

abbrev pub deployer_requests : IDeployments → List Request
deployer_requests d =
    request d.deployer
      (address d.prerequisites.rsr
        ∷ address d.prerequisites.gnosis_easy_auction
        ∷ address d.rsr_asset
        ∷ implementations d.implementations
        ∷ [])
      "contracts/p1/Deployer.sol:DeployerP1"
    ∷ []

abbrev pub facade_requests : IDeployments → List Request
facade_requests d = request d.facade_read [] "contracts/facade/FacadeRead.sol:FacadeRead" ∷ []

abbrev pub facade_write_requests : IDeployments → List Request
facade_write_requests d =
    request d.facade_write_lib [] "contracts/facade/lib/FacadeWriteLib.sol:FacadeWriteLib"
    ∷ request d.facade_write (address d.deployer ∷ [])
        "contracts/facade/FacadeWrite.sol:FacadeWrite"
    ∷ []

-- The asset of the RToken, and the proxy in front of the implementation.
abbrev pub rtoken_requests : IDeployments → IrTokenDeployments → IrToken → List Request
rtoken_requests phase1 d conf =
    request d.rtoken_asset
      (address d.components.rtoken ∷ amount conf.config.params.rtoken_max_trade_volume ∷ [])
      "contracts/plugins/assets/RTokenAsset.sol:RTokenAsset"
    ∷ request d.components.rtoken
        (address phase1.implementations.components.rtoken ∷ label "0x" ∷ [])
        "@openzeppelin/contracts/proxy/ERC1967/ERC1967Proxy.sol:ERC1967Proxy"
    ∷ []

abbrev pub governance_requests : IrTokenDeployments → IrToken → List Request
governance_requests d conf =
    request d.timelock (amount conf.gov.timelock_delay ∷ addresses [] ∷ addresses [] ∷ [])
      "@openzeppelin/contracts/governance/TimelockController.sol:TimelockController"
    ∷ request d.governance
        (address d.components.st_rsr
          ∷ address d.timelock
          ∷ amount conf.gov.voting_delay
          ∷ amount conf.gov.voting_period
          ∷ amount conf.gov.proposal_threshold_as_micro_percent
          ∷ amount conf.gov.quorum_percent
          ∷ [])
        "contracts/plugins/governance/Governance.sol:Governance"
    ∷ []
