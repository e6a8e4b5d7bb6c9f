-- ===== src/Deploy/Prepare.antt =====
-- scripts/deployment/phase1-common: what each script reads and tests before it deploys or writes.
use reserve_protocol.Base.{String, Option, none, some, [], ◌∷◌}
use reserve_protocol.Base.Text.{Dict, lookup, codes, is_empty}
use reserve_protocol.BigNumber.{BigNumbers}
use reserve_protocol.Numbers.Parse.{text as text_of, fp}
use reserve_protocol.Errors.{Error, Result, ok, ◌>>=◌, ◌>>◌, or_throw}
use reserve_protocol.Config.{IComponents, get_network_config}
use reserve_protocol.Config.Networks.{INetworkConfig}
use reserve_protocol.Deploy.Store.{
  IDeployments, get_deployment_filename, file_exists, get_deployment_file, as_deployments,
}
use reserve_protocol.Deploy.Guards.{
  throw_if, require_truthy, require_contract, get_chain_id, validate_prerequisites,
  validate_implementations, get_current_price, get_oracle_timeout,
}
use reserve_protocol.Chain.{Arg, address, amount, Hardhat, World}

-- constants.ts: `ZERO_ADDRESS`
abbrev pub zero_address : String
zero_address = "0x0000000000000000000000000000000000000000"

abbrev pub no_components : IComponents
no_components = record {
  asset_registry = "";
  backing_manager = "";
  basket_handler = "";
  broker = "";
  distributor = "";
  furnace = "";
  rsr_trader = "";
  rtoken_trader = "";
  rtoken = "";
  st_rsr = "";
}

-- The object that 0_setup_deployments.ts writes.
abbrev pub fresh_deployments : String → String → String → IDeployments
fresh_deployments rsr feed gnosis = record {
  prerequisites = record { rsr = rsr; rsr_feed = feed; gnosis_easy_auction = gnosis };
  rewardable_lib = "";
  oracle_lib = "";
  trading_lib = "";
  permit_lib = "";
  facade_read = "";
  facade_write_lib = "";
  facade_write = "";
  facade_act = "";
  deployer = "";
  rsr_asset = "";
  implementations = record { main = ""; trade = ""; components = no_components };
}

-- A key whose value may be undefined is left out of a task's parameters then.
abbrev pub if_defined : String → Option String → Dict Arg → Dict Arg
if_defined k none d = d
if_defined k (some a) d = (k, address a) ∷ d

module _ (hre : Hardhat) where
  -- The deployment file of the chain that a script runs on: its name and its content.
  unfoldable pub open_deployments : World hre.Chain → Result (String × IDeployments)
  open_deployments w = do
    chain_id ← get_chain_id hre w
    network ← get_network_config chain_id
    file ← get_deployment_file (get_deployment_filename chain_id) w.files
    d ← as_deployments file
    ok (get_deployment_filename chain_id, d)

  -- `if (!field) throw … else if (!(await isValidContract(hre, field))) throw …`
  unfoldable pub check_previous : String → String → World hre.Chain → Result (Unit {0})
  check_previous label field w = do
    throw_if (is_empty field) (Error.missing_address label)
    require_contract hre w label field

  -- 0_setup_deployments.ts: the addresses of the configuration, each of them tested.
  unfoldable pub setup_from :
      INetworkConfig → String → World hre.Chain → Result (String × IDeployments)
  setup_from config name w = do
    rsr ← require_truthy (Error.missing_address "RSR") (lookup "RSR" config.tokens)
    require_contract hre w "RSR" rsr
    feed ← require_truthy (Error.missing_address "RSR Feed") (lookup "RSR" config.chainlink_feeds)
    require_contract hre w "RSR Feed" feed
    gnosis ← require_truthy (Error.missing_address "GNOSIS_EASY_AUCTION") config.gnosis_easy_auction
    require_contract hre w "GNOSIS_EASY_AUCTION" gnosis
    ok (name, fresh_deployments rsr feed gnosis)

  unfoldable pub prepare_setup : World hre.Chain → Result (String × IDeployments)
  prepare_setup w = do
    chain_id ← get_chain_id hre w
    config ← get_network_config chain_id
    let name = get_deployment_filename chain_id
    throw_if (file_exists name w.files) (Error.file_exists_already name)
    setup_from config name w

  -- 1_deploy_libraries.ts
  unfoldable pub prepare_libraries : World hre.Chain → Result (String × IDeployments)
  unfolding open_deployments
  prepare_libraries w = do
    opened ← open_deployments w
    validate_prerequisites hre opened.1 w
    ok opened

  -- 2_deploy_implementations.ts
  unfoldable pub prepare_implementations : World hre.Chain → Result (String × IDeployments)
  unfolding open_deployments
  prepare_implementations w = do
    opened ← open_deployments w
    throw_if (is_empty opened.1.trading_lib) (Error.missing_address "libraries")
    throw_if (is_empty opened.1.rewardable_lib) (Error.missing_address "libraries")
    require_contract hre w "TradingLib" opened.1.trading_lib
    require_contract hre w "RewardableLib" opened.1.rewardable_lib
    ok opened

  -- 3_deploy_rsrAsset.ts, with the parameters of its task
  unfoldable pub prepare_rsr_asset :
      BigNumbers → World hre.Chain → Result (String × IDeployments × Dict Arg)
  unfolding open_deployments
  prepare_rsr_asset big w = do
    opened ← open_deployments w
    let d = opened.1
    validate_implementations hre d w
    chain_id ← get_chain_id hre w
    price ← get_current_price hre big (some d.prerequisites.rsr_feed) w
    volume ← or_throw Error.number_error (fp big (text_of (codes "1e6")))
    timeout ← get_oracle_timeout hre big chain_id
    ok (
      opened.0,
      d,
      ("fallbackPrice", amount price)
          ∷ ("priceFeed", address d.prerequisites.rsr_feed)
          ∷ ("tokenAddress", address d.prerequisites.rsr)
          ∷ ("rewardToken", address zero_address)
          ∷ ("maxTradeVolume", amount volume)
          ∷ ("oracleTimeout", amount timeout)
          ∷ ("oracleLib", address d.oracle_lib)
          ∷ [],
    )

  -- 4_deploy_facade.ts, 6_deploy_facadeWrite.ts and 7_deploy_facadeAct.ts test the RSR asset.
  unfoldable pub prepare_after_asset : World hre.Chain → Result (String × IDeployments)
  unfolding open_deployments check_previous
  prepare_after_asset w = do
    opened ← open_deployments w
    validate_implementations hre opened.1 w
    check_previous "RSR Asset" opened.1.rsr_asset w
    ok opened

  -- 5_deploy_deployer.ts tests the facade.
  unfoldable pub prepare_deployer : World hre.Chain → Result (String × IDeployments)
  unfolding open_deployments check_previous
  prepare_deployer w = do
    opened ← open_deployments w
    validate_implementations hre opened.1 w
    check_previous "Facade" opened.1.facade_read w
    ok opened
