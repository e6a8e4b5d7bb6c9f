-- ===== src/Deploy/Tests/Whole.antt =====
-- Runs of the whole deployment, and of what may come after one.
use reserve_protocol.Base.{ℕ, suc, String, ◌≡◌, refl, ap, true, false, none, some}
use reserve_protocol.Base.Int.{pos, tdiv, ◌*ℤ◌, ◌+ℤ◌, ◌-ℤ◌}
use reserve_protocol.Numbers.{pow10}
use reserve_protocol.Numbers.Parse.{
  bn, fp, parse_scientific, match_groups, scan_digits, span_digits, scan_fraction, scan_exponent,
}
use reserve_protocol.BigNumber.{digits_value, power}
use reserve_protocol.Config.Networks.{network_config}
use reserve_protocol.Deploy.Phase1
use reserve_protocol.Deploy.Prepare
use reserve_protocol.Deploy.Guards
use reserve_protocol.Deploy.Tasks
use reserve_protocol.Deploy.Store
use reserve_protocol.Chain
use reserve_protocol.Base.Text.{lookup, insert}
use reserve_protocol.BigNumber.{integers}
use reserve_protocol.Errors.{Error, ok, err}
use reserve_protocol.Config.{get_network_config}
use reserve_protocol.Deploy.Store.{
  IDeployments, IAssetCollDeployments, File, deployments, asset_coll, get_deployment_filename,
  get_asset_coll_deployment_filename, file_exists,
}
use reserve_protocol.Deploy.Guards.{
  ask_chain_id, get_chain_id, validate_prerequisites, validate_implementations,
}
use reserve_protocol.Deploy.Prepare.{fresh_deployments}
use reserve_protocol.Deploy.Phase1.{
  deploy_implementations, deploy_all_implementations, setup_deployments, deploy_phase1,
}
use reserve_protocol.Deploy.Phase2
use reserve_protocol.Deploy.Phase2.Terms
use reserve_protocol.Deploy.Phase2.Collateral
use reserve_protocol.Deploy.Full
use reserve_protocol.Deploy.Full.{deploy_all}
use reserve_protocol.Deploy.Phase2.{Context}
use reserve_protocol.Deploy.Phase2.Collateral.{deploy_fiats, deploy_collateral}
use reserve_protocol.Chain.{Hardhat, IsHardhat, World}
use reserve_protocol.Deploy.Tests.{local_chain, local_chain-IsHardhat, local_id, start}
use reserve_protocol.Deploy.Tests.Deployed.{texts}
use reserve_protocol.Deploy.Full.Again.{deploy_all-again}
use reserve_protocol.Config.{is_development_chain}
use reserve_protocol.Deploy.Store.{get_rtoken_deployment_filename}
use reserve_protocol.Config.RToken.{rtoken_name}
use reserve_protocol.Confirm.{confirm}
use reserve_protocol.Confirm.Missing.{confirm-missing}
use reserve_protocol.Chain.Calls.{Contracts}

-- The main network, where every address is the same.
abbrev main_chain : Hardhat
main_chain = record {
  Chain = ℕ;
  network_name = "mainnet";
  send = λ n method. some "1";
  hex_to_decimal = λ hex. some "1";
  has_code = λ n a. true;
  deploy = λ c n. some ("0xc0de", suc n);
  call_text = λ n a method. some "0xc0de";
  call_number = λ n a method. some (pos 8);
}

main_chain-IsHardhat : IsHardhat main_chain
main_chain-IsHardhat = record {
  deployed = λ c n a n' h. (refl, cc);
  kept = λ c n a n' b h live. refl;
  same_network = λ c n a n' method h. refl;
}

abbrev main_contracts : Contracts main_chain
main_contracts = record {
  chai = texts;
  Log = String;
  parse_log = λ l. none;
  address_of = λ v. some v;
  to_asset = λ n registry token. none;
  paused = λ n a. some true;
  price = λ n a. some (false, pos 8);
  deploy_rtoken = λ target config setup n. (none, n);
  setup_governance = λ target setup n. (none, n);
}

-- The whole deployment goes through on both chains.
all_ends :
    ((deploy_all local_chain integers start).0 ≡ ok tt)
    × ((deploy_all main_chain integers start).0 ≡ ok tt)
unfolding Phase1.deploy_phase1 Phase1.setup_deployments Phase1.deploy_libraries
    Phase1.deploy_implementations Phase1.deploy_all_implementations Phase1.deploy_main
    Phase1.deploy_trade Phase1.deploy_component Phase1.deploy_traders Phase1.save
    Phase1.write_component_deployment Phase1.deploy_rsr_asset Phase1.deploy_facade
    Phase1.deploy_deployer Phase1.deploy_facade_write Phase1.deploy_facade_act
    Prepare.open_deployments Prepare.check_previous Prepare.setup_from Prepare.prepare_setup
    Prepare.prepare_libraries Prepare.prepare_implementations Prepare.prepare_rsr_asset
    Prepare.prepare_after_asset Prepare.prepare_deployer Guards.ask_chain_id Guards.get_chain_id
    Guards.validate_prerequisites Guards.validate_implementations Guards.valid_components
    Guards.lacks_implementations Guards.get_current_price Guards.price_of Guards.get_oracle_timeout
    Tasks.deploy_asset Tasks.deploy_with Tasks.start_task Tasks.check_params Tasks.param
    Store.get_deployment_filename Store.get_deployment_file Store.file_exists Chain.◌>>=◌ Chain.◌>>◌
    Chain.pure Chain.reads Chain.write_file Chain.deploy Chain.call_number get_network_config
    network_config lookup insert bn fp parse_scientific match_groups scan_digits span_digits
    scan_fraction scan_exponent digits_value power tdiv ◌*ℤ◌ ◌+ℤ◌ ◌-ℤ◌ pow10 Chain.call_text
    Tasks.deploy_fiat_collateral Tasks.deploy_atoken_fiat_collateral Tasks.deploy_nonfiat_collateral
    Tasks.deploy_eurfiat_collateral Tasks.deploy_selfreferential_collateral
    Tasks.deploy_ctoken_selfreferential_collateral Tasks.deploy_ctoken_fiat_collateral
    Tasks.deploy_ctoken_nonfiat_collateral Tasks.underlying_decimals
    Store.get_asset_coll_deployment_filename Phase2.open_asset_coll Phase2.write_then_record
    Phase2.record_then_write Phase2.record_only Terms.fp_of Terms.bn_of Terms.basic_terms
    Terms.selfreferential_terms Terms.collateral_terms Terms.fiat_params Terms.scaled_price
    Terms.static_atoken Terms.atoken_params Terms.exchange_rate Terms.ctoken_params
    Terms.cwbtc_params Terms.ceth_params Terms.two_feed_params Terms.weth_params Collateral.block
    Collateral.fiat_block Collateral.atoken_block Collateral.ctoken_block Collateral.deploy_fiats
    Collateral.deploy_atokens Collateral.deploy_ctokens Collateral.deploy_others
    Collateral.deploy_blocks Collateral.deploy_collateral Phase2.prepare_asset_coll
    Phase2.setup_asset_coll Terms.asset_params Collateral.deploy_asset_of Collateral.deploy_assets
    Full.deploy_all Full.deploy_phase2
all_ends = (refl, refl)

-- what the runs leave
abbrev local_left : World ℕ
local_left = (deploy_all local_chain integers start).1

abbrev main_left : World ℕ
main_left = (deploy_all main_chain integers start).1

deploy_all-again_example :
    deploy_all local_chain integers local_left
    ≡ (err (Error.file_exists_already (get_deployment_filename "31337")), local_left)
deploy_all-again_example =
    deploy_all-again local_chain local_chain-IsHardhat integers start local_left "31337"
      (local_id start) (ap (λ r. (r, local_left)) all_ends.0)

main_id : get_chain_id main_chain start ≡ ok "1"
unfolding get_chain_id ask_chain_id
main_id = refl

confirm-missing_example :
    confirm main_chain main_contracts integers main_left
    ≡ err (Error.file_missing (get_rtoken_deployment_filename "1" rtoken_name))
unfolding lookup is_development_chain
confirm-missing_example =
    confirm-missing main_chain main_contracts integers main_chain-IsHardhat start main_left "1"
      main_id refl refl (ap (λ r. (r, main_left)) all_ends.1)
