-- ===== src/Deploy/Tests/Tokens.antt =====
-- Phase 3 on a chain whose contracts are those of one RToken.
use reserve_protocol.Base.{ℕ, ◌≡◌, refl, ◌↔◌, [], ◌∷◌}
use reserve_protocol.Base.Int.{pos, tdiv, ◌*ℤ◌, ◌+ℤ◌, ◌-ℤ◌}
use reserve_protocol.Base.Text.{lookup, insert}
use reserve_protocol.BigNumber.{integers, integers-IsBigNumbers, digits_value, power}
use reserve_protocol.Errors.{ok}
use reserve_protocol.Config.RToken.{IrToken, get_rtoken_config}
use reserve_protocol.Config.Laws.{published_token}
use reserve_protocol.Deploy.Store.{
  deployments, asset_coll, rtoken, get_asset_coll_deployment_filename,
  get_rtoken_deployment_filename, file_exists,
}
use reserve_protocol.Deploy.Guards.{ask_chain_id, get_chain_id}
use reserve_protocol.Numbers.Parse.{
  bn, fp, parse_scientific, match_groups, scan_digits, span_digits, scan_fraction, scan_exponent,
}
use reserve_protocol.Config.{IrTokenSetup, get_network_config}
use reserve_protocol.Config.Networks.{network_config}
use reserve_protocol.Config.RToken.{params, rtoken_config}
use reserve_protocol.Deploy.Store.{get_deployment_file}
use reserve_protocol.Deploy.Phase3
use reserve_protocol.Deploy.Phase3.Weights.{quarter, half}
use reserve_protocol.Deploy.Phase3.{
  RTokenRun, GovernanceRun, prepare_rtoken, prepare_governance, check_main, fresh_rtoken,
}
use reserve_protocol.Deploy.Phase3.Checks.{IsAgreed, check_main_iff}
use reserve_protocol.Deploy.Phase3.Prepared
use reserve_protocol.Deploy.Phase3.Scripts.{setup_rtoken_file, deploy_rtoken, deploy_governance}
use reserve_protocol.Deploy.Phase3.Sent
use reserve_protocol.Deploy.Phase3.Started
use reserve_protocol.Deploy.Phase3.Followed
use reserve_protocol.Deploy.Tests.{
  local_chain, local_chain-IsHardhat, local_id, local_file, collateral_file,
}
use reserve_protocol.Events.{
  expect_in_indirect_receipt, decoded_events, named_logs, search_events, find_event, found_event,
  check_entries,
}
use reserve_protocol.Chain.Calls.{event_address}
use reserve_protocol.Chain.{call_text}
use reserve_protocol.Deploy.Phase3.Scripts
use reserve_protocol.Deploy.Phase3.Scripts.{RTokenAddresses, record_rtoken}
use reserve_protocol.Chain.{World}
use reserve_protocol.Chain.Outcome.{Runs}
use reserve_protocol.Deploy.Tests.Deployed.{
  local_receipt, local_contracts, all_deployed, all_listed, rtoken_local_file, deployed, tokens,
  deployed-IsComplete,
}

abbrev local_token : IrToken
local_token = published_token 14_400 7200 14_400 345_600

setup_rtoken_file-IsStarted_example :
    Runs
      (λ u w'.
        Started.IsStarted local_chain integers integers-IsBigNumbers deployed "31337"
          (local_id deployed)
          w')
      (λ w'. w' ≡ deployed)
      (setup_rtoken_file local_chain integers)
      deployed
setup_rtoken_file-IsStarted_example =
    Started.setup_rtoken_file-IsStarted local_chain integers integers-IsBigNumbers deployed "31337"
      (local_id deployed)

setup_rtoken_file-ok_example : setup_rtoken_file local_chain integers deployed ≡ (
  ok tt,
  Started.started local_chain integers integers-IsBigNumbers deployed "31337"
      (local_id deployed)
      all_deployed,
)
unfolding get_rtoken_config get_rtoken_deployment_filename file_exists lookup deployed-IsComplete
setup_rtoken_file-ok_example =
    Started.setup_rtoken_file-ok local_chain integers integers-IsBigNumbers deployed "31337"
      (local_id deployed) local_chain-IsHardhat deployed (local_id deployed) deployed-IsComplete
      local_token refl refl

deploy_rtoken-IsRecorded_example :
    Runs
      (λ u w'. Sent.IsRecorded local_chain local_contracts integers tokens w')
      (Sent.IsUnrecorded local_chain local_contracts integers tokens)
      (deploy_rtoken local_chain local_contracts integers)
      tokens
deploy_rtoken-IsRecorded_example =
    Sent.deploy_rtoken-IsRecorded local_chain local_contracts integers tokens

deploy_governance-IsGoverned_example :
    Runs
      (λ u w'. Sent.IsGoverned local_chain local_contracts integers tokens w')
      (Sent.IsUngoverned local_chain local_contracts integers tokens)
      (deploy_governance local_chain local_contracts integers)
      tokens
deploy_governance-IsGoverned_example =
    Sent.deploy_governance-IsGoverned local_chain local_contracts integers tokens

check_main_iff_example :
    (check_main local_chain integers (fresh_rtoken "0xc0de") tokens ≡ ok tt)
    ↔ IsAgreed local_chain (fresh_rtoken "0xc0de") tokens
check_main_iff_example = check_main_iff local_chain integers (fresh_rtoken "0xc0de") tokens

abbrev local_setup : IrTokenSetup
local_setup = record {
  assets = "0xc0de" ∷ "0xc0de" ∷ [];
  primary_basket = "0xc0de" ∷ "0xc0de" ∷ "0xc0de" ∷ [];
  weights = quarter ∷ quarter ∷ half ∷ [];
  backups =
      record { backup_unit = "USD"; diversity_factor = pos 1; backup_collateral = "0xc0de" ∷ [] }
      ∷ [];
}

abbrev local_run : RTokenRun
local_run = record {
  file = rtoken_local_file;
  deployments = fresh_rtoken "0xc0de";
  config = local_token.config;
  setup = local_setup;
}

local_run-tested : prepare_rtoken local_chain integers tokens ≡ ok local_run
unfolding prepare_rtoken Phase3.open_rtoken_config Phase3.open_rtoken_file Phase3.rtoken_setup
    Phase3.setup_weights Phase3.backup_info Phase3.require_contracts get_chain_id ask_chain_id
    get_rtoken_config get_network_config get_rtoken_deployment_filename
    get_asset_coll_deployment_filename get_deployment_file lookup rtoken_config bn fp match_groups
    scan_digits span_digits scan_fraction scan_exponent parse_scientific digits_value power ◌+ℤ◌
    ◌-ℤ◌ ◌*ℤ◌ tdiv params network_config
local_run-tested = refl

prepare_rtoken-IsPrepared_example :
    Prepared.IsPrepared local_chain integers integers-IsBigNumbers tokens "31337"
      (local_id tokens)
      local_run
prepare_rtoken-IsPrepared_example =
    Prepared.prepare_rtoken-IsPrepared local_chain integers integers-IsBigNumbers tokens "31337"
      (local_id tokens) local_run local_run-tested

abbrev local_addresses : RTokenAddresses
local_addresses = record {
  main = "0xc0de";
  components = all_deployed.implementations.components;
  rtoken_asset = "0xc0de";
}

abbrev recorded : World ℕ
recorded = record {
  files =
      (local_file, deployments all_deployed)
      ∷ (collateral_file, asset_coll all_listed)
      ∷ (rtoken_local_file, rtoken (record_rtoken local_addresses (fresh_rtoken "0xc0de")))
      ∷ [];
  chain = 5;
}

recorded-IsRecorded : Sent.IsRecorded local_chain local_contracts integers tokens recorded
unfolding Scripts.created_main expect_in_indirect_receipt decoded_events named_logs search_events
    find_event found_event check_entries event_address lookup insert
recorded-IsRecorded = record {
  run = local_run;
  tested = local_run-tested;
  receipt = local_receipt;
  sent = refl;
  addresses = local_addresses;
  created = refl;
  answered = record {
    rtoken = refl;
    asset_registry = refl;
    rtoken_asset = refl;
    backing_manager = refl;
    basket_handler = refl;
    broker = refl;
    distributor = refl;
    furnace = refl;
    rtoken_trader = refl;
    rsr_trader = refl;
    st_rsr = refl;
  };
  files = refl;
}

abbrev local_governance : GovernanceRun
local_governance =
    Followed.governance_run local_chain integers integers-IsBigNumbers "31337" local_token
      (record_rtoken local_addresses (fresh_rtoken "0xc0de"))

governance_follows_example : prepare_governance local_chain integers recorded ≡ ok local_governance
unfolding get_rtoken_config get_network_config network_config lookup recorded-IsRecorded
governance_follows_example =
    Followed.governance_follows local_chain integers integers-IsBigNumbers "31337" local_contracts
      tokens recorded local_token recorded-IsRecorded (local_id tokens) (local_id recorded) refl
      (record { main = (refl, refl); rtoken = (refl, refl); st_rsr = (refl, refl); main_of = refl })

local_governance-tested : prepare_governance local_chain integers recorded ≡ ok local_governance
unfolding prepare_governance Phase3.open_rtoken_config Phase3.open_rtoken_file Phase3.check_main
    call_text get_chain_id ask_chain_id get_rtoken_config get_network_config
    get_rtoken_deployment_filename get_deployment_file lookup rtoken_config bn fp match_groups
    scan_digits span_digits scan_fraction scan_exponent parse_scientific digits_value power ◌+ℤ◌
    ◌-ℤ◌ ◌*ℤ◌ tdiv params network_config
local_governance-tested = refl

prepare_governance-IsGovernancePrepared_example :
    Prepared.IsGovernancePrepared local_chain integers integers-IsBigNumbers recorded "31337"
      (local_id recorded)
      local_governance
prepare_governance-IsGovernancePrepared_example =
    Prepared.prepare_governance-IsGovernancePrepared local_chain integers integers-IsBigNumbers
      recorded "31337" (local_id recorded) local_governance local_governance-tested
