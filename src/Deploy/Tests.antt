-- ===== src/Deploy/Tests.antt =====
-- The deployment scripts on a chain that accepts every contract.
mod Whole
mod Tokens
mod Deployed
mod Verified
use reserve_protocol.Base.{ℕ, suc, String, ◌≡◌, refl, ◌↔◌, ◌⊎◌, inr, true, none, some, [], ◌∷◌, All}
use reserve_protocol.Base.Int.{pos, tdiv, ◌*ℤ◌, ◌+ℤ◌, ◌-ℤ◌}
use reserve_protocol.Numbers.{pow10}
use reserve_protocol.Numbers.Parse.{
  bn, fp, parse_scientific, match_groups, scan_digits, span_digits, scan_fraction, scan_exponent,
}
use reserve_protocol.BigNumber.{digits_value, power}
use reserve_protocol.Config.Networks.{network_config}
use reserve_protocol.Deploy.Phase1
use reserve_protocol.Deploy.Prepare
use reserve_protocol.Deploy.Guards
use reserve_protocol.Deploy.Tasks
use reserve_protocol.Deploy.Store
use reserve_protocol.Chain
use reserve_protocol.Base.Text.{lookup, insert}
use reserve_protocol.BigNumber.{integers}
use reserve_protocol.Errors.{Error, ok, err}
use reserve_protocol.Config.{get_network_config}
use reserve_protocol.Config.Networks.{localhost}
use reserve_protocol.Deploy.Store.{
  IDeployments, IAssetCollDeployments, File, deployments, asset_coll, get_deployment_filename,
  get_asset_coll_deployment_filename, file_exists,
}
use reserve_protocol.Deploy.Guards.{
  ask_chain_id, get_chain_id, validate_prerequisites, validate_implementations,
}
use reserve_protocol.Deploy.Guards.Valid.{
  IsDeployedAt, prerequisite_addresses, implementation_addresses, validate_prerequisites_iff,
  validate_implementations_iff,
}
use reserve_protocol.Deploy.Prepare.{fresh_deployments}
use reserve_protocol.Deploy.Phase1.{
  deploy_implementations, deploy_all_implementations, setup_deployments, deploy_phase1,
}
use reserve_protocol.Deploy.Phase1.Progress.{Reached, Interrupted, Stage}
use reserve_protocol.Deploy.Phase1.Getters.{
  with_prerequisites, with_libraries, with_implementations, complete,
}
use reserve_protocol.Deploy.Phase1.Implementations.{deploy_all_implementations-Reached}
use reserve_protocol.Deploy.Phase1.Setup.{setup-Stage}
use reserve_protocol.Deploy.Phase1.Scripts.{implementations-validated}
use reserve_protocol.Deploy.Phase1.Pipeline.{deploy_phase1-Stage}
use reserve_protocol.Deploy.Phase2
use reserve_protocol.Deploy.Phase2.Terms
use reserve_protocol.Deploy.Phase2.Collateral
use reserve_protocol.Deploy.Full
use reserve_protocol.Deploy.Full.{deploy_all}
use reserve_protocol.Deploy.Full.Complete.{IsComplete, Untouched, deploy_all-IsComplete}
use reserve_protocol.Config.Networks.{network_config}
use reserve_protocol.Deploy.Phase2.{Context, setup_asset_coll}
use reserve_protocol.Deploy.Phase2.Setup.{with_empty_list, IsReady, setup_asset_coll_iff}
use reserve_protocol.Deploy.Phase2.Collateral.{deploy_fiats, deploy_collateral}
use reserve_protocol.Deploy.Phase2.Progress.{Listed, Halted}
use reserve_protocol.Deploy.Phase2.Listing.{all_symbols}
use reserve_protocol.Deploy.Phase2.Collected.{deploy_collateral-Listed}
use reserve_protocol.Deploy.Phase2.Lag.{deploy_fiats_behind}
use reserve_protocol.Chain.{Hardhat, IsHardhat, World}
use reserve_protocol.Chain.Outcome.{Runs}

-- A chain counts its deployments; each gets the same address.
abbrev pub local_chain : Hardhat
local_chain = record {
  Chain = ℕ;
  network_name = "localhost";
  send = λ n method. some "31337";
  hex_to_decimal = λ hex. some "31337";
  has_code = λ n a. true;
  deploy = λ c n. some ("0xc0de", suc n);
  call_text = λ n a method. some "0xc0de";
  call_number = λ n a method. some (pos 8);
}

pub local_chain-IsHardhat : IsHardhat local_chain
local_chain-IsHardhat = record {
  deployed = λ c n a n' h. (refl, cc);
  kept = λ c n a n' b h live. refl;
  same_network = λ c n a n' method h. refl;
}

abbrev pub start : World ℕ
start = record { files = []; chain = 0 }

abbrev local_file : String
local_file = "./scripts/addresses/31337-tmp-deployments.json"

pub local_id : (w : World ℕ) → get_chain_id local_chain w ≡ ok "31337"
unfolding get_chain_id ask_chain_id
local_id w = refl

abbrev first : IDeployments
first = fresh_deployments "0xaa" "0xbb" "0xcc"

abbrev linked_libraries : IDeployments
linked_libraries = record first {
  rewardable_lib = "0x01";
  trading_lib = "0x02";
  permit_lib = "0x03";
  oracle_lib = "0x04";
}

abbrev after : IDeployments → World ℕ
after d = record { files = (local_file, deployments d) ∷ []; chain = 4 }

linked-Reached :
    Reached local_chain local_file
      (after linked_libraries)
      with_libraries
      linked_libraries
      (after linked_libraries)
unfolding lookup
linked-Reached = record {
  filled = (
    (refl, refl),
    (
      (refl, refl),
      ((refl, refl), ((refl, refl), ((refl, refl), ((refl, refl), ((refl, refl), tt))))),
    ),
  );
  written = refl;
  others = λ n ne. refl;
  network = λ method. refl;
}

deploy_all-IsComplete_example :
    Runs
      (λ u w. IsComplete local_chain local_chain-IsHardhat start "31337" (local_id start) w)
      (λ w. Untouched local_chain local_chain-IsHardhat start "31337" (local_id start) w)
      (deploy_all local_chain integers)
      start
deploy_all-IsComplete_example =
    deploy_all-IsComplete local_chain local_chain-IsHardhat start "31337" (local_id start) integers

deploy_phase1-Stage_example :
    Runs
      (λ u w. Stage local_chain local_file start complete w)
      (λ w. (w ≡ start) ⊎ Interrupted local_chain local_file start w)
      (deploy_phase1 local_chain integers)
      start
unfolding get_deployment_filename
deploy_phase1-Stage_example =
    deploy_phase1-Stage local_chain local_chain-IsHardhat start "31337" (local_id start) integers

-- The node changes nothing but the count, so the run of the eleven deployments starts at the file.
deploy_all_implementations-Reached_example :
    Runs
      (Reached local_chain local_file (after linked_libraries) with_implementations)
      (Interrupted local_chain local_file (after linked_libraries))
      (deploy_all_implementations local_chain local_file linked_libraries)
      (after linked_libraries)
deploy_all_implementations-Reached_example =
    deploy_all_implementations-Reached local_chain local_chain-IsHardhat local_file
      (after linked_libraries) linked_libraries (after linked_libraries) linked-Reached

implementations-validated_example :
    Runs
      (λ d w.
        (lookup local_file w.files ≡ some (deployments d))
        × (validate_prerequisites local_chain d w ≡ ok tt)
        × (validate_implementations local_chain d w ≡ ok tt))
      (Interrupted local_chain local_file (after linked_libraries))
      (deploy_implementations local_chain)
      (after linked_libraries)
unfolding get_deployment_filename
implementations-validated_example =
    implementations-validated local_chain local_chain-IsHardhat (after linked_libraries) "31337"
      (local_id (after linked_libraries)) linked-Reached

setup-Stage_example :
    Runs
      (λ u w. Stage local_chain local_file start with_prerequisites w)
      (λ w. w ≡ start)
      (setup_deployments local_chain)
      start
unfolding get_deployment_filename
setup-Stage_example = setup-Stage local_chain start "31337" (local_id start)

prerequisites_tested :
    (validate_prerequisites local_chain first start ≡ ok tt)
    ↔ All (IsDeployedAt local_chain start) (prerequisite_addresses first)
prerequisites_tested = validate_prerequisites_iff local_chain start first

validate_implementations_iff_example :
    (validate_implementations local_chain first start ≡ ok tt)
    ↔ All (IsDeployedAt local_chain start) (implementation_addresses first.implementations)
validate_implementations_iff_example = validate_implementations_iff local_chain start first

abbrev collateral_file : String
collateral_file = "./scripts/addresses/31337-tmp-assets-collateral.json"

abbrev no_collateral : IAssetCollDeployments
no_collateral = record { assets = []; collateral = [] }

-- The state after both setup scripts.
abbrev both_files : World ℕ
both_files = record {
  files =
      (local_file, deployments linked_libraries) ∷ (collateral_file, asset_coll no_collateral) ∷ [];
  chain = 4;
}

abbrev context : Context
context = record {
  chain_id = "31337";
  config = localhost;
  oracle_lib = "0x04";
  file = collateral_file;
}

deploy_collateral-Listed_example :
    Runs
      (λ d w.
        Listed local_chain collateral_file both_files all_symbols d w
        × (lookup collateral_file w.files ≡ some (asset_coll d)))
      (λ w. (w ≡ both_files) ⊎ Halted local_chain collateral_file both_files w)
      (deploy_collateral local_chain integers)
      both_files
unfolding get_asset_coll_deployment_filename
deploy_collateral-Listed_example =
    deploy_collateral-Listed local_chain both_files "31337" (local_id both_files)
      local_chain-IsHardhat integers

deploy_fiats_behind_example :
    Runs
      (λ d w.
        ((a : String) × (lookup "BUSD" d.collateral ≡ some a))
        × (f : IAssetCollDeployments) × (lookup collateral_file w.files ≡ some (asset_coll f))
        × (lookup "BUSD" f.collateral ≡ none))
      (λ w. Unit {0})
      (deploy_fiats local_chain integers context no_collateral)
      both_files
unfolding lookup
deploy_fiats_behind_example =
    deploy_fiats_behind local_chain integers context no_collateral both_files refl

-- the state after phase 1
abbrev first_file : World ℕ
first_file = after first

setup_asset_coll_iff_example :
    ((setup_asset_coll local_chain first_file
        ≡ (ok tt, with_empty_list local_chain first_file "31337" (local_id first_file)))
      ↔ IsReady local_chain first_file "31337" (local_id first_file)
        × (with_empty_list local_chain first_file "31337" (local_id first_file)
            ≡ with_empty_list local_chain first_file "31337" (local_id first_file)))
    × ((e : Error)
        → setup_asset_coll local_chain first_file
          ≡ (err e, with_empty_list local_chain first_file "31337" (local_id first_file))
        → with_empty_list local_chain first_file "31337" (local_id first_file) ≡ first_file)
setup_asset_coll_iff_example =
    setup_asset_coll_iff local_chain first_file "31337" (local_id first_file)
      (with_empty_list local_chain first_file "31337" (local_id first_file))

-- The script ends here.
first_file-IsReady : IsReady local_chain first_file "31337" (local_id first_file)
unfolding get_deployment_filename get_asset_coll_deployment_filename get_network_config
    network_config file_exists lookup
first_file-IsReady = record { network = localhost; configured = refl; first = refl; absent = refl }
