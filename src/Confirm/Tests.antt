-- ===== src/Confirm/Tests.antt =====
-- A test network on which one asset and one collateral are confirmed.
use reserve_protocol.Base.{
  ℕ, ◌^◌, String, ◌≡◌, refl, ◌↔◌, true, false, none, some, [], ◌∷◌, All, if◌then◌else◌,
}
use text.Mathlib.Text.{◌==◌ as str_eq}
use reserve_protocol.Base.Int.{pos, tdiv, ◌*ℤ◌, ◌+ℤ◌, ◌-ℤ◌}
use reserve_protocol.Base.Text.{lookup}
use reserve_protocol.BigNumber.{integers, integers-IsBigNumbers, digits_value, power}
use reserve_protocol.Numbers.Parse.{
  bn, parse_scientific, match_groups, scan_digits, span_digits, scan_fraction, scan_exponent,
}
use reserve_protocol.Errors.{ok}
use reserve_protocol.Config.{get_network_config, is_development_chain}
use reserve_protocol.Config.Networks.{network_config}
use reserve_protocol.Config.RToken.{get_rtoken_config}
use reserve_protocol.Config.Laws.{published_token}
use reserve_protocol.Deploy.Store.{
  IAssetCollDeployments, asset_coll, rtoken, get_deployment_file,
  get_asset_coll_deployment_filename, get_rtoken_deployment_filename,
}
use reserve_protocol.Deploy.Guards.{ask_chain_id, get_chain_id}
use reserve_protocol.Deploy.Phase3.{fresh_rtoken}
use reserve_protocol.Events.{Chai}
use reserve_protocol.Confirm.{
  values, open_network, confirm_asset, confirm_collateral, confirm_each, confirm_assets,
  confirm_components, price_bounds, out_of_bounds, current_price, peg_product,
}
use reserve_protocol.Confirm.Assets.{IsAssetConfirmed, IsCollateralConfirmed, confirm_assets_iff}
use reserve_protocol.Confirm.Components.{IsBricked, confirm_components_iff, confirm_components-ok}
use reserve_protocol.Chain.{Hardhat, World, call_text, call_number}
use reserve_protocol.Chain.Calls.{Contracts}

-- Every number is 10^18, but the delay of the timelock, which is that of the main network.
abbrev mainnet : Hardhat
mainnet = record {
  Chain = ℕ;
  network_name = "mainnet";
  send = λ n method. some "1";
  hex_to_decimal = λ hex. some "1";
  has_code = λ n a. true;
  deploy = λ c n. none;
  call_text = λ n a method. some "0xc0de";
  call_number =
      λ n a method. some (if str_eq method "getMinDelay" then pos (2 ^ 47) else pos (10 ^ 18));
}

abbrev texts : Chai
texts = record {
  Value = String;
  is_null = λ v. false;
  is_big_number = λ v. false;
  equal = str_eq;
  deep_equal = str_eq;
}

abbrev contracts : Contracts mainnet
contracts = record {
  chai = texts;
  Log = String;
  parse_log = λ l. none;
  address_of = λ v. some v;
  to_asset = λ n registry token. none;
  paused = λ n a. some true;
  price = λ n a. some (false, pos (10 ^ 18));
  deploy_rtoken = λ target config setup n. (none, n);
  setup_governance = λ target setup n. (none, n);
}

abbrev listed : IAssetCollDeployments
listed = record { assets = ("COMP", "0xaa") ∷ []; collateral = ("DAI", "0xbb") ∷ [] }

abbrev world : World ℕ
world = record {
  files =
      ("./scripts/addresses/1-tmp-assets-collateral.json", asset_coll listed)
      ∷ ("./scripts/addresses/1-RTKN-tmp-deployments.json", rtoken (fresh_rtoken "0xcc"))
      ∷ [];
  chain = 0;
}

open_mainnet : open_network mainnet world ≡ ok "1"
unfolding open_network get_chain_id ask_chain_id get_network_config network_config lookup
    is_development_chain
open_mainnet = refl

confirm_assets_iff_example :
    (confirm_assets mainnet contracts integers world ≡ ok tt)
    ↔ All
        (IsAssetConfirmed mainnet contracts integers integers-IsBigNumbers world)
        (values listed.assets)
      × All
          (IsCollateralConfirmed mainnet contracts integers integers-IsBigNumbers world)
          (values listed.collateral)
unfolding lookup get_asset_coll_deployment_filename
confirm_assets_iff_example =
    confirm_assets_iff mainnet contracts integers integers-IsBigNumbers world "1" listed
      open_mainnet refl

-- Both sides hold here.
assets_confirmed : confirm_assets mainnet contracts integers world ≡ ok tt
unfolding confirm_assets open_network get_chain_id ask_chain_id get_network_config network_config
    lookup is_development_chain get_deployment_file get_asset_coll_deployment_filename confirm_each
    confirm_asset confirm_collateral price_bounds out_of_bounds current_price peg_product call_text
    call_number bn match_groups scan_digits span_digits scan_fraction scan_exponent parse_scientific
    digits_value power ◌+ℤ◌ ◌-ℤ◌ ◌*ℤ◌ tdiv
assets_confirmed = refl

abbrev main_id : String
main_id = "1"

confirm_components_iff_example : (confirm_components mainnet contracts integers world ≡ ok tt) ↔ (
    main_id ≡ "1"
    → IsBricked mainnet contracts integers integers-IsBigNumbers world (fresh_rtoken "0xcc"))
unfolding lookup get_rtoken_deployment_filename
confirm_components_iff_example =
    confirm_components_iff mainnet contracts integers integers-IsBigNumbers world "1"
      (fresh_rtoken "0xcc") open_mainnet refl

-- Both sides hold here.
components_confirmed : confirm_components mainnet contracts integers world ≡ ok tt
unfolding lookup get_rtoken_deployment_filename get_rtoken_config get_network_config network_config
components_confirmed =
    confirm_components-ok mainnet contracts integers integers-IsBigNumbers world "1"
      (fresh_rtoken "0xcc") (published_token 14_400 7200 14_400 (2 ^ 47)) open_mainnet refl refl
      refl (λ e. refl)
