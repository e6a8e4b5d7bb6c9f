-- ===== src/Verify/Tests.antt =====
-- A chain and an Etherscan that has the source of every contract.
use reserve_protocol.Base.{
  ◌↔◌, false, ℕ, suc, ◌^◌, ◌*◌, String, ◌≡◌, ◌≢◌, refl, true, some, List, [], ◌∷◌, if◌then◌else◌,
}
use text.Mathlib.Text.{◌==◌ as str_eq}
use reserve_protocol.Base.Int.{ℤ, pos, tdiv, ◌*ℤ◌, ◌+ℤ◌, ◌-ℤ◌}
use reserve_protocol.Base.Text.{Dict, lookup}
use reserve_protocol.BigNumber.{integers, digits_value, power}
use reserve_protocol.Numbers.Parse.{
  bn, fp, parse_scientific, match_groups, scan_digits, span_digits, scan_fraction, scan_exponent,
}
use reserve_protocol.Errors.{Result, ok}
use reserve_protocol.Config.Networks.{localhost}
use reserve_protocol.Deploy.Prepare.{zero_address, if_defined}
use reserve_protocol.Deploy.Phase2.Terms.{optional_address}
use reserve_protocol.Deploy.Guards.{
  ask_chain_id, get_chain_id, get_current_price, price_of, get_oracle_timeout,
}
use reserve_protocol.Deploy.Phase2.Terms.{
  fp_of, bn_of, basic_terms, selfreferential_terms, collateral_terms, two_feed_params,
  static_atoken,
}
use reserve_protocol.Deploy.Tasks.{
  param, check_params, start_task, deploy_with, deploy_nonfiat_collateral,
}
use reserve_protocol.Chain
use reserve_protocol.Chain.{
  Arg, address, amount, bytes32, label, Creation, Hardhat, World, call_text, call_number,
}
use reserve_protocol.Verify.{
  Request, Etherscan, ask_status, verify_each, verify_contract, submit, status_url,
  get_etherscan_base_url, url_prefix,
}
use reserve_protocol.Verify.Requests.{request}
use reserve_protocol.Verify.Collateral.{Listing, collateral_at, static_atoken_request, wbtc_request}
use reserve_protocol.Verify.Quiet.{Verified, verify_each_iff}
use reserve_protocol.Verify.Arguments.{context_of, collateral_creation, wbtc_request-deployed}
use reserve_protocol.Verify.Wrapper.{static_atoken_request_ne}

abbrev wbtc_price : ℤ
wbtc_price = pos (8 * 10 ^ 10)

abbrev mainnet : Hardhat
mainnet = record {
  Chain = ℕ;
  network_name = "mainnet";
  send = λ n method. some "1";
  hex_to_decimal = λ hex. some "1";
  has_code = λ n a. true;
  deploy = λ c n. some ("0xc0de", suc n);
  call_text = λ n a method. some "aDAI";
  call_number = λ n a method. some (if str_eq method "fallbackPrice" then wbtc_price else pos 8);
}

abbrev world : World ℕ
world = record { files = []; chain = 0 }

abbrev deployed : World ℕ
deployed = record { files = []; chain = 1 }

abbrev requests : List (World ℕ → Result Request)
requests = (λ w. ok (request "0xaa" [] "A.sol:A")) ∷ (λ w. ok (request "0xbb" [] "B.sol:B")) ∷ []

-- Etherscan counts what is submitted, and has the source of the first contract only.
abbrev half_known : Etherscan mainnet
half_known = record {
  api_key = "key";
  get = λ n url. some (record {
    status = 200;
    data_status = "1";
    source_code = some (
        if str_eq url
          "https://api.etherscan.io/api/?module=contract&action=getsourcecode&address=0xaa&apikey=key"
        then "contract"
        else "");
  });
  run_verify = λ r n. (false, suc n);
}

abbrev submitted_once : World ℕ
submitted_once = record { files = []; chain = 1 }

verify_each_iff_example :
    (verify_each mainnet half_known "1" requests world ≡ (ok tt, submitted_once))
    ↔ Verified mainnet half_known "1" requests world submitted_once
verify_each_iff_example = verify_each_iff mainnet half_known "1" requests world submitted_once

-- Both sides hold here: one contract is left out, the other is submitted, without success.
second_submitted : verify_each mainnet half_known "1" requests world ≡ (ok tt, submitted_once)
unfolding verify_each verify_contract submit ask_status status_url get_etherscan_base_url url_prefix
    Chain.reads Chain.pure Chain.◌>>=◌ Chain.◌>>◌
second_submitted = refl

abbrev listing : Listing
listing = record {
  chain_id = "1";
  config = localhost;
  deployments = record { assets = []; collateral = ("WBTC", "0xc0de") ∷ ("aDAI", "0xc0de") ∷ [] };
}

abbrev wbtc_params : Dict Arg
wbtc_params =
    ("fallbackPrice", amount wbtc_price)
    ∷ if_defined "referenceUnitFeed" (lookup "WBTC" localhost.chainlink_feeds) (
        if_defined "targetUnitFeed" (lookup "BTC" localhost.chainlink_feeds) (
          if_defined "tokenAddress" (lookup "WBTC" localhost.tokens) (
            ("rewardToken", address zero_address)
            ∷ ("defaultThreshold", amount (pos (5 * 10 ^ 16)))
            ∷ ("targetName", bytes32 "BTC")
            ∷ ("delayUntilDefault", amount (pos 86_400))
            ∷ ("maxTradeVolume", amount (pos (10 ^ 24)))
            ∷ ("oracleTimeout", amount (pos 86_400))
            ∷ ("oracleLib", address "0x04")
            ∷ [])))

wbtc_made :
    two_feed_params mainnet integers
      (context_of listing "0x04" "file")
      "WBTC"
      "BTC"
      "WBTC"
      "BTC"
      "BTC"
      world
    ≡ ok wbtc_params
unfolding two_feed_params get_current_price price_of get_oracle_timeout fp_of bn_of basic_terms
    selfreferential_terms collateral_terms call_number lookup bn fp match_groups scan_digits
    span_digits scan_fraction scan_exponent parse_scientific digits_value power ◌+ℤ◌ ◌-ℤ◌ ◌*ℤ◌ tdiv
wbtc_made = refl

wbtc_sent : deploy_nonfiat_collateral mainnet wbtc_params world ≡ (ok "0xc0de", deployed)
unfolding deploy_nonfiat_collateral deploy_with start_task check_params get_chain_id ask_chain_id
    lookup Chain.deploy Chain.reads Chain.◌>>=◌ Chain.◌>>◌
wbtc_sent = refl

wbtc_request-deployed_example :
    (arguments : List Arg) × (wbtc_request mainnet integers listing deployed
      ≡ ok (
          request "0xc0de" arguments
            "contracts/plugins/assets/NonFiatCollateral.sol:NonFiatCollateral"))
    × (mainnet.deploy
          (collateral_creation mainnet integers "NonFiatCollateral" wbtc_params arguments)
          0
        ≡ some ("0xc0de", 1))
unfolding lookup param
wbtc_request-deployed_example =
    wbtc_request-deployed mainnet integers listing "0x04" "file" "0xc0de" world deployed deployed
      wbtc_params wbtc_price wbtc_made wbtc_sent refl refl refl

abbrev adai : String
adai = "0x028171bCA77440897B824Ca71D1c56caC55b68A3"

abbrev wrapper_request : Request
wrapper_request =
    request "aDAI"
      (optional_address localhost.aave_lending_pool
        ∷ address adai
        ∷ label "Static aDAI"
        ∷ label "stataDAI"
        ∷ [])
      "contracts/plugins/aave/StaticATokenLM.sol:StaticATokenLM"

abbrev wrapper : Creation
wrapper = record {
  contract = "StaticATokenLM";
  libraries = [];
  arguments =
      optional_address localhost.aave_lending_pool
      ∷ address adai
      ∷ label "Static aDAI"
      ∷ label "saDAI"
      ∷ [];
}

wrapper_made :
    static_atoken mainnet integers (context_of listing "0x04" "file") "aDAI" world ≡ ok wrapper
unfolding static_atoken call_text lookup
wrapper_made = refl

wrapper_sent : static_atoken_request mainnet integers listing deployed ≡ ok wrapper_request
unfolding static_atoken_request collateral_at call_text lookup
wrapper_sent = refl

static_atoken_request_ne_example : wrapper_request.arguments ≢ wrapper.arguments
static_atoken_request_ne_example =
    static_atoken_request_ne mainnet integers listing "0x04" "file" world deployed wrapper
      wrapper_request (λ a. refl) wrapper_made wrapper_sent
