-- ===== src/Verify/Arguments.antt =====
-- The arguments that 6_verify_collateral.ts sends are those with which 2_deploy_collateral.ts
-- deployed, block by block.
use reserve_protocol.Base.{
  String, ◌≡◌, refl, sym, ◌∙◌, ap, Option, none, some, List, [], ◌∷◌, map, ◌++◌,
}
use reserve_protocol.Base.Int.{ℤ}
use reserve_protocol.Base.Text.{Dict, lookup}
use reserve_protocol.BigNumber.{BigNumbers}
use reserve_protocol.Errors.{ok, >>=-eq-ok, ok-injective}
use reserve_protocol.Deploy.Guards.{get_current_price, get_oracle_timeout}
use reserve_protocol.Deploy.Prepare.{zero_address, if_defined}
use reserve_protocol.Deploy.Phase2.{Context}
use reserve_protocol.Deploy.Phase2.Terms.{
  optional_address, fp_of, bn_of, basic_terms, selfreferential_terms, collateral_terms,
  two_feed_params,
}
use reserve_protocol.Deploy.Tasks.{param, deploy_with, deploy_nonfiat_collateral}
use reserve_protocol.Chain.{Arg, address, amount, bytes32, Creation, Hardhat, World, call_number}
use reserve_protocol.Chain.Outcome.{Runs-ok, Runs-check, deploy-sent}
use reserve_protocol.Verify.Requests.{request}
use reserve_protocol.Verify.Collateral.{
  Listing, feed_of, token_of, collateral_at, collateral_arguments, wbtc_request,
}

-- The context in which 2_deploy_collateral.ts deployed what is listed.
abbrev pub context_of : Listing → String → String → Context
context_of c oracle_lib file = record {
  chain_id = c.chain_id;
  config = c.config;
  oracle_lib = oracle_lib;
  file = file;
}

-- The parameters of a run with a default threshold, after the price.
abbrev terms_dict : String → String → ℤ → ℤ → ℤ → ℤ → Dict Arg
terms_dict lib target volume timeout threshold delay =
    ("defaultThreshold", amount threshold)
    ∷ ("targetName", bytes32 target)
    ∷ ("delayUntilDefault", amount delay)
    ∷ ("maxTradeVolume", amount volume)
    ∷ ("oracleTimeout", amount timeout)
    ∷ ("oracleLib", address lib)
    ∷ []

abbrev fiat_keys : List String
fiat_keys =
    "fallbackPrice" ∷ "priceFeed" ∷ "tokenAddress" ∷ "rewardToken" ∷ "maxTradeVolume"
    ∷ "oracleTimeout" ∷ "targetName" ∷ "defaultThreshold" ∷ "delayUntilDefault" ∷ []

abbrev two_feed_keys : List String
two_feed_keys =
    "fallbackPrice" ∷ "referenceUnitFeed" ∷ "targetUnitFeed" ∷ "tokenAddress" ∷ "rewardToken"
    ∷ "maxTradeVolume" ∷ "oracleTimeout" ∷ "targetName" ∷ "defaultThreshold" ∷ "delayUntilDefault"
    ∷ []

module _ (lib target : String) (price volume timeout threshold delay : ℤ) where
  abbrev rest : List Arg
  rest = amount volume ∷ amount timeout ∷ bytes32 target ∷ amount threshold ∷ amount delay ∷ []

  fiat_arguments :
      (feed token : Option String)
      → map
          (param (
            ("fallbackPrice", amount price)
            ∷ if_defined "priceFeed" feed (
                if_defined "tokenAddress" token (
                  ("rewardToken", address zero_address)
                  ∷ terms_dict lib target volume timeout threshold delay))))
          fiat_keys
        ≡ (amount price
            ∷ optional_address feed
            ∷ optional_address token
            ∷ address zero_address
            ∷ rest)
  unfolding param lookup
  fiat_arguments none none = refl
  fiat_arguments none (some t) = refl
  fiat_arguments (some f) none = refl
  fiat_arguments (some f) (some t) = refl

  two_feed_arguments :
      (reference goal token : Option String)
      → map
          (param (
            ("fallbackPrice", amount price)
            ∷ if_defined "referenceUnitFeed" reference (
                if_defined "targetUnitFeed" goal (
                  if_defined "tokenAddress" token (
                    ("rewardToken", address zero_address)
                    ∷ terms_dict lib target volume timeout threshold delay)))))
          two_feed_keys
        ≡ (amount price
            ∷ optional_address reference
            ∷ optional_address goal
            ∷ optional_address token
            ∷ address zero_address
            ∷ rest)
  unfolding param lookup
  two_feed_arguments none none none = refl
  two_feed_arguments none none (some t) = refl
  two_feed_arguments none (some g) none = refl
  two_feed_arguments none (some g) (some t) = refl
  two_feed_arguments (some r) none none = refl
  two_feed_arguments (some r) none (some t) = refl
  two_feed_arguments (some r) (some g) none = refl
  two_feed_arguments (some r) (some g) (some t) = refl

price_lem :
    (price : ℤ) (d : Dict Arg)
    → param (("fallbackPrice", amount price) ∷ d) "fallbackPrice" ≡ amount price
unfolding param lookup
price_lem price d = refl

amount-injective : {a b : ℤ} → amount a ≡ amount b → a ≡ b
amount-injective h = cc

module _ (hre : Hardhat) (big : BigNumbers) where
  -- The numbers that both scripts read from their texts.
  record IsTerms (id : String) (volume timeout threshold delay : ℤ) : Type 0 where
    volume_of : fp_of hre big "1e6" ≡ ok volume
    timeout_of : get_oracle_timeout hre big id ≡ ok timeout
    threshold_of : fp_of hre big "0.05" ≡ ok threshold
    delay_of : bn_of hre big "86400" ≡ ok delay

  collateral_terms-eq-ok :
      (c : Context) (target : String) {terms : Dict Arg}
      → collateral_terms hre big c target ≡ ok terms
      → (volume timeout threshold delay : ℤ) × IsTerms c.chain_id volume timeout threshold delay
        × (terms_dict c.oracle_lib target volume timeout threshold delay ≡ terms)
  unfolding collateral_terms selfreferential_terms basic_terms
  collateral_terms-eq-ok c target h =
      let (self, e₀, h) = >>=-eq-ok (selfreferential_terms hre big c target) _ h in
      let (threshold, t₀, h) = >>=-eq-ok (fp_of hre big "0.05") _ h in
      let (basic, e₁, h₁) = >>=-eq-ok (basic_terms hre big c) _ e₀ in
      let (delay, t₁, h₁) = >>=-eq-ok (bn_of hre big "86400") _ h₁ in
      let (volume, t₂, h₂) = >>=-eq-ok (fp_of hre big "1e6") _ e₁ in
      let (timeout, t₃, h₂) = >>=-eq-ok (get_oracle_timeout hre big c.chain_id) _ h₂ in
      (
        volume,
        timeout,
        threshold,
        delay,
        record { volume_of = t₂; timeout_of = t₃; threshold_of = t₀; delay_of = t₁ },
        ap
              (λ b.
                ("defaultThreshold", amount threshold)
                ∷ ("targetName", bytes32 target)
                ∷ ("delayUntilDefault", amount delay)
                ∷ b)
              (ok-injective h₂)
            ∙ ap (λ s. ("defaultThreshold", amount threshold) ∷ s) (ok-injective h₁)
            ∙ ok-injective h,
      )

  collateral_arguments-eq :
      (c : Listing) (at : String) (feeds : List String) (tokens : List Arg) (target : String)
      (w : World hre.Chain) {price volume timeout threshold delay : ℤ}
      → IsTerms c.chain_id volume timeout threshold delay
      → hre.call_number w.chain at "fallbackPrice" ≡ some price
      → collateral_arguments hre big c at feeds tokens target w
        ≡ ok (
            (amount price ∷ map (feed_of c) feeds)
            ++ (tokens ++ rest "" target price volume timeout threshold delay))
  unfolding collateral_arguments call_number
  collateral_arguments-eq c at feeds tokens target w t answer =
      rw (answer, t.volume_of, t.timeout_of, t.threshold_of, t.delay_of)

  -- `getContractFactory(contract, …).deploy(…)`, with the oracle library of the parameters
  abbrev pub collateral_creation : String → Dict Arg → List Arg → Creation
  collateral_creation contract params arguments = record {
    contract = contract;
    libraries = ("OracleLib", param params "oracleLib") ∷ [];
    arguments = arguments;
  }

  nonfiat_sent :
      (params : Dict Arg) (w w' : World hre.Chain) (at : String)
      → deploy_nonfiat_collateral hre params w ≡ (ok at, w')
      → hre.deploy
          (collateral_creation "NonFiatCollateral" params (map (param params) two_feed_keys))
          w.chain
        ≡ some (at, w'.chain)
  unfolding deploy_nonfiat_collateral deploy_with
  nonfiat_sent params w w' at h =
      Runs-ok
        (λ a w'.
          hre.deploy
            (collateral_creation "NonFiatCollateral" params (map (param params) two_feed_keys))
            w.chain
          ≡ some (a, w'.chain))
        (Runs-check _ tt λ u e. deploy-sent hre _ w) h

  -- The arguments that the parameters of WBTC and EURT give.
  two_feed_params-arguments :
      (c : Context) (symbol feed reference goal target : String) (w : World hre.Chain)
      {params : Dict Arg}
      → two_feed_params hre big c symbol feed reference goal target w ≡ ok params
      → (price volume timeout threshold delay : ℤ) × IsTerms c.chain_id volume timeout threshold
          delay
        × (param params "fallbackPrice" ≡ amount price)
        × (map (param params) two_feed_keys ≡ (
            amount price
            ∷ optional_address (lookup reference c.config.chainlink_feeds)
            ∷ optional_address (lookup goal c.config.chainlink_feeds)
            ∷ optional_address (lookup symbol c.config.tokens)
            ∷ address zero_address
            ∷ rest "" target price volume timeout threshold delay))
  unfolding two_feed_params
  two_feed_params-arguments c symbol feed reference goal target w made =
      let (price, e₀, h) =
        >>=-eq-ok (get_current_price hre big (lookup feed c.config.chainlink_feeds) w) _ made in
      let (terms, e₁, h) = >>=-eq-ok (collateral_terms hre big c target) _ h in
      let (volume, timeout, threshold, delay, t, same) = collateral_terms-eq-ok c target e₁ in
      let whole =
        ap
          (λ terms.
            ("fallbackPrice", amount price)
            ∷ if_defined "referenceUnitFeed" (lookup reference c.config.chainlink_feeds) (
                if_defined "targetUnitFeed" (lookup goal c.config.chainlink_feeds) (
                  if_defined "tokenAddress" (lookup symbol c.config.tokens)
                    (("rewardToken", address zero_address) ∷ terms))))
          same
        ∙ ok-injective h in
      (
        price,
        volume,
        timeout,
        threshold,
        delay,
        t,
        ap (λ d. param d "fallbackPrice") (sym whole) ∙ price_lem price _,
        ap (λ d. map (param d) two_feed_keys) (sym whole)
            ∙ two_feed_arguments c.oracle_lib target price volume timeout threshold delay _ _ _,
      )

  -- Of WBTC, deployed by 2_deploy_collateral.ts with the parameters params at the address at, listed
  -- there, and answering with the fallback price that it was given, 6_verify_collateral.ts sends the
  -- arguments of that deployment.
  pub wbtc_request-deployed :
      (c : Listing) (lib file at : String) (w₀ w₁ w : World hre.Chain) (params : Dict Arg)
      (price : ℤ)
      → two_feed_params hre big (context_of c lib file) "WBTC" "BTC" "WBTC" "BTC" "BTC" w₀
        ≡ ok params
      → deploy_nonfiat_collateral hre params w₀ ≡ (ok at, w₁)
      → lookup "WBTC" c.deployments.collateral ≡ some at
      → param params "fallbackPrice" ≡ amount price
      → hre.call_number w.chain at "fallbackPrice" ≡ some price
      → (arguments : List Arg) × (wbtc_request hre big c w
          ≡ ok (
              request at arguments
                "contracts/plugins/assets/NonFiatCollateral.sol:NonFiatCollateral"))
        × (hre.deploy (collateral_creation "NonFiatCollateral" params arguments) w₀.chain
            ≡ some (at, w₁.chain))
  unfolding wbtc_request collateral_at
  wbtc_request-deployed c lib file at w₀ w₁ w params price made sent listed given answer =
      let (price', volume, timeout, threshold, delay, t, first, all) =
        two_feed_params-arguments (context_of c lib file) "WBTC" "BTC" "WBTC" "BTC" "BTC" w₀ made in
      let same : price' ≡ price = amount-injective (sym first ∙ given) in
      let found =
        collateral_arguments-eq c at ("WBTC" ∷ "BTC" ∷ [])
          (token_of c "WBTC" ∷ address zero_address ∷ []) "BTC" w t answer in
      (
        map (param params) two_feed_keys,
        rw (listed, found)
            (ap
              (λ (args : List Arg). ok (
                request at args "contracts/plugins/assets/NonFiatCollateral.sol:NonFiatCollateral"))
              (ap
                  (λ x.
                    amount x
                    ∷ feed_of c "WBTC"
                    ∷ feed_of c "BTC"
                    ∷ token_of c "WBTC"
                    ∷ address zero_address
                    ∷ rest "" "BTC" price volume timeout threshold delay)
                  (sym same)
                ∙ sym all)),
        nonfiat_sent params w₀ w₁ at sent,
      )
