-- ===== src/Verify/Collateral.antt =====
-- The requests of 2_verify_rsrAsset.ts and 6_verify_collateral.ts, whose arguments are read from the
-- contracts and from the configuration.
use Prim.Native.String.{◌++◌ as str_append}
use reserve_protocol.Base.{String, List, [], ◌∷◌, ◌++◌, map}
use reserve_protocol.Base.Int.{ℤ, pos}
use reserve_protocol.Base.Text.{lookup}
use reserve_protocol.BigNumber.{BigNumbers}
use reserve_protocol.Numbers.Parse.{whole, bn}
use reserve_protocol.Errors.{Error, Result, ok, ◌>>=◌, or_throw}
use reserve_protocol.Config.Networks.{INetworkConfig}
use reserve_protocol.Deploy.Store.{IDeployments, IAssetCollDeployments}
use reserve_protocol.Deploy.Guards.{get_oracle_timeout}
use reserve_protocol.Deploy.Prepare.{zero_address}
use reserve_protocol.Deploy.Phase2.Terms.{optional_address, fp_of, bn_of}
use reserve_protocol.Chain.{
  Arg, address, amount, bytes32, label, Hardhat, World, call_text, call_number,
}
use reserve_protocol.Verify.{Request}
use reserve_protocol.Verify.Requests.{request}

-- What 6_verify_collateral.ts reads at the start.
pub record Listing : Type 0 where
  pub chain_id : String
  pub config : INetworkConfig
  pub deployments : IAssetCollDeployments

-- `networkConfig[chainId].chainlinkFeeds[symbol]`, `networkConfig[chainId].tokens[symbol]`
abbrev pub feed_of : Listing → String → Arg
feed_of c symbol = optional_address (lookup symbol c.config.chainlink_feeds)

abbrev pub token_of : Listing → String → Arg
token_of c symbol = optional_address (lookup symbol c.config.tokens)

module _ (hre : Hardhat) (big : BigNumbers) where
  -- 2_verify_rsrAsset.ts
  unfoldable pub rsr_asset_request : IDeployments → World hre.Chain → Result Request
  rsr_asset_request d w = do
    price ← call_number hre d.rsr_asset "fallbackPrice" w
    feed ← call_text hre d.rsr_asset "chainlinkFeed" w
    erc20 ← call_text hre d.rsr_asset "erc20" w
    reward ← call_text hre d.rsr_asset "rewardERC20" w
    volume ← call_number hre d.rsr_asset "maxTradeVolume" w
    timeout ← call_number hre d.rsr_asset "oracleTimeout" w
    ok (
        request d.rsr_asset
          (amount price
            ∷ address feed
            ∷ address erc20
            ∷ address reward
            ∷ amount volume
            ∷ amount timeout
            ∷ [])
          "contracts/plugins/assets/Asset.sol:Asset")

  -- `deployments.collateral[symbol]`: a contract at an undefined address is refused.
  unfoldable pub collateral_at : Listing → String → Result String
  collateral_at c symbol = or_throw Error.type_error (lookup symbol c.deployments.collateral)

  -- The arguments of a self-referential collateral: price, feed, tokens, terms, and the rest.
  unfoldable pub selfreferential_arguments :
      Listing → String → String → List Arg → String → World hre.Chain → Result (List Arg)
  selfreferential_arguments c at feed tokens target w = do
    price ← call_number hre at "fallbackPrice" w
    volume ← fp_of hre big "1e6"
    timeout ← get_oracle_timeout hre big c.chain_id
    delay ← bn_of hre big "86400"
    ok (
        (amount price ∷ feed_of c feed ∷ tokens)
        ++ (amount volume ∷ amount timeout ∷ bytes32 target ∷ amount delay ∷ []))

  -- The same with any feeds and a default threshold.
  unfoldable pub collateral_arguments :
      Listing → String → List String → List Arg → String → World hre.Chain → Result (List Arg)
  collateral_arguments c at feeds tokens target w = do
    price ← call_number hre at "fallbackPrice" w
    volume ← fp_of hre big "1e6"
    timeout ← get_oracle_timeout hre big c.chain_id
    threshold ← fp_of hre big "0.05"
    delay ← bn_of hre big "86400"
    ok (
        (amount price ∷ map (feed_of c) feeds)
        ++ (tokens
            ++ (amount volume
                ∷ amount timeout
                ∷ bytes32 target
                ∷ amount threshold
                ∷ amount delay
                ∷ [])))

  -- `bn(n).toString(), networkConfig[chainId].COMPTROLLER`
  unfoldable pub ctoken_arguments : Listing → ℤ → Result (List Arg)
  ctoken_arguments c decimals = do
    n ← or_throw Error.number_error (bn big (whole decimals))
    ok (amount n ∷ optional_address c.config.comptroller ∷ [])

  -- the blocks of the script, in order
  unfoldable pub dai_request : Listing → World hre.Chain → Result Request
  dai_request c w = do
    at ← collateral_at c "DAI"
    arguments ←
        collateral_arguments c at ("DAI" ∷ []) (token_of c "DAI" ∷ address zero_address ∷ []) "USD"
          w
    ok (request at arguments "contracts/plugins/assets/FiatCollateral.sol:FiatCollateral")

  unfoldable pub static_atoken_request : Listing → World hre.Chain → Result Request
  static_atoken_request c w = do
    atoken ← or_throw Error.type_error (lookup "aDAI" c.config.tokens)
    at ← collateral_at c "aDAI"
    erc20 ← call_text hre at "erc20" w
    name ← call_text hre atoken "name" w
    symbol ← call_text hre atoken "symbol" w
    ok (
        request erc20
          (optional_address c.config.aave_lending_pool
            ∷ address atoken
            ∷ label (str_append "Static " name)
            ∷ label (str_append "stat" symbol)
            ∷ [])
          "contracts/plugins/aave/StaticATokenLM.sol:StaticATokenLM")

  unfoldable pub adai_request : Listing → World hre.Chain → Result Request
  adai_request c w = do
    at ← collateral_at c "aDAI"
    erc20 ← call_text hre at "erc20" w
    arguments ←
        collateral_arguments c at ("DAI" ∷ []) (address erc20 ∷ token_of c "stkAAVE" ∷ []) "USD" w
    ok (
        request at arguments
          "contracts/plugins/assets/ATokenFiatCollateral.sol:ATokenFiatCollateral")

  unfoldable pub cdai_request : Listing → World hre.Chain → Result Request
  cdai_request c w = do
    at ← collateral_at c "cDAI"
    arguments ←
        collateral_arguments c at ("DAI" ∷ []) (token_of c "cDAI" ∷ token_of c "COMP" ∷ []) "USD" w
    more ← ctoken_arguments c (pos 18)
    ok (
        request at (arguments ++ more)
          "contracts/plugins/assets/CTokenFiatCollateral.sol:CTokenFiatCollateral")

  unfoldable pub cwbtc_request : Listing → World hre.Chain → Result Request
  cwbtc_request c w = do
    at ← collateral_at c "cWBTC"
    arguments ←
        collateral_arguments c at ("WBTC" ∷ "BTC" ∷ [])
          (token_of c "cWBTC" ∷ token_of c "COMP" ∷ []) "BTC" w
    more ← ctoken_arguments c (pos 8)
    ok (
        request at (arguments ++ more)
          "contracts/plugins/assets/CTokenNonFiatCollateral.sol:CTokenNonFiatCollateral")

  unfoldable pub ceth_request : Listing → World hre.Chain → Result Request
  ceth_request c w = do
    at ← collateral_at c "cETH"
    arguments ←
        selfreferential_arguments c at "ETH" (token_of c "cETH" ∷ token_of c "COMP" ∷ []) "ETH" w
    more ← ctoken_arguments c (pos 18)
    ok (
        request at (arguments ++ more)
          "contracts/plugins/assets/CTokenSelfReferentialCollateral.sol:CTokenSelfReferentialCollateral")

  unfoldable pub wbtc_request : Listing → World hre.Chain → Result Request
  wbtc_request c w = do
    at ← collateral_at c "WBTC"
    arguments ←
        collateral_arguments c at ("WBTC" ∷ "BTC" ∷ [])
          (token_of c "WBTC" ∷ address zero_address ∷ []) "BTC" w
    ok (request at arguments "contracts/plugins/assets/NonFiatCollateral.sol:NonFiatCollateral")

  unfoldable pub weth_request : Listing → World hre.Chain → Result Request
  weth_request c w = do
    at ← collateral_at c "WETH"
    arguments ←
        selfreferential_arguments c at "ETH" (token_of c "WETH" ∷ address zero_address ∷ []) "ETH" w
    ok (
        request at arguments
          "contracts/plugins/assets/SelfReferentialCollateral.sol:SelfReferentialCollateral")

  unfoldable pub eurt_request : Listing → World hre.Chain → Result Request
  eurt_request c w = do
    at ← collateral_at c "EURT"
    arguments ←
        collateral_arguments c at ("EURT" ∷ "EUR" ∷ [])
          (token_of c "EURT" ∷ address zero_address ∷ []) "EURO" w
    ok (request at arguments "contracts/plugins/assets/EURFiatCollateral.sol:EURFiatCollateral")

  abbrev pub collateral_requests : Listing → List (World hre.Chain → Result Request)
  collateral_requests c =
      dai_request c
      ∷ static_atoken_request c
      ∷ adai_request c
      ∷ cdai_request c
      ∷ cwbtc_request c
      ∷ ceth_request c
      ∷ wbtc_request c
      ∷ weth_request c
      ∷ eurt_request c
      ∷ []
