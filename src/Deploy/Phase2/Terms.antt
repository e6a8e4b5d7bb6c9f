-- ===== src/Deploy/Phase2/Terms.antt =====
-- The parameters of the task runs in 1_deploy_assets.ts and 2_deploy_collateral.ts.
use Prim.Native.String.{◌++◌}
use reserve_protocol.Base.{String, Option, none, some, [], ◌∷◌}
use reserve_protocol.Base.Int.{ℤ, pos}
use reserve_protocol.Base.Text.{Dict, lookup, codes}
use reserve_protocol.BigNumber.{BigNumbers}
use reserve_protocol.Numbers.Parse.{text as text_of, whole, bn, fp}
use reserve_protocol.Errors.{Error, Result, ok, ◌>>=◌, or_throw}
use reserve_protocol.Deploy.Guards.{get_current_price, get_oracle_timeout}
use reserve_protocol.Deploy.Prepare.{zero_address, if_defined}
use reserve_protocol.Deploy.Phase2.{Context}
use reserve_protocol.Chain.{
  Arg, address, amount, bytes32, label, Creation, Hardhat, World, call_text, call_number,
}

-- an optional text as an argument
abbrev pub optional_address : Option String → Arg
optional_address none = Arg.undefined
optional_address (some a) = address a

module _ (hre : Hardhat) (big : BigNumbers) where
  unfoldable pub fp_of : String → Result ℤ
  fp_of s = or_throw Error.number_error (fp big (text_of (codes s)))

  unfoldable pub bn_of : String → Result ℤ
  bn_of s = or_throw Error.number_error (bn big (text_of (codes s)))

  -- `networkConfig[chainId].chainlinkFeeds[symbol]`, `networkConfig[chainId].tokens[symbol]`
  abbrev feed : Context → String → Option String
  feed c symbol = lookup symbol c.config.chainlink_feeds

  abbrev token : Context → String → Option String
  token c symbol = lookup symbol c.config.tokens

  -- The parameters that all runs of the asset task share with those for collateral.
  unfoldable pub basic_terms : Context → Result (Dict Arg)
  basic_terms c = do
    volume ← fp_of "1e6"
    timeout ← get_oracle_timeout hre big c.chain_id
    ok (
        ("maxTradeVolume", amount volume)
        ∷ ("oracleTimeout", amount timeout)
        ∷ ("oracleLib", address c.oracle_lib)
        ∷ [])

  unfoldable pub selfreferential_terms : Context → String → Result (Dict Arg)
  selfreferential_terms c target = do
    basic ← basic_terms c
    delay ← bn_of "86400"
    ok (("targetName", bytes32 target) ∷ ("delayUntilDefault", amount delay) ∷ basic)

  unfoldable pub collateral_terms : Context → String → Result (Dict Arg)
  collateral_terms c target = do
    terms ← selfreferential_terms c target
    threshold ← fp_of "0.05"
    ok (("defaultThreshold", amount threshold) ∷ terms)

  unfoldable pub asset_params : Context → String → String → World hre.Chain → Result (Dict Arg)
  asset_params c feed_symbol symbol w = do
    price ← get_current_price hre big (feed c feed_symbol) w
    basic ← basic_terms c
    ok (
        ("fallbackPrice", amount price)
        ∷ if_defined "priceFeed" (feed c feed_symbol) (
            if_defined "tokenAddress" (token c symbol)
              (("rewardToken", address zero_address) ∷ basic)))

  unfoldable pub fiat_params : Context → String → World hre.Chain → Result (Dict Arg)
  fiat_params c symbol w = do
    price ← fp_of "1"
    terms ← collateral_terms c "USD"
    ok (
        ("fallbackPrice", amount price)
        ∷ if_defined "priceFeed" (feed c symbol) (
            if_defined "tokenAddress" (token c symbol)
              (("rewardToken", address zero_address) ∷ terms)))

  -- `price.mul(rate).div(bn(divisor))`
  unfoldable pub scaled_price : ℤ → ℤ → String → Result ℤ
  scaled_price price rate divisor = do
    unit ← bn_of divisor
    or_throw Error.number_error (big.div (big.mul price rate) unit)

  -- The wrapper of an AToken. A contract at an undefined address is refused.
  unfoldable pub static_atoken : Context → String → World hre.Chain → Result Creation
  static_atoken c symbol w = do
    atoken ← or_throw Error.type_error (token c symbol)
    name ← call_text hre atoken "name" w
    ticker ← call_text hre atoken "symbol" w
    ok (record {
      contract = "StaticATokenLM";
      libraries = [];
      arguments =
          optional_address c.config.aave_lending_pool
          ∷ address atoken
          ∷ label ("Static " ++ name)
          ∷ label ("s" ++ ticker)
          ∷ [];
    })

  unfoldable pub atoken_params : Context → String → String → World hre.Chain → Result (Dict Arg)
  atoken_params c feed_symbol static_token w = do
    one ← fp_of "1"
    rate ← call_number hre static_token "rate" w
    price ← scaled_price one rate "1e27"
    terms ← collateral_terms c "USD"
    ok (
        ("fallbackPrice", amount price)
        ∷ ("staticAToken", address static_token)
        ∷ if_defined "priceFeed" (feed c feed_symbol)
            (if_defined "rewardToken" (token c "stkAAVE") terms))

  -- `(await getContractAt('CTokenMock', …)).exchangeRateStored()`
  unfoldable pub exchange_rate : Context → String → World hre.Chain → Result ℤ
  exchange_rate c symbol w = do
    ctoken ← or_throw Error.type_error (token c symbol)
    call_number hre ctoken "exchangeRateStored" w

  -- the parameters that the CToken runs share
  abbrev ctoken_terms : Context → String → Dict Arg → Dict Arg
  ctoken_terms c symbol terms = if_defined "cToken" (token c symbol) (
      if_defined "rewardToken" (token c "COMP")
        (if_defined "comptroller" c.config.comptroller terms))

  unfoldable pub ctoken_params :
      Context → String → String → String → World hre.Chain → Result (Dict Arg)
  ctoken_params c symbol feed_symbol divisor w = do
    one ← fp_of "1"
    rate ← exchange_rate c symbol w
    price ← scaled_price one rate divisor
    terms ← collateral_terms c "USD"
    ok (
        ("fallbackPrice", amount price)
        ∷ if_defined "priceFeed" (feed c feed_symbol) (ctoken_terms c symbol terms))

  unfoldable pub cwbtc_params : Context → World hre.Chain → Result (Dict Arg)
  cwbtc_params c w = do
    btc ← get_current_price hre big (feed c "BTC") w
    rate ← exchange_rate c "cWBTC" w
    price ← scaled_price btc rate "1e18"
    terms ← collateral_terms c "BTC"
    ok (
        ("fallbackPrice", amount price)
        ∷ if_defined "referenceUnitFeed" (feed c "WBTC")
            (if_defined "targetUnitFeed" (feed c "BTC") (ctoken_terms c "cWBTC" terms)))

  unfoldable pub ceth_params : Context → World hre.Chain → Result (Dict Arg)
  ceth_params c w = do
    eth ← get_current_price hre big (feed c "ETH") w
    rate ← exchange_rate c "cETH" w
    price ← scaled_price eth rate "1e28"
    terms ← selfreferential_terms c "ETH"
    decimals ← or_throw Error.number_error (bn big (whole (pos 18)))
    ok (
        ("fallbackPrice", amount price)
        ∷ ("decimals", amount decimals)
        ∷ if_defined "priceFeed" (feed c "ETH") (ctoken_terms c "cETH" terms))

  -- WBTC and EURT: a price by the first feed, and a reference and a target feed
  unfoldable pub two_feed_params :
      Context → String → String → String → String → String → World hre.Chain → Result (Dict Arg)
  two_feed_params c symbol price_symbol reference_symbol target_symbol target w = do
    price ← get_current_price hre big (feed c price_symbol) w
    terms ← collateral_terms c target
    ok (
        ("fallbackPrice", amount price)
        ∷ if_defined "referenceUnitFeed" (feed c reference_symbol) (
            if_defined "targetUnitFeed" (feed c target_symbol) (
              if_defined "tokenAddress" (token c symbol)
                (("rewardToken", address zero_address) ∷ terms))))

  unfoldable pub weth_params : Context → World hre.Chain → Result (Dict Arg)
  weth_params c w = do
    price ← get_current_price hre big (feed c "ETH") w
    terms ← selfreferential_terms c "ETH"
    ok (
        ("fallbackPrice", amount price)
        ∷ if_defined "priceFeed" (feed c "ETH") (
            if_defined "tokenAddress" (token c "WETH")
              (("rewardToken", address zero_address) ∷ terms)))
