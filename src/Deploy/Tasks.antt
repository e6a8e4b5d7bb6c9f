-- ===== src/Deploy/Tasks.antt =====
-- The Hardhat tasks under tasks/deployment/assets and tasks/deployment/collateral. The parameters
-- of a run are an object, in which a key with an undefined value is left out; Hardhat refuses a run
-- that lacks a declared parameter, and passes the others on.
pub mod Mock
use reserve_protocol.Base.{String, Option, none, some, List, [], ◌∷◌, ◌++◌, map}
use reserve_protocol.Base.Int.{ℤ}
use reserve_protocol.Base.Text.{Dict, lookup}
use reserve_protocol.Errors.{Error, Result, ok, err, or_throw}
use reserve_protocol.Errors
use reserve_protocol.Deploy.Guards.{get_chain_id}
use reserve_protocol.Chain.{
  Arg, address, amount, undefined, Hardhat, World, Script, ◌>>=◌, ◌>>◌, reads, deploy, call_text,
  call_number,
}

-- The declared parameters are checked in order before the action starts.
unfoldable pub check_params : List String → Dict Arg → Result (Unit {0})
check_params [] params = ok tt
check_params (k ∷ ks) params =
    Errors.◌>>=◌ (or_throw (Error.missing_argument k) (lookup k params)) λ a. check_params ks params

-- `params.k`
abbrev pub or_undefined : Option Arg → Arg
or_undefined none = undefined
or_undefined (some a) = a

unfoldable pub param : Dict Arg → String → Arg
param params k = or_undefined (lookup k params)

-- A parameter that is used as the address of a contract.
abbrev pub as_address : Arg → Result String
as_address (address a) = ok a
as_address _ = err Error.type_error

-- `{ libraries: { OracleLib: params.oracleLib } }`
abbrev oracle_library : Dict Arg → Dict Arg
oracle_library params = ("OracleLib", param params "oracleLib") ∷ []

module _ (hre : Hardhat) where
  -- The start of each action: Hardhat's check of the parameters, and the chain id.
  unfoldable pub start_task : List String → Dict Arg → World hre.Chain → Result String
  start_task declared params w = Errors.◌>>=◌ (check_params declared params) λ u. get_chain_id hre w

  -- `getContractFactory(contract, { libraries })`, deployed with the named parameters in order
  unfoldable pub deploy_with :
      String → Dict Arg → Dict Arg → List String → List Arg → Script hre.Chain String
  deploy_with contract libraries params keys rest = deploy hre (record {
    contract = contract;
    libraries = libraries;
    arguments = map (param params) keys ++ rest;
  })

  unfoldable pub deploy_asset : Dict Arg → Script hre.Chain String
  unfolding deploy_with
  deploy_asset params = do
    reads (
        start_task
          ("fallbackPrice" ∷ "priceFeed" ∷ "tokenAddress" ∷ "rewardToken" ∷ "maxTradeVolume"
            ∷ "oracleTimeout" ∷ "oracleLib" ∷ [])
          params)
    deploy_with "Asset" [] params
        ("fallbackPrice" ∷ "priceFeed" ∷ "tokenAddress" ∷ "rewardToken" ∷ "maxTradeVolume"
          ∷ "oracleTimeout" ∷ [])
        []

  unfoldable pub deploy_fiat_collateral : Dict Arg → Script hre.Chain String
  unfolding deploy_with
  deploy_fiat_collateral params = do
    reads (
        start_task
          ("fallbackPrice" ∷ "priceFeed" ∷ "tokenAddress" ∷ "rewardToken" ∷ "maxTradeVolume"
            ∷ "oracleTimeout" ∷ "targetName" ∷ "defaultThreshold" ∷ "delayUntilDefault"
            ∷ "oracleLib" ∷ [])
          params)
    deploy_with "FiatCollateral" (oracle_library params) params
        ("fallbackPrice" ∷ "priceFeed" ∷ "tokenAddress" ∷ "rewardToken" ∷ "maxTradeVolume"
          ∷ "oracleTimeout" ∷ "targetName" ∷ "defaultThreshold" ∷ "delayUntilDefault" ∷ [])
        []

  unfoldable pub deploy_atoken_fiat_collateral : Dict Arg → Script hre.Chain String
  unfolding deploy_with
  deploy_atoken_fiat_collateral params = do
    reads (
        start_task
          ("fallbackPrice" ∷ "priceFeed" ∷ "staticAToken" ∷ "rewardToken" ∷ "maxTradeVolume"
            ∷ "oracleTimeout" ∷ "targetName" ∷ "defaultThreshold" ∷ "delayUntilDefault"
            ∷ "oracleLib" ∷ [])
          params)
    deploy_with "ATokenFiatCollateral" (oracle_library params) params
        ("fallbackPrice" ∷ "priceFeed" ∷ "staticAToken" ∷ "rewardToken" ∷ "maxTradeVolume"
          ∷ "oracleTimeout" ∷ "targetName" ∷ "defaultThreshold" ∷ "delayUntilDefault" ∷ [])
        []

  unfoldable pub deploy_nonfiat_collateral : Dict Arg → Script hre.Chain String
  unfolding deploy_with
  deploy_nonfiat_collateral params = do
    reads (
        start_task
          ("fallbackPrice" ∷ "referenceUnitFeed" ∷ "targetUnitFeed" ∷ "tokenAddress" ∷ "rewardToken"
            ∷ "maxTradeVolume" ∷ "oracleTimeout" ∷ "targetName" ∷ "defaultThreshold"
            ∷ "delayUntilDefault" ∷ "oracleLib" ∷ [])
          params)
    deploy_with "NonFiatCollateral" (oracle_library params) params
        ("fallbackPrice" ∷ "referenceUnitFeed" ∷ "targetUnitFeed" ∷ "tokenAddress" ∷ "rewardToken"
          ∷ "maxTradeVolume" ∷ "oracleTimeout" ∷ "targetName" ∷ "defaultThreshold"
          ∷ "delayUntilDefault" ∷ [])
        []

  unfoldable pub deploy_eurfiat_collateral : Dict Arg → Script hre.Chain String
  unfolding deploy_with
  deploy_eurfiat_collateral params = do
    reads (
        start_task
          ("fallbackPrice" ∷ "referenceUnitFeed" ∷ "targetUnitFeed" ∷ "tokenAddress" ∷ "rewardToken"
            ∷ "maxTradeVolume" ∷ "oracleTimeout" ∷ "targetName" ∷ "defaultThreshold"
            ∷ "delayUntilDefault" ∷ "oracleLib" ∷ [])
          params)
    deploy_with "EURFiatCollateral" (oracle_library params) params
        ("fallbackPrice" ∷ "referenceUnitFeed" ∷ "targetUnitFeed" ∷ "tokenAddress" ∷ "rewardToken"
          ∷ "maxTradeVolume" ∷ "oracleTimeout" ∷ "targetName" ∷ "defaultThreshold"
          ∷ "delayUntilDefault" ∷ [])
        []

  unfoldable pub deploy_selfreferential_collateral : Dict Arg → Script hre.Chain String
  unfolding deploy_with
  deploy_selfreferential_collateral params = do
    reads (
        start_task
          ("fallbackPrice" ∷ "priceFeed" ∷ "tokenAddress" ∷ "rewardToken" ∷ "maxTradeVolume"
            ∷ "oracleTimeout" ∷ "targetName" ∷ "delayUntilDefault" ∷ "oracleLib" ∷ [])
          params)
    deploy_with "SelfReferentialCollateral" [] params
        ("fallbackPrice" ∷ "priceFeed" ∷ "tokenAddress" ∷ "rewardToken" ∷ "maxTradeVolume"
          ∷ "oracleTimeout" ∷ "targetName" ∷ "delayUntilDefault" ∷ [])
        []

  unfoldable pub deploy_ctoken_selfreferential_collateral : Dict Arg → Script hre.Chain String
  unfolding deploy_with
  deploy_ctoken_selfreferential_collateral params = do
    reads (
        start_task
          ("fallbackPrice" ∷ "priceFeed" ∷ "cToken" ∷ "rewardToken" ∷ "maxTradeVolume"
            ∷ "oracleTimeout" ∷ "targetName" ∷ "delayUntilDefault" ∷ "decimals" ∷ "comptroller"
            ∷ "oracleLib" ∷ [])
          params)
    deploy_with "CTokenSelfReferentialCollateral" (oracle_library params) params
        ("fallbackPrice" ∷ "priceFeed" ∷ "cToken" ∷ "rewardToken" ∷ "maxTradeVolume"
          ∷ "oracleTimeout" ∷ "targetName" ∷ "delayUntilDefault" ∷ "decimals" ∷ "comptroller" ∷ [])
        []

  -- the decimals of the token under a CToken: `await erc20.decimals()` for `cToken.underlying()`
  unfoldable pub underlying_decimals : Dict Arg → World hre.Chain → Result ℤ
  underlying_decimals params w = Errors.◌>>=◌ (as_address (param params "cToken")) λ c_token.
      Errors.◌>>=◌ (call_text hre c_token "underlying" w)
        λ erc20. call_number hre erc20 "decimals" w

  unfoldable pub deploy_ctoken_fiat_collateral : Dict Arg → Script hre.Chain String
  unfolding deploy_with
  deploy_ctoken_fiat_collateral params = do
    reads (
        start_task
          ("fallbackPrice" ∷ "priceFeed" ∷ "cToken" ∷ "rewardToken" ∷ "maxTradeVolume"
            ∷ "oracleTimeout" ∷ "targetName" ∷ "defaultThreshold" ∷ "delayUntilDefault"
            ∷ "comptroller" ∷ "oracleLib" ∷ [])
          params)
    decimals ← reads (underlying_decimals params)
    deploy_with "CTokenFiatCollateral" (oracle_library params) params
        ("fallbackPrice" ∷ "priceFeed" ∷ "cToken" ∷ "rewardToken" ∷ "maxTradeVolume"
          ∷ "oracleTimeout" ∷ "targetName" ∷ "defaultThreshold" ∷ "delayUntilDefault" ∷ [])
        (amount decimals ∷ param params "comptroller" ∷ [])

  unfoldable pub deploy_ctoken_nonfiat_collateral : Dict Arg → Script hre.Chain String
  unfolding deploy_with
  deploy_ctoken_nonfiat_collateral params = do
    reads (
        start_task
          ("fallbackPrice" ∷ "referenceUnitFeed" ∷ "targetUnitFeed" ∷ "cToken" ∷ "rewardToken"
            ∷ "maxTradeVolume" ∷ "oracleTimeout" ∷ "targetName" ∷ "defaultThreshold"
            ∷ "delayUntilDefault" ∷ "oracleLib" ∷ [])
          params)
    decimals ← reads (underlying_decimals params)
    deploy_with "CTokenNonFiatCollateral" (oracle_library params) params
        ("fallbackPrice" ∷ "referenceUnitFeed" ∷ "targetUnitFeed" ∷ "cToken" ∷ "rewardToken"
          ∷ "maxTradeVolume" ∷ "oracleTimeout" ∷ "targetName" ∷ "defaultThreshold"
          ∷ "delayUntilDefault" ∷ [])
        (amount decimals ∷ param params "comptroller" ∷ [])
