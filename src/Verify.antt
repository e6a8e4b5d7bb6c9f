-- ===== src/Verify.antt =====
-- scripts/verify_etherscan.ts and verifyContract of scripts/deployment/utils.ts: the source of each
-- contract is sent to Etherscan, unless it is there. Etherscan and the plug-in of Hardhat that
-- talks to it are parameters; what Etherscan holds is part of the chain's state.
pub mod Requests
pub mod Collateral
pub mod Scripts
pub mod Quiet
pub mod Arguments
pub mod Deployers
pub mod Environment
pub mod Wrapper
mod Tests
use Prim.Native.String.{◌++◌}
use text.Mathlib.Text.{◌==◌ as str_eq}
use reserve_protocol.Base.{
  ℕ, String, Bool, true, false, not, ◌||◌, Option, none, some, List, [], ◌∷◌, ◌==◌, if◌then◌else◌,
}
use reserve_protocol.Base.Text.{Dict, is_empty}
use reserve_protocol.Errors.{Error, Result, ok, err, or_throw}
use reserve_protocol.Errors
use reserve_protocol.Deploy.Guards.{throw_if}
use reserve_protocol.Chain.{Arg, Hardhat, World, Script, pure, ◌>>=◌, ◌>>◌, reads}

-- The arguments of verifyContract, which are those of the task `verify:verify`.
pub record Request : Type 0 where
  pub address : Option String
  pub arguments : List Arg
  pub contract : String
  pub libraries : Option (Dict Arg)

-- What the API answers: the HTTP status, and of the data the status and the source code.
pub record Response : Type 0 where
  pub status : ℕ
  pub data_status : String
  pub source_code : Option String

pub record Etherscan (hre : Hardhat) : Type 0 where
  pub api_key : String
  -- `axios.get(url)`
  pub get : hre.Chain → String → Option Response
  -- `hre.run('verify:verify', request)`: whether it ended, and the state after it
  pub run_verify : Request → hre.Chain → Bool × hre.Chain

-- `chainId == 1` converts the decimal text.
unfoldable pub url_prefix : String → String → Bool → String
url_prefix network chain_id true =
    if str_eq chain_id "1" then "api." else "api-" ++ (network ++ ".")
url_prefix network chain_id false = if str_eq chain_id "1" then "" else network ++ "."

unfoldable pub get_etherscan_base_url : String → String → Bool → String
unfolding url_prefix
get_etherscan_base_url network chain_id api =
    "https://" ++ (url_prefix network chain_id api ++ "etherscan.io")

-- a value in a template literal
abbrev pub template : Option String → String
template none = "undefined"
template (some s) = s

-- `data['result'][0]['SourceCode']?.length > 0`
abbrev pub is_verified : Response → Bool
is_verified r = elim r.source_code [ none ↦ false | some code ↦ not (is_empty code) ]

module _ (hre : Hardhat) (etherscan : Etherscan hre) where
  unfoldable pub status_url : String → Option String → String
  unfolding get_etherscan_base_url
  status_url chain_id address =
      get_etherscan_base_url hre.network_name chain_id true
      ++ ("/api/?module=contract&action=getsourcecode&address="
          ++ (template address ++ ("&apikey=" ++ etherscan.api_key)))

  -- The answer of the API, which has to be a success.
  unfoldable pub ask_status : String → Option String → World hre.Chain → Result Response
  unfolding status_url
  ask_status chain_id address w =
      Errors.◌>>=◌
        (or_throw Error.provider_error (etherscan.get w.chain (status_url chain_id address)))
        λ r.
          Errors.◌>>◌
            (throw_if (not (r.status == 200) || not (str_eq r.data_status "1"))
              (Error.check_failed "Etherscan"))
            (ok r)

  -- The verification; a failure is printed, and is no throw.
  unfoldable pub submit : Request → Script hre.Chain (Unit {0})
  submit request w =
      let (done, chain) = etherscan.run_verify request w.chain in
      (ok tt, record w { chain = chain })

  unfoldable pub verify_contract : String → Request → Script hre.Chain (Unit {0})
  verify_contract chain_id request = do
    response ← reads (ask_status chain_id request.address)
    if is_verified response then pure tt else submit request

  -- The calls of a script: each request is made from what the chain answers at its turn.
  unfoldable pub verify_each :
      String → List (World hre.Chain → Result Request) → Script hre.Chain (Unit {0})
  verify_each chain_id [] = pure tt
  verify_each chain_id (r ∷ rs) = do
    request ← reads r
    verify_contract chain_id request
    verify_each chain_id rs
