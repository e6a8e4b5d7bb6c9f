-- ===== src/Chain/Calls.antt =====
-- The contracts of an RToken as the scripts call them: views with other results than a text or a
-- number, and the two transactions. As with the rest of the environment, `none` is a throw.
use reserve_protocol.Base.{String, Bool, Option}
use reserve_protocol.Base.Int.{ℤ}
use reserve_protocol.Base.Text.{Dict, lookup}
use reserve_protocol.Errors.{Error, Result, or_throw, ◌>>=◌}
use reserve_protocol.Config.{IrTokenConfig, IrTokenSetup, IGovParams}
use reserve_protocol.Events.{Chai, LogDescription, ContractReceipt}
use reserve_protocol.Chain.{Hardhat, Script}

-- The arguments of `FacadeWrite.setupGovernance`.
pub record GovernanceSetup : Type 0 where
  pub rtoken : String
  pub deploy_governance : Bool
  pub unpause : Bool
  pub params : IGovParams
  pub owner : String
  pub guardian : String
  pub pauser : String

pub record Contracts (hre : Hardhat) : Type 1 where
  pub chai : Chai
  pub Log : Type 0
  -- the interface of DeployerP1
  pub parse_log : Log → Option (LogDescription chai.Value)
  -- the text that an event argument is
  pub address_of : chai.Value → Option String
  pub to_asset : hre.Chain → String → String → Option String
  pub paused : hre.Chain → String → Option Bool
  -- `price(true)`: whether it is a fallback price, and the price
  pub price : hre.Chain → String → Option (Bool × ℤ)
  -- A transaction sent and waited for: its receipt, and the chain after it.
  pub deploy_rtoken :
      String
      → IrTokenConfig
      → IrTokenSetup
      → hre.Chain
      → Option (ContractReceipt chai.Value Log) × hre.Chain
  pub setup_governance :
      String → GovernanceSetup → hre.Chain → Option (ContractReceipt chai.Value Log) × hre.Chain

-- `await (await contract.method(…)).wait()`: a transaction that fails has changed the chain as well.
unfoldable pub transact : {C A : Type 0} → String → (C → Option A × C) → Script C A
transact method send w =
    let (r, chain) = send w.chain in
    (or_throw (Error.call_failed method) r, record w { chain = chain })

-- `event.args.name`, used as an address
unfoldable pub event_address :
    {V : Type 0} → (V → Option String) → String → Option (Dict V) → Result String
event_address address_of name args = do
  d ← or_throw Error.type_error args
  v ← or_throw (Error.argument_not_found name) (lookup name d)
  or_throw Error.type_error (address_of v)
