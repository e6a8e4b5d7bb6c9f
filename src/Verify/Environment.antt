-- ===== src/Verify/Environment.antt =====
-- scripts/check_env.ts: the checks before a deployment.
use Prim.Native.String.{◌++◌}
use text.Mathlib.Text.{◌==◌ as str_eq}
use reserve_protocol.Base.{String, true, not, ◌||◌, Option, ◌==◌}
use reserve_protocol.Base.Int.{ℤ}
use reserve_protocol.Base.Text.{codes}
use reserve_protocol.BigNumber.{BigNumbers}
use reserve_protocol.Numbers.Parse.{text as text_of, bn}
use reserve_protocol.Errors.{Error, Result, ◌>>=◌, ◌>>◌, or_throw}
use reserve_protocol.Deploy.Guards.{throw_if, get_chain_id}
use reserve_protocol.Chain.{Hardhat, World}
use reserve_protocol.Verify.{Etherscan, get_etherscan_base_url}

-- The account that deploys, and what the provider answers.
pub record Account (hre : Hardhat) : Type 0 where
  pub deployer : String
  -- `(await provider.getNetwork()).chainId`, as its decimal text
  pub network_chain_id : hre.Chain → Option String
  pub balance : hre.Chain → String → Option ℤ
  -- `BigNumber.toNumber()`, which refuses what a number does not hold
  pub to_number : ℤ → Option ℤ

module _ (hre : Hardhat) (etherscan : Etherscan hre) (account : Account hre)
    (big : BigNumbers) where
  unfoldable pub supply_url : String → String
  unfolding get_etherscan_base_url
  supply_url chain_id =
      get_etherscan_base_url hre.network_name chain_id true
      ++ ("/api?module=stats&action=ethsupply&apikey=" ++ etherscan.api_key)

  -- The result is the balance in hundredths of an ETH, which the script prints.
  unfoldable pub check_env : World hre.Chain → Result ℤ
  unfolding supply_url
  check_env w = do
    throw_if (str_eq account.deployer "0x959FD7Ef9089B7142B6B908Dc3A8af7Aa8ff0FA1")
        (Error.check_failed "mnemonic")
    chain_id ← or_throw Error.provider_error (account.network_chain_id w.chain)
    answered ← get_chain_id hre w
    throw_if (not (str_eq chain_id answered)) (Error.check_failed "JSON RPC")
    r ← or_throw Error.provider_error (etherscan.get w.chain (supply_url chain_id))
    throw_if (not (r.status == 200) || not (str_eq r.data_status "1"))
        (Error.check_failed "Etherscan")
    balance ← or_throw Error.provider_error (account.balance w.chain account.deployer)
    unit ← or_throw Error.number_error (bn big (text_of (codes "1e16")))
    hundredths ← or_throw Error.number_error (big.div balance unit)
    or_throw Error.number_error (account.to_number hundredths)
