-- ===== src/Accounts.antt =====
-- The tasks that work on an account: tasks/deployment/empty-wallet.ts, tasks/testing/mint-tokens.ts
-- and tasks/deployment/create-deployer-registry.ts.
pub mod Emptied
mod Tests
use text.Mathlib.Text.{starts_with}
use reserve_protocol.Base.{
  String, Bool, true, false, not, Option, none, some, List, [], ◌∷◌, if◌then◌else◌,
}
use reserve_protocol.Base.Int.{ℤ, pos, ◌+ℤ◌}
use reserve_protocol.Base.Text.{Dict, lookup}
use reserve_protocol.BigNumber.{BigNumbers}
use reserve_protocol.Numbers.Parse.{whole, bn}
use reserve_protocol.Errors.{Error, Result, ok, err, or_throw}
use reserve_protocol.Errors
use reserve_protocol.Config.{get_network_config}
use reserve_protocol.Config.Networks.{INetworkConfig}
use reserve_protocol.Deploy.Store.{
  IAssetCollDeployments, get_asset_coll_deployment_filename, get_deployment_file, as_asset_coll,
}
use reserve_protocol.Deploy.Guards.{throw_if, get_chain_id}
use reserve_protocol.Deploy.Tasks.{start_task, deploy_with, param, as_address}
use reserve_protocol.Chain.{
  Arg, address, Hardhat, World, Script, pure, ◌>>=◌, ◌>>◌, reads, call_text, call_number,
}
use reserve_protocol.Chain.Calls.{transact}
use reserve_protocol.Verify.{Etherscan, Request}

-- `{ value, to, gasPrice }`
pub record Transaction : Type 0 where
  pub value : ℤ
  pub to : Arg
  pub gas_price : ℤ

-- The first signer. `none` from a transaction is a refusal by the node; nothing waits for a receipt.
pub record Wallet (hre : Hardhat) : Type 0 where
  pub own : String
  pub balance : hre.Chain → Option ℤ
  pub gas_price : hre.Chain → Option ℤ
  pub send_transaction : Transaction → hre.Chain → Option (Unit {0}) × hre.Chain

-- The transactions of ERC20Mock and of StaticATokenLM, by the address of the token.
pub record Tokens (hre : Hardhat) : Type 0 where
  pub mint : String → Arg → ℤ → hre.Chain → Option (Unit {0}) × hre.Chain
  pub approve : String → String → ℤ → hre.Chain → Option (Unit {0}) × hre.Chain
  pub deposit : String → String → ℤ → hre.Chain → Option (Unit {0}) × hre.Chain
  pub transfer : String → Arg → ℤ → hre.Chain → Option (Unit {0}) × hre.Chain

module _ (hre : Hardhat) (wallet : Wallet hre) (big : BigNumbers) where
  -- `gasPrice.mul(21000)`, which the balance has to exceed
  unfoldable pub transfer_all : Dict Arg → World hre.Chain → Result Transaction
  transfer_all params w =
      Errors.◌>>=◌ (or_throw Error.provider_error (wallet.balance w.chain)) λ bal.
        Errors.◌>>=◌ (or_throw Error.provider_error (wallet.gas_price w.chain)) λ gas_price.
          Errors.◌>>◌
            (throw_if (not (big.gt bal (big.mul gas_price (pos 21_000))))
              (Error.check_failed "balance"))
            (ok (record {
              value = big.sub bal (big.mul gas_price (pos 21_000));
              to = param params "recipient";
              gas_price = gas_price;
            }))

  unfoldable pub empty_wallet : Dict Arg → Script hre.Chain (Unit {0})
  empty_wallet params = do
    reads (start_task hre ("recipient" ∷ []) params)
    tx ← reads (transfer_all params)
    transact "sendTransaction" (wallet.send_transaction tx)

-- `tokens`
abbrev pub mock_tokens : List String
mock_tokens =
    "DAI" ∷ "USDC" ∷ "USDT" ∷ "BUSD" ∷ "USDP" ∷ "TUSD" ∷ "aDAI" ∷ "aUSDC" ∷ "aUSDT" ∷ "aBUSD"
    ∷ "cDAI" ∷ "cUSDC" ∷ "cETH" ∷ "cWBTC" ∷ "AAVE" ∷ "stkAAVE" ∷ "COMP" ∷ "WETH" ∷ "WBTC" ∷ "EURT"
    ∷ "RSR" ∷ []

module _ (hre : Hardhat) (wallet : Wallet hre) (tokens : Tokens hre) (big : BigNumbers) where
  -- `BigNumber.from('10').pow(decimals + 9)` of a token, and its address
  unfoldable pub mint_amount : INetworkConfig → String → World hre.Chain → Result (String × ℤ)
  mint_amount config token w =
      Errors.◌>>=◌ (or_throw Error.type_error (lookup token config.tokens)) λ tok.
        Errors.◌>>=◌ (call_number hre tok "decimals" w) λ decimals.
          Errors.◌>>=◌ (or_throw Error.number_error (bn big (whole (pos 10)))) λ ten.
            Errors.◌>>=◌ (or_throw Error.number_error (big.pow ten (decimals +ℤ pos 9)))
              λ amt. ok (tok, amt)

  -- the wrapper behind a collateral
  unfoldable pub static_atoken_of : IAssetCollDeployments → String → World hre.Chain → Result String
  static_atoken_of d token w =
      Errors.◌>>=◌ (or_throw Error.type_error (lookup token d.collateral))
        λ coll. call_text hre coll "erc20" w

  -- An AToken is minted to the signer, wrapped, and the wrapper passed on.
  unfoldable pub mint_wrapped :
      Arg → IAssetCollDeployments → String → String → ℤ → Script hre.Chain (Unit {0})
  mint_wrapped receiver d token tok amt = do
    transact "mint" (tokens.mint tok (address wallet.own) amt)
    static_token ← reads (static_atoken_of d token)
    transact "approve" (tokens.approve tok static_token amt)
    symbol ← reads (call_text hre static_token "symbol")
    transact "deposit" (tokens.deposit static_token wallet.own amt)
    transact "transfer" (tokens.transfer static_token receiver amt)

  unfoldable pub mint_token :
      Arg → INetworkConfig → IAssetCollDeployments → String → Script hre.Chain (Unit {0})
  unfolding mint_wrapped
  mint_token receiver config d token = do
    p ← reads (mint_amount config token)
    if starts_with token "a"
        then mint_wrapped receiver d token p.0 p.1
        else transact "mint" (tokens.mint p.0 receiver p.1)

  unfoldable pub mint_each :
      Arg → INetworkConfig → IAssetCollDeployments → List String → Script hre.Chain (Unit {0})
  mint_each receiver config d [] = pure tt
  mint_each receiver config d (token ∷ rest) = do
    mint_token receiver config d token
    mint_each receiver config d rest

  unfoldable pub open_minting :
      Dict Arg → World hre.Chain → Result (INetworkConfig × IAssetCollDeployments)
  open_minting params w = Errors.◌>>=◌ (start_task hre ("address" ∷ []) params w) λ chain_id.
      Errors.◌>>=◌ (get_network_config chain_id) λ config.
        Errors.◌>>=◌ (get_deployment_file (get_asset_coll_deployment_filename chain_id) w.files)
          λ file. Errors.◌>>=◌ (as_asset_coll file) λ d. ok (config, d)

  unfoldable pub mint_tokens : Dict Arg → Script hre.Chain (Unit {0})
  mint_tokens params = do
    p ← reads (open_minting params)
    mint_each (param params "address") p.0 p.1 mock_tokens

module _ (hre : Hardhat) (etherscan : Etherscan hre) where
  -- `await hre.run('verify:verify', …)`: here a failure is a throw.
  unfoldable pub verify_or_throw : Request → Script hre.Chain (Unit {0})
  verify_or_throw request w =
      let (done, chain) = etherscan.run_verify request w.chain in
      (throw_if (not done) (Error.call_failed "verify:verify"), record w { chain = chain })

  unfoldable pub create_deployer_registry : Dict Arg → Script hre.Chain String
  create_deployer_registry params = do
    reads (start_task hre ("owner" ∷ []) params)
    registry ← deploy_with hre "DeployerRegistry" [] params ("owner" ∷ []) []
    verify_or_throw (record {
      address = some registry;
      arguments = param params "owner" ∷ [];
      contract = "contracts/facade/DeployerRegistry.sol:DeployerRegistry";
      libraries = none;
    })
    pure registry
