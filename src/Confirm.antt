-- ===== src/Confirm.antt =====
-- scripts/confirm.ts and scripts/confirmation: the checks of what was deployed. They read only.
pub mod Assets
pub mod Components
pub mod Missing
mod Tests
use text.Mathlib.Text.{◌==◌ as str_eq}
use reserve_protocol.Base.{
  String, Bool, true, false, not, ◌||◌, Option, none, some, List, [], ◌∷◌, if◌then◌else◌,
}
use reserve_protocol.Base.Int.{ℤ, pos}
use reserve_protocol.Base.Text.{Dict, codes}
use reserve_protocol.BigNumber.{BigNumbers}
use reserve_protocol.Numbers.Parse.{text as text_of, bn}
use reserve_protocol.Errors.{Error, Result, ok, err, ◌>>=◌, ◌>>◌, or_throw}
use reserve_protocol.Config.{get_network_config, is_development_chain}
use reserve_protocol.Config.RToken.{rtoken_name}
use reserve_protocol.Deploy.Store.{
  IrTokenDeployments, get_deployment_filename, get_asset_coll_deployment_filename,
  get_rtoken_deployment_filename, get_deployment_file, as_asset_coll, as_rtoken,
}
use reserve_protocol.Deploy.Guards.{throw_if, get_chain_id}
use reserve_protocol.Chain.{Hardhat, World, call_text, call_number}
use reserve_protocol.Chain.Calls.{Contracts}

-- `Object.values`
abbrev pub values : {A : Type 0} → Dict A → List A
values [] = []
values ((k, a) ∷ d) = a ∷ values d

module _ (hre : Hardhat) where
  -- The start of each script: the chain has a configuration and is no development chain.
  unfoldable pub open_network : World hre.Chain → Result String
  open_network w = do
    chain_id ← get_chain_id hre w
    network ← get_network_config chain_id
    throw_if (is_development_chain hre.network_name) Error.development_chain
    ok chain_id

  module _ (contracts : Contracts hre) (big : BigNumbers) where
    -- 0_confirm_components.ts on the main network
    unfoldable pub confirm_main : IrTokenDeployments → World hre.Chain → Result (Unit {0})
    confirm_main d w = do
      paused ← or_throw (Error.call_failed "paused") (contracts.paused w.chain d.main)
      throw_if (not paused) (Error.check_failed "main")
      delay ← call_number hre d.timelock "getMinDelay" w
      least ← or_throw Error.number_error (bn big (text_of (codes "1e12")))
      throw_if (big.lt delay least) (Error.check_failed "timelock")

    unfoldable pub confirm_components : World hre.Chain → Result (Unit {0})
    unfolding open_network
    confirm_components w = do
      chain_id ← open_network w
      file ← get_deployment_file (get_rtoken_deployment_filename chain_id rtoken_name) w.files
      d ← as_rtoken file
      if str_eq chain_id "1" then confirm_main d w else ok tt

    -- `lower` and `upper`: the price less and plus its n-th part
    unfoldable pub price_bounds : ℤ → ℤ → Result (ℤ × ℤ)
    price_bounds current n = do
      part ← or_throw Error.number_error (big.div current n)
      ok (big.sub current part, big.add current part)

    -- `x.lt(lower) || x.gt(upper)`
    unfoldable pub out_of_bounds : ℤ → ℤ × ℤ → Bool
    out_of_bounds x bounds = big.lt x bounds.0 || big.gt x bounds.1

    -- `asset.price(true)`, which must not be a fallback price
    unfoldable pub current_price : String → World hre.Chain → Result ℤ
    current_price a w = do
      answer ← or_throw (Error.call_failed "price") (contracts.price w.chain a)
      throw_if answer.0 (Error.check_failed "oracle")
      ok answer.1

    -- The loops of 1_confirm_assets.ts.
    unfoldable pub confirm_asset : String → World hre.Chain → Result (Unit {0})
    unfolding current_price price_bounds out_of_bounds
    confirm_asset a w = do
      fallback ← call_number hre a "fallbackPrice" w
      current ← current_price a w
      bounds ← price_bounds current (pos 20)
      throw_if (out_of_bounds fallback bounds) (Error.check_failed "fallback price")

    -- {UoA/tok} ~= {ref/tok} * {target/ref} * {UoA/target}
    unfoldable pub peg_product : String → World hre.Chain → Result ℤ
    peg_product c w = do
      ref_per_tok ← call_number hre c "refPerTok" w
      target_per_ref ← call_number hre c "targetPerRef" w
      price_per_target ← call_number hre c "pricePerTarget" w
      unit ← or_throw Error.number_error (bn big (text_of (codes "1e36")))
      or_throw Error.number_error
          (big.div (big.mul (big.mul ref_per_tok target_per_ref) price_per_target) unit)

    unfoldable pub confirm_collateral : String → World hre.Chain → Result (Unit {0})
    unfolding current_price price_bounds out_of_bounds peg_product
    confirm_collateral c w = do
      erc20 ← call_text hre c "erc20" w
      symbol ← call_text hre erc20 "symbol" w
      current ← current_price c w
      product ← peg_product c w
      bounds ← price_bounds current (pos 100)
      throw_if (out_of_bounds product bounds) (Error.check_failed "peg")
      fallback ← call_number hre c "fallbackPrice" w
      throw_if (out_of_bounds fallback bounds) (Error.check_failed "fallback price")

    -- a loop over addresses
    unfoldable pub confirm_each :
        (String → World hre.Chain → Result (Unit {0}))
        → List String
        → World hre.Chain
        → Result (Unit {0})
    confirm_each confirm [] w = ok tt
    confirm_each confirm (a ∷ addresses) w = confirm a w >> confirm_each confirm addresses w

    -- 1_confirm_assets.ts
    unfoldable pub confirm_assets : World hre.Chain → Result (Unit {0})
    unfolding open_network confirm_asset confirm_collateral
    confirm_assets w = do
      chain_id ← open_network w
      file ← get_deployment_file (get_asset_coll_deployment_filename chain_id) w.files
      d ← as_asset_coll file
      confirm_each confirm_asset (values d.assets) w
      confirm_each confirm_collateral (values d.collateral) w

    -- scripts/confirm.ts: both files are there, and both scripts go through.
    unfoldable pub confirm : World hre.Chain → Result (Unit {0})
    unfolding open_network
    confirm w = do
      chain_id ← open_network w
      phase1 ← get_deployment_file (get_deployment_filename chain_id) w.files
      assets ← get_deployment_file (get_asset_coll_deployment_filename chain_id) w.files
      confirm_components w
      confirm_assets w
