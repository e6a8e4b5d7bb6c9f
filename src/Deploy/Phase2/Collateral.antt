-- ===== src/Deploy/Phase2/Collateral.antt =====
-- 1_deploy_assets.ts and 2_deploy_collateral.ts, block by block.
use reserve_protocol.Base.{String}
use reserve_protocol.BigNumber.{BigNumbers}
use reserve_protocol.Errors.{Result}
use reserve_protocol.Base.Text.{Dict}
use reserve_protocol.Deploy.Store.{IAssetCollDeployments, asset_coll}
use reserve_protocol.Deploy.Tasks.{
  deploy_asset, deploy_fiat_collateral, deploy_atoken_fiat_collateral, deploy_nonfiat_collateral,
  deploy_eurfiat_collateral, deploy_selfreferential_collateral,
  deploy_ctoken_selfreferential_collateral, deploy_ctoken_fiat_collateral,
  deploy_ctoken_nonfiat_collateral,
}
use reserve_protocol.Deploy.Phase2.{
  Context, Keep, set_asset, open_asset_coll, write_then_record, record_then_write, record_only,
}
use reserve_protocol.Deploy.Phase2.Terms.{
  asset_params, fiat_params, static_atoken, atoken_params, ctoken_params, cwbtc_params, ceth_params,
  two_feed_params, weth_params,
}
use reserve_protocol.Chain.{Arg, Hardhat, World, Script, ◌>>=◌, reads, write_file, deploy}

module _ (hre : Hardhat) (big : BigNumbers) where
  unfoldable pub deploy_asset_of : Context → String → String → Script hre.Chain String
  deploy_asset_of c feed symbol = do
    params ← reads (asset_params hre big c feed symbol)
    deploy_asset hre params

  -- 1_deploy_assets.ts
  unfoldable pub deploy_assets : Script hre.Chain (Unit {0})
  deploy_assets = do
    opened ← reads (open_asset_coll hre)
    stk_aave ← deploy_asset_of opened.0 "AAVE" "stkAAVE"
    comp ← deploy_asset_of opened.0 "COMP" "COMP"
    write_file opened.0.file
        (asset_coll (set_asset "COMP" comp (set_asset "stkAAVE" stk_aave opened.1)))

  -- A block: the parameters, the run of the task, and what is kept of the address.
  unfoldable pub block :
      (World hre.Chain → Result (Dict Arg))
      → (Dict Arg → Script hre.Chain String)
      → Keep hre.Chain
      → String
      → String
      → IAssetCollDeployments
      → Script hre.Chain IAssetCollDeployments
  block params task keep file symbol d = do p ← reads params; a ← task p; keep file symbol a d

  unfoldable pub fiat_block :
      Keep hre.Chain
      → Context
      → String
      → IAssetCollDeployments
      → Script hre.Chain IAssetCollDeployments
  fiat_block keep c symbol d =
      block (fiat_params hre big c symbol) (deploy_fiat_collateral hre) keep c.file symbol d

  -- The AToken is wrapped first.
  unfoldable pub atoken_block :
      Keep hre.Chain
      → Context
      → String
      → String
      → IAssetCollDeployments
      → Script hre.Chain IAssetCollDeployments
  atoken_block keep c symbol feed d = do
    creation ← reads (static_atoken hre big c symbol)
    static_token ← deploy hre creation
    block (atoken_params hre big c feed static_token) (deploy_atoken_fiat_collateral hre) keep
        c.file symbol d

  unfoldable pub ctoken_block :
      Context
      → String
      → String
      → String
      → IAssetCollDeployments
      → Script hre.Chain IAssetCollDeployments
  ctoken_block c symbol feed divisor d =
      block (ctoken_params hre big c symbol feed divisor) (deploy_ctoken_fiat_collateral hre)
        record_then_write c.file symbol d

  unfoldable pub deploy_fiats :
      Context → IAssetCollDeployments → Script hre.Chain IAssetCollDeployments
  deploy_fiats c d = do
    d ← fiat_block write_then_record c "DAI" d
    d ← fiat_block write_then_record c "USDC" d
    d ← fiat_block write_then_record c "USDT" d
    d ← fiat_block write_then_record c "USDP" d
    d ← fiat_block record_only c "TUSD" d
    fiat_block write_then_record c "BUSD" d

  unfoldable pub deploy_atokens :
      Context → IAssetCollDeployments → Script hre.Chain IAssetCollDeployments
  deploy_atokens c d = do
    d ← atoken_block write_then_record c "aDAI" "DAI" d
    d ← atoken_block record_then_write c "aUSDC" "USDC" d
    d ← atoken_block record_then_write c "aUSDT" "USDT" d
    d ← atoken_block record_then_write c "aBUSD" "BUSD" d
    atoken_block record_then_write c "aUSDP" "USDP" d

  unfoldable pub deploy_ctokens :
      Context → IAssetCollDeployments → Script hre.Chain IAssetCollDeployments
  deploy_ctokens c d = do
    d ← ctoken_block c "cDAI" "DAI" "1e28" d
    d ← ctoken_block c "cUSDC" "USDC" "1e16" d
    d ← ctoken_block c "cUSDT" "USDT" "1e16" d
    d ← ctoken_block c "cUSDP" "USDP" "1e28" d
    d ←
        block (cwbtc_params hre big c) (deploy_ctoken_nonfiat_collateral hre) record_then_write
          c.file "cWBTC" d
    block (ceth_params hre big c) (deploy_ctoken_selfreferential_collateral hre) record_then_write
        c.file "cETH" d

  unfoldable pub deploy_others :
      Context → IAssetCollDeployments → Script hre.Chain IAssetCollDeployments
  deploy_others c d = do
    d ←
        block (two_feed_params hre big c "WBTC" "BTC" "WBTC" "BTC" "BTC")
          (deploy_nonfiat_collateral hre) record_then_write c.file "WBTC" d
    d ←
        block (weth_params hre big c) (deploy_selfreferential_collateral hre) record_then_write
          c.file "WETH" d
    block (two_feed_params hre big c "EURT" "EURT" "EURT" "EUR" "EURO")
        (deploy_eurfiat_collateral hre) record_then_write c.file "EURT" d

  -- all the blocks in order
  unfoldable pub deploy_blocks :
      Context → IAssetCollDeployments → Script hre.Chain IAssetCollDeployments
  deploy_blocks c d = do
    d ← deploy_fiats c d
    d ← deploy_atokens c d
    d ← deploy_ctokens c d
    deploy_others c d

  -- 2_deploy_collateral.ts
  unfoldable pub deploy_collateral : Script hre.Chain IAssetCollDeployments
  deploy_collateral = do opened ← reads (open_asset_coll hre); deploy_blocks opened.0 opened.1
