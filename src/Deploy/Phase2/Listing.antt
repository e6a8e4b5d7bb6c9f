-- ===== src/Deploy/Phase2/Listing.antt =====
-- The whole of 2_deploy_collateral.ts: what it lists, and where the file lags behind.
use reserve_protocol.Base.{String, ◌≡◌, some, List, [], ◌∷◌}
use reserve_protocol.Base.Text.{lookup}
use reserve_protocol.BigNumber.{BigNumbers}
use reserve_protocol.Deploy.Store.{IAssetCollDeployments, asset_coll}
use reserve_protocol.Deploy.Phase2.{
  Context, Keep, write_then_record, record_then_write, record_only,
}
use reserve_protocol.Deploy.Phase2.Collateral.{
  fiat_block, atoken_block, ctoken_block, deploy_fiats, deploy_atokens, deploy_ctokens,
  deploy_others, deploy_blocks,
}
use reserve_protocol.Deploy.Phase2.Progress.{
  Onward-refl, Listed, Halted, halt, Keeps, deploy-Listed, record_only-Keeps,
  record_then_write-Keeps, write_then_record-Keeps,
}
use reserve_protocol.Deploy.Phase2.Blocks.{
  block-Listed, last_block-Listed, deploy_fiat_collateral-Deploys,
  deploy_atoken_fiat_collateral-Deploys, deploy_nonfiat_collateral-Deploys,
  deploy_eurfiat_collateral-Deploys, deploy_selfreferential_collateral-Deploys,
  deploy_ctoken_selfreferential_collateral-Deploys, deploy_ctoken_fiat_collateral-Deploys,
  deploy_ctoken_nonfiat_collateral-Deploys,
}
use reserve_protocol.Chain.{Hardhat, IsHardhat, World}
use reserve_protocol.Chain.Outcome.{Runs, Runs-bind, Runs-reads}

abbrev pub fiat_symbols : List String
fiat_symbols = "BUSD" ∷ "TUSD" ∷ "USDP" ∷ "USDT" ∷ "USDC" ∷ "DAI" ∷ []

abbrev pub with_atokens : List String
with_atokens = "aUSDP" ∷ "aBUSD" ∷ "aUSDT" ∷ "aUSDC" ∷ "aDAI" ∷ fiat_symbols

abbrev pub with_ctokens : List String
with_ctokens = "cETH" ∷ "cWBTC" ∷ "cUSDP" ∷ "cUSDT" ∷ "cUSDC" ∷ "cDAI" ∷ with_atokens

abbrev pub all_symbols : List String
all_symbols = "EURT" ∷ "WETH" ∷ "WBTC" ∷ with_ctokens

module _ (hre : Hardhat) (laws : IsHardhat hre) (big : BigNumbers) (c : Context)
    (w₀ : World hre.Chain) where
  fiat_block-Listed :
      (keep : Keep hre.Chain) (symbols : List String) (symbol : String) {d : IAssetCollDeployments}
      {w : World hre.Chain}
      → Keeps hre laws c.file w₀ keep
      → Listed hre c.file w₀ symbols d w
      → Runs
          (Listed hre c.file w₀ (symbol ∷ symbols))
          (Halted hre c.file w₀)
          (fiat_block hre big keep c symbol d)
          w
  unfolding fiat_block
  fiat_block-Listed keep symbols symbol keeps l =
      block-Listed hre laws c.file w₀ big _ _ symbols
        (deploy_fiat_collateral-Deploys hre laws c.file w₀) keeps l

  atoken_block-Listed :
      (keep : Keep hre.Chain) (symbols : List String) (symbol feed : String)
      {d : IAssetCollDeployments} {w : World hre.Chain}
      → Keeps hre laws c.file w₀ keep
      → Listed hre c.file w₀ symbols d w
      → Runs
          (Listed hre c.file w₀ (symbol ∷ symbols))
          (Halted hre c.file w₀)
          (atoken_block hre big keep c symbol feed d)
          w
  unfolding atoken_block
  atoken_block-Listed keep symbols symbol feed {d} {w} keeps l =
      Runs-reads _ (halt hre c.file w₀ symbols d w l) λ creation e.
        Runs-bind _ (deploy-Listed hre laws c.file w₀ symbols creation l) λ wrapper w' (new, l').
          block-Listed hre laws c.file w₀ big _ _ symbols
            (deploy_atoken_fiat_collateral-Deploys hre laws c.file w₀) keeps l'

  ctoken_block-Listed :
      (symbols : List String) (symbol feed divisor : String) {d : IAssetCollDeployments}
      {w : World hre.Chain}
      → Listed hre c.file w₀ symbols d w
      → Runs
          (Listed hre c.file w₀ (symbol ∷ symbols))
          (Halted hre c.file w₀)
          (ctoken_block hre big c symbol feed divisor d)
          w
  unfolding ctoken_block
  ctoken_block-Listed symbols symbol feed divisor l =
      block-Listed hre laws c.file w₀ big _ _ symbols
        (deploy_ctoken_fiat_collateral-Deploys hre laws c.file w₀)
        (record_then_write-Keeps hre laws c.file w₀) l

  fiats-Listed :
      {d : IAssetCollDeployments} {w : World hre.Chain}
      → Listed hre c.file w₀ [] d w
      → Runs (Listed hre c.file w₀ fiat_symbols) (Halted hre c.file w₀) (deploy_fiats hre big c d) w
  unfolding deploy_fiats
  fiats-Listed l =
      let late = write_then_record-Keeps hre laws c.file w₀ in
      Runs-bind _ (fiat_block-Listed write_then_record _ "DAI" late l) λ d w l.
        Runs-bind _ (fiat_block-Listed write_then_record _ "USDC" late l) λ d w l.
          Runs-bind _ (fiat_block-Listed write_then_record _ "USDT" late l) λ d w l.
            Runs-bind _ (fiat_block-Listed write_then_record _ "USDP" late l) λ d w l.
              Runs-bind _
                (fiat_block-Listed record_only _ "TUSD" (record_only-Keeps hre laws c.file w₀) l)
                λ d w l. fiat_block-Listed write_then_record _ "BUSD" late l

  atokens-Listed :
      {d : IAssetCollDeployments} {w : World hre.Chain}
      → Listed hre c.file w₀ fiat_symbols d w
      → Runs
          (Listed hre c.file w₀ with_atokens)
          (Halted hre c.file w₀)
          (deploy_atokens hre big c d)
          w
  unfolding deploy_atokens
  atokens-Listed l =
      let at_once = record_then_write-Keeps hre laws c.file w₀ in
      Runs-bind _
        (atoken_block-Listed write_then_record _ "aDAI" "DAI"
          (write_then_record-Keeps hre laws c.file w₀) l)
        λ d w l.
          Runs-bind _ (atoken_block-Listed record_then_write _ "aUSDC" "USDC" at_once l) λ d w l.
            Runs-bind _ (atoken_block-Listed record_then_write _ "aUSDT" "USDT" at_once l) λ d w l.
              Runs-bind _ (atoken_block-Listed record_then_write _ "aBUSD" "BUSD" at_once l)
                λ d w l. atoken_block-Listed record_then_write _ "aUSDP" "USDP" at_once l

  ctokens-Listed :
      {d : IAssetCollDeployments} {w : World hre.Chain}
      → Listed hre c.file w₀ with_atokens d w
      → Runs
          (Listed hre c.file w₀ with_ctokens)
          (Halted hre c.file w₀)
          (deploy_ctokens hre big c d)
          w
  unfolding deploy_ctokens
  ctokens-Listed l =
      let at_once = record_then_write-Keeps hre laws c.file w₀ in
      Runs-bind _ (ctoken_block-Listed _ "cDAI" "DAI" "1e28" l) λ d w l.
        Runs-bind _ (ctoken_block-Listed _ "cUSDC" "USDC" "1e16" l) λ d w l.
          Runs-bind _ (ctoken_block-Listed _ "cUSDT" "USDT" "1e16" l) λ d w l.
            Runs-bind _ (ctoken_block-Listed _ "cUSDP" "USDP" "1e28" l) λ d w l.
              Runs-bind _
                (block-Listed hre laws c.file w₀ big _ _ _
                  (deploy_ctoken_nonfiat_collateral-Deploys hre laws c.file w₀) at_once l)
                λ d w l.
                  block-Listed hre laws c.file w₀ big _ _ _
                    (deploy_ctoken_selfreferential_collateral-Deploys hre laws c.file w₀) at_once l

  pub others-Listed :
      {d : IAssetCollDeployments} {w : World hre.Chain}
      → Listed hre c.file w₀ with_ctokens d w
      → Runs
          (λ d' w'.
            Listed hre c.file w₀ all_symbols d' w'
            × (lookup c.file w'.files ≡ some (asset_coll d')))
          (Halted hre c.file w₀)
          (deploy_others hre big c d)
          w
  unfolding deploy_others
  others-Listed l =
      let at_once = record_then_write-Keeps hre laws c.file w₀ in
      Runs-bind _
        (block-Listed hre laws c.file w₀ big _ _ _
          (deploy_nonfiat_collateral-Deploys hre laws c.file w₀) at_once l)
        λ d w l.
          Runs-bind _
            (block-Listed hre laws c.file w₀ big _ _ _
              (deploy_selfreferential_collateral-Deploys hre laws c.file w₀) at_once l)
            λ d w l.
              last_block-Listed hre laws c.file w₀ big _ _
                (deploy_eurfiat_collateral-Deploys hre laws c.file w₀) l

  -- All the blocks, started from any object that is in the file.
  pub blocks-Listed :
      {d : IAssetCollDeployments}
      → lookup c.file w₀.files ≡ some (asset_coll d)
      → Runs
          (λ d' w'.
            Listed hre c.file w₀ all_symbols d' w'
            × (lookup c.file w'.files ≡ some (asset_coll d')))
          (Halted hre c.file w₀)
          (deploy_blocks hre big c d)
          w₀
  unfolding deploy_blocks
  blocks-Listed {d} there =
      let start : Listed hre c.file w₀ [] d w₀ = record {
        listed = tt;
        onward = Onward-refl hre c.file w₀;
        held = (d, there);
      } in
      Runs-bind _ (fiats-Listed start) λ d w l.
        Runs-bind _ (atokens-Listed l)
          λ d w l. Runs-bind _ (ctokens-Listed l) λ d w l. others-Listed l
