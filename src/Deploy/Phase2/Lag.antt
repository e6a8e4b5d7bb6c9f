-- ===== src/Deploy/Phase2/Lag.antt =====
-- Where 2_deploy_collateral.ts writes the file before it records an address, the file lags behind
-- the object, and a throw loses the address.
use reserve_protocol.Base.{String, false, ◌≡◌, refl, ◌∙◌, ap, none, some}
use text.Mathlib.Text.{◌==◌ as str_eq}
use reserve_protocol.Base.Text.{lookup, lookup-insert}
use reserve_protocol.BigNumber.{BigNumbers}
use reserve_protocol.Deploy.Store.{IAssetCollDeployments, asset_coll}
use reserve_protocol.Deploy.Tasks.{deploy_fiat_collateral}
use reserve_protocol.Deploy.Phase1.Progress.{lookup-insert_self}
use reserve_protocol.Deploy.Phase2.{Context, Keep, set_collateral, write_then_record, record_only}
use reserve_protocol.Deploy.Phase2.Collateral.{block, fiat_block, deploy_fiats}
use reserve_protocol.Chain.{Hardhat, World, pure, ◌>>=◌, ◌>>◌, write_file}
use reserve_protocol.Chain.Outcome.{Runs, Runs-bind, Runs-reads, Runs-pure, Runs-any, Runs-weaken}

-- An address under another symbol is not seen.
set_collateral-none :
    (k s a : String) (d : IAssetCollDeployments)
    → str_eq k s ≡ false
    → lookup s d.collateral ≡ none
    → lookup s (set_collateral k a d).collateral ≡ none
set_collateral-none k s a d ne h = lookup-insert k s a d.collateral ∙ rw ne h

module _ (hre : Hardhat) (big : BigNumbers) (c : Context) where
  -- A block whose way of keeping ensures `Q` ensures it.
  fiat_block-keep :
      (keep : Keep hre.Chain) (Q : IAssetCollDeployments → World hre.Chain → Type 0)
      (symbol : String) (d : IAssetCollDeployments) {w : World hre.Chain}
      → ((a : String) (w : World hre.Chain) → Runs Q (λ w. Unit {0}) (keep c.file symbol a d) w)
      → Runs Q (λ w. Unit {0}) (fiat_block hre big keep c symbol d) w
  unfolding fiat_block block
  fiat_block-keep keep Q symbol d keeps = Runs-reads _ tt λ p e.
      Runs-bind (λ a w. Unit {0}) (Runs-any (deploy_fiat_collateral hre p) _) λ a w u. keeps a w

  -- After a block that writes first, the file holds the object as it was before.
  abbrev Behind : String → IAssetCollDeployments → IAssetCollDeployments → World hre.Chain → Type 0
  Behind symbol d d' w =
      (a : String) × (d' ≡ set_collateral symbol a d)
      × (lookup c.file w.files ≡ some (asset_coll d))

  late_block :
      (symbol : String) (d : IAssetCollDeployments) {w : World hre.Chain}
      → Runs (Behind symbol d) (λ w. Unit {0}) (fiat_block hre big write_then_record c symbol d) w
  unfolding write_then_record write_file ◌>>◌ ◌>>=◌ pure
  late_block symbol d =
      fiat_block-keep write_then_record (Behind symbol d) symbol d
        λ a w. record { outcome = (a, refl, lookup-insert_self hre c.file (asset_coll d) w.files) }

  -- no address for BUSD yet
  abbrev Clear : IAssetCollDeployments → World hre.Chain → Type 0
  Clear d w = lookup "BUSD" d.collateral ≡ none

  late_block-Clear :
      (symbol : String) (d : IAssetCollDeployments) {w : World hre.Chain}
      → str_eq symbol "BUSD" ≡ false
      → lookup "BUSD" d.collateral ≡ none
      → Runs Clear (λ w. Unit {0}) (fiat_block hre big write_then_record c symbol d) w
  late_block-Clear symbol d ne h =
      Runs-weaken (Behind symbol d) Clear (λ w. Unit {0}) (λ w. Unit {0}) (late_block symbol d)
        (λ d' w' (a, same, written).
          ap (λ (e : IAssetCollDeployments). lookup "BUSD" e.collateral) same
          ∙ set_collateral-none symbol "BUSD" a d ne h)
        (λ w' u. u)

  unwritten_block-Clear :
      (symbol : String) (d : IAssetCollDeployments) {w : World hre.Chain}
      → str_eq symbol "BUSD" ≡ false
      → lookup "BUSD" d.collateral ≡ none
      → Runs Clear (λ w. Unit {0}) (fiat_block hre big record_only c symbol d) w
  unfolding record_only
  unwritten_block-Clear symbol d ne h =
      fiat_block-keep record_only Clear symbol d
        λ a w. Runs-pure Clear (set_collateral-none symbol "BUSD" a d ne h)

  -- The blocks of the fiat collateral, started from an object without BUSD, end with the address of
  -- BUSD in the object and not in the file, or they throw. So a throw in what follows loses it.
  pub deploy_fiats_behind :
      (d : IAssetCollDeployments) (w : World hre.Chain)
      → lookup "BUSD" d.collateral ≡ none
      → Runs
          (λ d' w'.
            ((a : String) × (lookup "BUSD" d'.collateral ≡ some a))
            × (f : IAssetCollDeployments) × (lookup c.file w'.files ≡ some (asset_coll f))
            × (lookup "BUSD" f.collateral ≡ none))
          (λ w'. Unit {0})
          (deploy_fiats hre big c d)
          w
  unfolding deploy_fiats
  deploy_fiats_behind d w h = Runs-bind Clear (late_block-Clear "DAI" d refl h) λ d w h.
      Runs-bind Clear (late_block-Clear "USDC" d refl h) λ d w h.
        Runs-bind Clear (late_block-Clear "USDT" d refl h) λ d w h.
          Runs-bind Clear (late_block-Clear "USDP" d refl h) λ d w h.
            Runs-bind Clear (unwritten_block-Clear "TUSD" d refl h) λ d w h.
              Runs-weaken (Behind "BUSD" d) _ (λ w. Unit {0}) (λ w. Unit {0}) (late_block "BUSD" d)
                (λ d' w' (a, same, written). (
                  (
                    a,
                    ap (λ (e : IAssetCollDeployments). lookup "BUSD" e.collateral) same
                        ∙ lookup-insert "BUSD" "BUSD" a d.collateral,
                  ),
                  d,
                  written,
                  h,
                ))
                (λ w' u. u)
