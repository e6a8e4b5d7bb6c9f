-- ===== src/Deploy/Phase2/Blocks.antt =====
-- Each task and each block of 2_deploy_collateral.ts against what is listed.
use reserve_protocol.Base.{String, ◌≡◌, some, List, ◌∷◌}
use reserve_protocol.Base.Text.{Dict, lookup}
use reserve_protocol.BigNumber.{BigNumbers}
use reserve_protocol.Errors.{Result}
use reserve_protocol.Deploy.Store.{IAssetCollDeployments, asset_coll}
use reserve_protocol.Deploy.Guards.Valid.{IsDeployedAt}
use reserve_protocol.Deploy.Tasks.{
  deploy_with, deploy_fiat_collateral, deploy_atoken_fiat_collateral, deploy_nonfiat_collateral,
  deploy_eurfiat_collateral, deploy_selfreferential_collateral,
  deploy_ctoken_selfreferential_collateral, deploy_ctoken_fiat_collateral,
  deploy_ctoken_nonfiat_collateral,
}
use reserve_protocol.Deploy.Phase2.{Keep, record_then_write}
use reserve_protocol.Deploy.Phase2.Collateral.{block}
use reserve_protocol.Deploy.Phase2.Progress.{
  Listed, Halted, halt, Keeps, deploy-Listed, record_then_write-Listed,
}
use reserve_protocol.Chain.{Arg, Hardhat, IsHardhat, World, Script}
use reserve_protocol.Chain.Outcome.{Runs, Runs-bind, Runs-reads, Runs-check}

module _ (hre : Hardhat) (laws : IsHardhat hre) (file : String) (w₀ : World hre.Chain) where
  -- A task that deploys one contract.
  abbrev pub Deploys : (Dict Arg → Script hre.Chain String) → Type 0
  Deploys task =
      (p : Dict Arg) (symbols : List String) (d : IAssetCollDeployments) (w : World hre.Chain)
      → Listed hre file w₀ symbols d w
      → Runs (λ a w'. IsDeployedAt hre w' a × Listed hre file w₀ symbols d w') (Halted hre file w₀)
          (task p) w

  pub deploy_fiat_collateral-Deploys : Deploys (deploy_fiat_collateral hre)
  unfolding deploy_fiat_collateral deploy_with
  deploy_fiat_collateral-Deploys p symbols d w l =
      Runs-check _ (halt hre file w₀ symbols d w l)
        λ id e. deploy-Listed hre laws file w₀ symbols _ l

  pub deploy_atoken_fiat_collateral-Deploys : Deploys (deploy_atoken_fiat_collateral hre)
  unfolding deploy_atoken_fiat_collateral deploy_with
  deploy_atoken_fiat_collateral-Deploys p symbols d w l =
      Runs-check _ (halt hre file w₀ symbols d w l)
        λ id e. deploy-Listed hre laws file w₀ symbols _ l

  pub deploy_nonfiat_collateral-Deploys : Deploys (deploy_nonfiat_collateral hre)
  unfolding deploy_nonfiat_collateral deploy_with
  deploy_nonfiat_collateral-Deploys p symbols d w l =
      Runs-check _ (halt hre file w₀ symbols d w l)
        λ id e. deploy-Listed hre laws file w₀ symbols _ l

  pub deploy_eurfiat_collateral-Deploys : Deploys (deploy_eurfiat_collateral hre)
  unfolding deploy_eurfiat_collateral deploy_with
  deploy_eurfiat_collateral-Deploys p symbols d w l =
      Runs-check _ (halt hre file w₀ symbols d w l)
        λ id e. deploy-Listed hre laws file w₀ symbols _ l

  pub deploy_selfreferential_collateral-Deploys : Deploys (deploy_selfreferential_collateral hre)
  unfolding deploy_selfreferential_collateral deploy_with
  deploy_selfreferential_collateral-Deploys p symbols d w l =
      Runs-check _ (halt hre file w₀ symbols d w l)
        λ id e. deploy-Listed hre laws file w₀ symbols _ l

  pub deploy_ctoken_selfreferential_collateral-Deploys :
      Deploys (deploy_ctoken_selfreferential_collateral hre)
  unfolding deploy_ctoken_selfreferential_collateral deploy_with
  deploy_ctoken_selfreferential_collateral-Deploys p symbols d w l =
      Runs-check _ (halt hre file w₀ symbols d w l)
        λ id e. deploy-Listed hre laws file w₀ symbols _ l

  pub deploy_ctoken_fiat_collateral-Deploys : Deploys (deploy_ctoken_fiat_collateral hre)
  unfolding deploy_ctoken_fiat_collateral deploy_with
  deploy_ctoken_fiat_collateral-Deploys p symbols d w l =
      let stop = halt hre file w₀ symbols d w l in
      Runs-check _ stop
        λ id e. Runs-reads _ stop λ decimals e. deploy-Listed hre laws file w₀ symbols _ l

  pub deploy_ctoken_nonfiat_collateral-Deploys : Deploys (deploy_ctoken_nonfiat_collateral hre)
  unfolding deploy_ctoken_nonfiat_collateral deploy_with
  deploy_ctoken_nonfiat_collateral-Deploys p symbols d w l =
      let stop = halt hre file w₀ symbols d w l in
      Runs-check _ stop
        λ id e. Runs-reads _ stop λ decimals e. deploy-Listed hre laws file w₀ symbols _ l

  module _ (big : BigNumbers) where
    -- A block lists one more symbol.
    pub block-Listed :
        (params : World hre.Chain → Result (Dict Arg)) {task : Dict Arg → Script hre.Chain String}
        (keep : Keep hre.Chain) (symbols : List String) {symbol : String}
        {d : IAssetCollDeployments} {w : World hre.Chain}
        → Deploys task
        → Keeps hre laws file w₀ keep
        → Listed hre file w₀ symbols d w
        → Runs
            (Listed hre file w₀ (symbol ∷ symbols))
            (Halted hre file w₀)
            (block hre big params task keep file symbol d)
            w
    unfolding block
    block-Listed params keep symbols {symbol} {d} {w} deploys keeps l =
        Runs-reads _ (halt hre file w₀ symbols d w l) λ p e.
          Runs-bind _ (deploys p symbols d w l) λ a w' (new, l'). keeps symbols symbol a d w' new l'

    -- The last block leaves the object in the file.
    pub last_block-Listed :
        (params : World hre.Chain → Result (Dict Arg)) {task : Dict Arg → Script hre.Chain String}
        (symbols : List String) {symbol : String} {d : IAssetCollDeployments} {w : World hre.Chain}
        → Deploys task
        → Listed hre file w₀ symbols d w
        → Runs
            (λ d' w'.
              Listed hre file w₀ (symbol ∷ symbols) d' w'
              × (lookup file w'.files ≡ some (asset_coll d')))
            (Halted hre file w₀)
            (block hre big params task record_then_write file symbol d)
            w
    unfolding block
    last_block-Listed params symbols {symbol} {d} {w} deploys l =
        Runs-reads _ (halt hre file w₀ symbols d w l) λ p e.
          Runs-bind _ (deploys p symbols d w l)
            λ a w' (new, l'). record_then_write-Listed hre laws file w₀ symbols symbol a d w' new l'
