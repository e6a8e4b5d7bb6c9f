-- ===== src/Deploy/Full/Complete.antt =====
-- What scripts/deploy.ts leaves when it ends, and when it throws.
use reserve_protocol.Base.{String, ◌≡◌, ◌≢◌, refl, sym, subst, ◌∙◌, ap, ◌⊎◌, inl, inr, some, All}
use reserve_protocol.Base.Text.{lookup}
use reserve_protocol.BigNumber.{BigNumbers}
use reserve_protocol.Errors.{ok}
use reserve_protocol.Deploy.Store.{
  IDeployments, IAssetCollDeployments, deployments, asset_coll, get_deployment_filename,
  get_asset_coll_deployment_filename,
}
use reserve_protocol.Deploy.Guards.{get_chain_id}
use reserve_protocol.Deploy.Phase1.Progress.{Reached, Interrupted, Stage, Filled, extend-Filled}
use reserve_protocol.Deploy.Phase1.Getters.{complete}
use reserve_protocol.Deploy.Phase1.Opening.{get_chain_id-same}
use reserve_protocol.Deploy.Phase1.Pipeline.{deploy_phase1-Stage}
use reserve_protocol.Deploy.Phase2.Progress.{
  Halted, HasCollateral, Onward, Onward-refl, Onward-trans,
}
use reserve_protocol.Deploy.Phase2.Listing.{all_symbols}
use reserve_protocol.Deploy.Phase2.Collected.{deploy_collateral-Listed}
use reserve_protocol.Deploy.Full.{deploy_phase2, deploy_all}
use reserve_protocol.Deploy.Full.Onward.{filenames_ne, setup_asset_coll-Moves, deploy_assets-Moves}
use reserve_protocol.Chain.{Hardhat, IsHardhat, World}
use reserve_protocol.Chain.Outcome.{Runs, Runs-bind, Runs-then, Runs-reads, Runs-pure, Runs-weaken}

module _ (hre : Hardhat) (laws : IsHardhat hre) (w₀ : World hre.Chain) (id : String)
    (chain : get_chain_id hre w₀ ≡ ok id) where
  -- No file but the two of the chain was touched.
  abbrev pub Untouched : World hre.Chain → Type 0
  Untouched w =
      (n : String)
      → get_deployment_filename id ≢ n
      → get_asset_coll_deployment_filename id ≢ n
      → lookup n w.files ≡ lookup n w₀.files

  -- Both files are whole, every address in them that the scripts fill in is deployed, and the chain
  -- is the same.
  pub record IsComplete (w : World hre.Chain) : Type 0 where
    pub first : IDeployments
    pub filled : Filled hre complete first w
    pub written : lookup (get_deployment_filename id) w.files ≡ some (deployments first)
    pub second : IAssetCollDeployments
    pub listed : All (HasCollateral hre second w) all_symbols
    pub held : lookup (get_asset_coll_deployment_filename id) w.files ≡ some (asset_coll second)
    pub untouched : Untouched w
    pub same_chain : get_chain_id hre w ≡ ok id

  -- What phase 2 leaves of what phase 1 made.
  Untouched-Onward :
      (d : IDeployments) (w w' : World hre.Chain)
      → Reached hre (get_deployment_filename id) w₀ complete d w
      → Onward hre (get_asset_coll_deployment_filename id) w w'
      → Untouched w'
  Untouched-Onward d w w' r o n ne₁ ne₂ = o.others n ne₂ ∙ r.others n ne₁

  chain_after :
      (d : IDeployments) (w w' : World hre.Chain)
      → Reached hre (get_deployment_filename id) w₀ complete d w
      → Onward hre (get_asset_coll_deployment_filename id) w w'
      → get_chain_id hre w' ≡ ok id
  chain_after d w w' r o =
      get_chain_id-same hre w' w₀ (λ method. o.network method ∙ r.network method) ∙ chain

  IsComplete-Reached :
      (d : IDeployments) (e : IAssetCollDeployments) (w w' : World hre.Chain)
      → Reached hre (get_deployment_filename id) w₀ complete d w
      → Onward hre (get_asset_coll_deployment_filename id) w w'
      → All (HasCollateral hre e w') all_symbols
      → lookup (get_asset_coll_deployment_filename id) w'.files ≡ some (asset_coll e)
      → IsComplete w'
  IsComplete-Reached d e w w' r o listed held = record {
    first = d;
    filled = extend-Filled hre complete d w w' o.extends r.filled;
    written = o.others (get_deployment_filename id) (filenames_ne id) ∙ r.written;
    second = e;
    listed = listed;
    held = held;
    untouched = Untouched-Onward d w w' r o;
    same_chain = chain_after d w w' r o;
  }

  Halted-Untouched :
      (d : IDeployments) (w w₂ w' : World hre.Chain)
      → Reached hre (get_deployment_filename id) w₀ complete d w
      → Onward hre (get_asset_coll_deployment_filename id) w w₂
      → (w' ≡ w₂) ⊎ Halted hre (get_asset_coll_deployment_filename id) w₂ w'
      → Untouched w'
  Halted-Untouched d w w₂ w' r o (inl same) =
      subst Untouched (sym same) (Untouched-Onward d w w₂ r o)
  Halted-Untouched d w w₂ w' r o (inr h) =
      Untouched-Onward d w w' r (Onward-trans hre _ w w₂ w' o h.onward)

  Interrupted-Untouched :
      (w : World hre.Chain)
      → (w ≡ w₀) ⊎ Interrupted hre (get_deployment_filename id) w₀ w
      → Untouched w
  Interrupted-Untouched w (inl same) n ne₁ ne₂ = ap (λ (v : World hre.Chain). lookup n v.files) same
  Interrupted-Untouched w (inr i) n ne₁ ne₂ = i.others n ne₁

  -- Phase 2 after phase 1.
  phase2-IsComplete :
      (big : BigNumbers) (d : IDeployments) (w : World hre.Chain)
      → Reached hre (get_deployment_filename id) w₀ complete d w
      → Runs (λ u w'. IsComplete w') Untouched (deploy_phase2 hre big) w
  unfolding deploy_phase2
  phase2-IsComplete big d w r =
      let start = Onward-refl hre (get_asset_coll_deployment_filename id) w in
      Runs-then _
        (Runs-weaken _ (λ u w'. Onward hre (get_asset_coll_deployment_filename id) w w') _ Untouched
          (setup_asset_coll-Moves hre laws w id (chain_after d w w r start) start) (λ u w' o. o)
          (λ w' o. Untouched-Onward d w w' r o))
        λ u w₁ o₁.
          Runs-then _
            (Runs-weaken _ (λ u w'. Onward hre (get_asset_coll_deployment_filename id) w w') _
              Untouched (deploy_assets-Moves hre laws w id big (chain_after d w w₁ r o₁) o₁)
              (λ u w' o. o) (λ w' o. Untouched-Onward d w w' r o))
            λ u w₂ o₂.
              Runs-bind _
                (Runs-weaken _ (λ e w'. IsComplete w') _ Untouched
                  (deploy_collateral-Listed hre w₂ id (chain_after d w w₂ r o₂) laws big)
                  (λ e w' (l, held).
                    IsComplete-Reached d e w w' r (Onward-trans hre _ w w₂ w' o₂ l.onward) l.listed
                      held)
                  (λ w' h. Halted-Untouched d w w₂ w' r o₂ h))
                λ e w₃ done. Runs-pure (λ u w'. IsComplete w') done

  -- If the chain id of the start is known and the chain meets the documented laws, scripts/deploy.ts
  -- touches no file but the two of its chain, whether it ends or throws. If it ends, every address
  -- of the deployment file belongs to a deployed contract, and the other file holds the addresses
  -- of all twenty collateral symbols, each deployed.
  pub deploy_all-IsComplete :
      (big : BigNumbers) → Runs (λ u w. IsComplete w) Untouched (deploy_all hre big) w₀
  unfolding deploy_all
  deploy_all-IsComplete big =
      let still : Untouched w₀ = λ n ne₁ ne₂. refl in
      Runs-reads _ still λ i e. Runs-reads _ still λ config e.
        Runs-then (λ u w. Stage hre (get_deployment_filename id) w₀ complete w)
          (Runs-weaken _ _ _ Untouched (deploy_phase1-Stage hre laws w₀ id chain big) (λ u w s. s)
            Interrupted-Untouched)
          λ u w (d, r). phase2-IsComplete big d w r
