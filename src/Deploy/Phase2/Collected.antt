-- ===== src/Deploy/Phase2/Collected.antt =====
-- 2_deploy_collateral.ts from the opening of its file to its end.
use reserve_protocol.Base.{String, ◌≡◌, refl, ◌∙◌, ap, subst, ◌⊎◌, inl, inr, arith, not, some}
use reserve_protocol.Base.Text.{Dict, lookup}
use reserve_protocol.BigNumber.{BigNumbers}
use reserve_protocol.Errors.{Error, ok, >>=-eq-ok, ok-injective}
use reserve_protocol.Deploy.Store.{
  IAssetCollDeployments, asset_coll, File, get_deployment_filename,
  get_asset_coll_deployment_filename, get_deployment_file, file_exists, as_deployments,
  as_asset_coll,
}
use reserve_protocol.Config.{get_network_config}
use reserve_protocol.Deploy.Guards.{throw_if, get_chain_id}
use reserve_protocol.Deploy.Phase2.{Context, open_asset_coll}
use reserve_protocol.Deploy.Phase2.Collateral.{deploy_blocks, deploy_collateral}
use reserve_protocol.Deploy.Phase2.Progress.{Listed, Halted}
use reserve_protocol.Chain.{Hardhat, IsHardhat, World}
use reserve_protocol.Chain.Outcome.{Runs, Runs-reads, Runs-weaken}
use reserve_protocol.Deploy.Phase2.Listing.{all_symbols, blocks-Listed}

get_deployment_file-eq-ok :
    (name : String) (files : Dict File) {f : File}
    → get_deployment_file name files ≡ ok f
    → lookup name files ≡ some f
unfolding get_deployment_file
get_deployment_file-eq-ok name files h = ground arith

as_asset_coll-eq-ok :
    (f : File) {d : IAssetCollDeployments} → as_asset_coll f ≡ ok d → f ≡ asset_coll d
as_asset_coll-eq-ok f h = ground arith

module _ (hre : Hardhat) (w : World hre.Chain) (id : String)
    (chain : get_chain_id hre w ≡ ok id) where
  -- What the script opens is the file of its chain.
  pub opened_file :
      (p : Context × IAssetCollDeployments)
      → open_asset_coll hre w ≡ ok p
      → (p.0.file ≡ get_asset_coll_deployment_filename id)
        × (lookup p.0.file w.files ≡ some (asset_coll p.1))
  unfolding open_asset_coll
  opened_file p h =
      let (i, e₀, h₀) = >>=-eq-ok (get_chain_id hre w) _ h in
      let (config, e₁, h₁) = >>=-eq-ok (get_network_config i) _ h₀ in
      let (u, e₂, h₂) =
        >>=-eq-ok
          (throw_if (not (file_exists (get_deployment_filename i) w.files))
            (Error.file_missing (get_deployment_filename i)))
          _ h₁ in
      let (f, e₃, h₃) = >>=-eq-ok (get_deployment_file (get_deployment_filename i) w.files) _ h₂ in
      let (phase1, e₄, h₄) = >>=-eq-ok (as_deployments f) _ h₃ in
      let (g, e₅, h₅) =
        >>=-eq-ok (get_deployment_file (get_asset_coll_deployment_filename i) w.files) _ h₄ in
      let (d, e₆, h₆) = >>=-eq-ok (as_asset_coll g) _ h₅ in
      let same : i ≡ id = ground arith in
      let there : lookup (get_asset_coll_deployment_filename i) w.files ≡ some (asset_coll d) =
        get_deployment_file-eq-ok _ w.files e₅ ∙ ap some (as_asset_coll-eq-ok g e₆) in
      subst
        (λ (q : Context × IAssetCollDeployments).
          (q.0.file ≡ get_asset_coll_deployment_filename id)
          × (lookup q.0.file w.files ≡ some (asset_coll q.1)))
        (ok-injective h₆) (ap get_asset_coll_deployment_filename same, there)

  -- On a chain whose id is known, 2_deploy_collateral.ts either ends with a file that holds the
  -- addresses of all twenty symbols, each deployed, or stops with the state unchanged or with an
  -- object in the file. In either case no other file is touched.
  pub deploy_collateral-Listed :
      (laws : IsHardhat hre) (big : BigNumbers)
      → Runs
          (λ d w'.
            Listed hre (get_asset_coll_deployment_filename id) w all_symbols d w'
            × (lookup (get_asset_coll_deployment_filename id) w'.files ≡ some (asset_coll d)))
          (λ w'. (w' ≡ w) ⊎ Halted hre (get_asset_coll_deployment_filename id) w w')
          (deploy_collateral hre big)
          w
  unfolding deploy_collateral
  deploy_collateral-Listed laws big = Runs-reads (open_asset_coll hre) (inl refl) λ p e.
      let (named, there) = opened_file p e in
      subst
        (λ file.
          Runs
            (λ d w'.
              Listed hre file w all_symbols d w' × (lookup file w'.files ≡ some (asset_coll d)))
            (λ w'. (w' ≡ w) ⊎ Halted hre file w w') (deploy_blocks hre big p.0 p.1) w)
        named
        (Runs-weaken _ _ (Halted hre p.0.file w) _ (blocks-Listed hre laws big p.0 w there)
          (λ d w' l. l) (λ w' h. inr h))
