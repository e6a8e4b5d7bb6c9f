-- ===== src/Deploy/Phase1/Scripts.antt =====
-- What each script of phase 1 adds to the deployment file that it opens.
use reserve_protocol.Base.{String, ◌≡◌, sym, subst, some}
use reserve_protocol.Base.Text.{lookup}
use reserve_protocol.BigNumber.{BigNumbers}
use reserve_protocol.Errors.{ok}
use reserve_protocol.Deploy.Store.{IDeployments, deployments, get_deployment_filename}
use reserve_protocol.Deploy.Guards.{get_chain_id}
use reserve_protocol.Deploy.Guards.{validate_prerequisites, validate_implementations}
use reserve_protocol.Deploy.Guards.Valid.{validate_prerequisites_iff, validate_implementations_iff}
use reserve_protocol.Deploy.Tasks.{deploy_asset, deploy_with}
use reserve_protocol.Deploy.Prepare.{prepare_rsr_asset}
use reserve_protocol.Deploy.Phase1.{
  deploy_libraries, deploy_implementations, deploy_rsr_asset, deploy_facade, deploy_deployer,
  deploy_facade_write, deploy_facade_act,
}
use reserve_protocol.Deploy.Phase1.Progress.{
  Reached, Interrupted, interrupt, Stage, deploy_more, write-Stage,
}
use reserve_protocol.Deploy.Phase1.Getters.{
  with_prerequisites, with_libraries, with_implementations, with_asset, with_facade, with_deployer,
  with_facade_write, complete,
}
use reserve_protocol.Deploy.Phase1.Implementations.{deploy_all_implementations-Reached}
use reserve_protocol.Deploy.Phase1.Opening.{
  Runs-opened, opened-eq, libraries_open, implementations_open, after_asset_open, deployer_open,
  rsr_asset_open,
}
use reserve_protocol.Chain.{Hardhat, IsHardhat, World, ◌>>=◌, write_file}
use reserve_protocol.Chain.Outcome.{Runs, Runs-bind, Runs-reads, Runs-check, Runs-weaken}

module _ (hre : Hardhat) (laws : IsHardhat hre) (w₀ : World hre.Chain) (id : String)
    (chain : get_chain_id hre w₀ ≡ ok id) where
  abbrev name : String
  name = get_deployment_filename id

  pub libraries-Stage :
      {d : IDeployments} {w : World hre.Chain}
      → Reached hre name w₀ with_prerequisites d w
      → Runs
          (λ u w'. Stage hre name w₀ with_libraries w')
          (Interrupted hre name w₀)
          (deploy_libraries hre)
          w
  unfolding deploy_libraries
  libraries-Stage {d} {w} r =
      Runs-opened hre w₀ id chain _ _ with_prerequisites (libraries_open hre w) r (
        Runs-bind _ (deploy_more hre laws name w₀ _ _ r) λ trading w r.
          Runs-bind _ (deploy_more hre laws name w₀ _ _ r) λ rewardable w r.
            Runs-bind _ (deploy_more hre laws name w₀ _ _ r) λ permit w r.
              Runs-bind _ (deploy_more hre laws name w₀ _ _ r)
                λ oracle w r. write-Stage hre laws name w₀ _ with_libraries d _ r r.filled)

  pub implementations-Stage :
      {d : IDeployments} {w : World hre.Chain}
      → Reached hre name w₀ with_libraries d w
      → Runs
          (Reached hre name w₀ with_implementations)
          (Interrupted hre name w₀)
          (deploy_implementations hre)
          w
  unfolding deploy_implementations
  implementations-Stage {d} {w} r =
      Runs-opened hre w₀ id chain _ _ with_libraries (implementations_open hre w) r
        (deploy_all_implementations-Reached hre laws name w₀ d w r)

  pub rsr_asset-Stage :
      (big : BigNumbers) {d : IDeployments} {w : World hre.Chain}
      → Reached hre name w₀ with_implementations d w
      → Runs
          (λ u w'. Stage hre name w₀ with_asset w')
          (Interrupted hre name w₀)
          (deploy_rsr_asset hre big)
          w
  unfolding deploy_rsr_asset deploy_asset deploy_with
  rsr_asset-Stage big {d} {w} r =
      Runs-reads (prepare_rsr_asset hre big) (interrupt hre name w₀ with_implementations d w r)
        λ p e.
          subst
            (λ q.
              Runs (λ u w'. Stage hre name w₀ with_asset w') (Interrupted hre name w₀)
                (deploy_asset hre p.2 >>= λ a.
                  write_file q.0 (deployments (record (q.1) { rsr_asset = a })))
                w)
            (sym
              (opened-eq hre w₀ id chain with_implementations d w r (rsr_asset_open hre big w e)))
            (Runs-bind _
              (Runs-check _ (interrupt hre name w₀ with_implementations d w r)
                λ c e. deploy_more hre laws name w₀ _ _ r)
              λ a w r. write-Stage hre laws name w₀ _ with_asset d _ r r.filled)

  pub facade-Stage :
      {d : IDeployments} {w : World hre.Chain}
      → Reached hre name w₀ with_asset d w
      → Runs
          (λ u w'. Stage hre name w₀ with_facade w')
          (Interrupted hre name w₀)
          (deploy_facade hre)
          w
  unfolding deploy_facade
  facade-Stage {d} {w} r = Runs-opened hre w₀ id chain _ _ with_asset (after_asset_open hre w) r (
      Runs-bind _ (deploy_more hre laws name w₀ _ _ r)
        λ a w r. write-Stage hre laws name w₀ _ with_facade d _ r r.filled)

  pub deployer-Stage :
      {d : IDeployments} {w : World hre.Chain}
      → Reached hre name w₀ with_facade d w
      → Runs
          (λ u w'. Stage hre name w₀ with_deployer w')
          (Interrupted hre name w₀)
          (deploy_deployer hre)
          w
  unfolding deploy_deployer
  deployer-Stage {d} {w} r = Runs-opened hre w₀ id chain _ _ with_facade (deployer_open hre w) r (
      Runs-bind _ (deploy_more hre laws name w₀ _ _ r)
        λ a w r. write-Stage hre laws name w₀ _ with_deployer d _ r r.filled)

  pub facade_write-Stage :
      {d : IDeployments} {w : World hre.Chain}
      → Reached hre name w₀ with_deployer d w
      → Runs
          (λ u w'. Stage hre name w₀ with_facade_write w')
          (Interrupted hre name w₀)
          (deploy_facade_write hre)
          w
  unfolding deploy_facade_write
  facade_write-Stage {d} {w} r =
      Runs-opened hre w₀ id chain _ _ with_deployer (after_asset_open hre w) r (
        Runs-bind _ (deploy_more hre laws name w₀ _ _ r) λ a1 w r.
          Runs-bind _ (deploy_more hre laws name w₀ _ _ r)
            λ a2 w r. write-Stage hre laws name w₀ _ with_facade_write d _ r r.filled)

  pub facade_act-Stage :
      {d : IDeployments} {w : World hre.Chain}
      → Reached hre name w₀ with_facade_write d w
      → Runs
          (λ u w'. Stage hre name w₀ complete w')
          (Interrupted hre name w₀)
          (deploy_facade_act hre)
          w
  unfolding deploy_facade_act
  facade_act-Stage {d} {w} r =
      Runs-opened hre w₀ id chain _ _ with_facade_write (after_asset_open hre w) r (
        Runs-bind _ (deploy_more hre laws name w₀ _ _ r)
          λ a w r. write-Stage hre laws name w₀ _ complete d _ r r.filled)

  -- Started from a file whose prerequisites and libraries are deployed,
  -- 2_deploy_implementations.ts either stops with a whole object in the file and no other file
  -- touched, or ends with an object that is in the file and that `validatePrerequisites` and
  -- `validateImplementations` accept.
  pub implementations-validated :
      {d : IDeployments} {w : World hre.Chain}
      → Reached hre name w₀ with_libraries d w
      → Runs
          (λ d' w'.
            (lookup name w'.files ≡ some (deployments d'))
            × (validate_prerequisites hre d' w' ≡ ok tt)
            × (validate_implementations hre d' w' ≡ ok tt))
          (Interrupted hre name w₀)
          (deploy_implementations hre)
          w
  implementations-validated r =
      Runs-weaken (Reached hre name w₀ with_implementations) _ (Interrupted hre name w₀) _
        (implementations-Stage r)
        (λ d' w' r'.
          let (
            st,
            (
              rt,
              (
                rtt,
                (
                  rsrt,
                  (fu, (di, (br, (bh, (bm, (ar, (tr, (ma, (_, (_, (_, (_, prerequisites)))))))))))),
                ),
              ),
            ),
          ) =
            r'.filled in
          (
            r'.written,
            (validate_prerequisites_iff hre w' d').1 prerequisites,
            (validate_implementations_iff hre w' d').1
                (ma, (tr, (ar, (bm, (bh, (br, (di, (fu, (rsrt, (rtt, (rt, (st, tt)))))))))))),
          ))
        (λ w' i. i)
