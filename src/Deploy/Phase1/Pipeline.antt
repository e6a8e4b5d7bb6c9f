-- ===== src/Deploy/Phase1/Pipeline.antt =====
-- The scripts of phase 1 one after the other, as scripts/deploy.ts runs them.
use reserve_protocol.Base.{String, ◌≡◌, ◌⊎◌, inl, inr}
use reserve_protocol.BigNumber.{BigNumbers}
use reserve_protocol.Errors.{ok}
use reserve_protocol.Deploy.Store.{get_deployment_filename}
use reserve_protocol.Deploy.Guards.{get_chain_id}
use reserve_protocol.Deploy.Phase1.{deploy_phase1}
use reserve_protocol.Deploy.Phase1.Progress.{Interrupted, Stage}
use reserve_protocol.Deploy.Phase1.Getters.{with_prerequisites, complete}
use reserve_protocol.Deploy.Phase1.Setup.{setup-Stage}
use reserve_protocol.Deploy.Phase1.Scripts.{
  libraries-Stage, implementations-Stage, rsr_asset-Stage, facade-Stage, deployer-Stage,
  facade_write-Stage, facade_act-Stage,
}
use reserve_protocol.Chain.{Hardhat, IsHardhat, World}
use reserve_protocol.Chain.Outcome.{Runs, Runs-bind, Runs-then, Runs-weaken}

module _ (hre : Hardhat) (laws : IsHardhat hre) (w₀ : World hre.Chain) (id : String)
    (chain : get_chain_id hre w₀ ≡ ok id) where
  abbrev name : String
  name = get_deployment_filename id

  -- On a chain that meets the documented laws and whose chain id is known, phase 1 either ends
  -- with a file of the chain in which all addresses belong to deployed contracts, or stops with
  -- the state unchanged or with a whole object in that file. In either case no other file is
  -- touched.
  pub deploy_phase1-Stage :
      (big : BigNumbers)
      → Runs
          (λ u w. Stage hre name w₀ complete w)
          (λ w. (w ≡ w₀) ⊎ Interrupted hre name w₀ w)
          (deploy_phase1 hre big)
          w₀
  unfolding deploy_phase1
  deploy_phase1-Stage big =
      Runs-then (λ u w. Stage hre name w₀ with_prerequisites w)
        (Runs-weaken _ _ _ _ (setup-Stage hre w₀ id chain) (λ u w s. s) (λ w. inl))
        λ u w (d, r).
          Runs-weaken (λ u w. Stage hre name w₀ complete w) _ (Interrupted hre name w₀) _
            (Runs-then _ (libraries-Stage hre laws w₀ id chain r) λ u w (d, r).
              Runs-bind _ (implementations-Stage hre laws w₀ id chain r) λ d w r.
                Runs-then _ (rsr_asset-Stage hre laws w₀ id chain big r) λ u w (d, r).
                  Runs-then _ (facade-Stage hre laws w₀ id chain r) λ u w (d, r).
                    Runs-then _ (deployer-Stage hre laws w₀ id chain r) λ u w (d, r).
                      Runs-then _ (facade_write-Stage hre laws w₀ id chain r)
                        λ u w (d, r). facade_act-Stage hre laws w₀ id chain r)
            (λ u w s. s) (λ w. inr)
