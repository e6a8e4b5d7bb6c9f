-- ===== src/Deploy/Phase1/Implementations.antt =====
-- 2_deploy_implementations.ts: what it fills in, and what its interruption leaves.
use reserve_protocol.Base.{String, ◌≡◌, refl, List, ◌∷◌, All}
use reserve_protocol.Deploy.Store.{IDeployments}
use reserve_protocol.Deploy.Phase1.{
  ComponentKey, asset_registry, backing_manager, basket_handler, broker, distributor, furnace,
  rsr_trader, rtoken_trader, rtoken, st_rsr, set_main, set_trade, set_implementation,
  write_component_deployment, deploy_component, deploy_main, deploy_trade, deploy_traders,
  deploy_all_implementations,
}
use reserve_protocol.Deploy.Phase1.Progress.{
  Getter, Reached, Interrupted, deploy_then_save, deploy_only, save-Reached,
}
use reserve_protocol.Deploy.Phase1.Getters.{
  component_at, with_libraries, with_main, with_trade, with_asset_registry, with_backing_manager,
  with_basket_handler, with_broker, with_distributor, with_furnace, with_traders, with_rtoken,
  with_implementations,
}
use reserve_protocol.Chain.{Creation, Hardhat, IsHardhat, World}
use reserve_protocol.Chain.Outcome.{Runs, Runs-bind}
use reserve_protocol.Deploy.Guards.Valid.{IsDeployedAt}

module _ (hre : Hardhat) (laws : IsHardhat hre) (name : String) (w₀ : World hre.Chain) where
  -- The revenue trader is deployed once and set twice.
  traders-Reached :
      (d : IDeployments) (w : World hre.Chain)
      → Reached hre name w₀ with_furnace d w
      → Runs
          (Reached hre name w₀ with_traders)
          (Interrupted hre name w₀)
          (deploy_traders hre name d)
          w
  unfolding deploy_traders write_component_deployment
  traders-Reached d w r =
      Runs-bind _ (deploy_only hre laws name w₀ with_furnace _ d w r) λ a w' (h, r').
        let at : IsDeployedAt hre w' a = (h.named, h.live) in
        let d₁ = set_implementation rsr_trader a d in
        Runs-bind _
          (save-Reached hre laws name w₀ with_furnace
            ((λ x. a) ∷ component_at rsr_trader ∷ with_furnace) d d₁ w' r' (at, (at, r'.filled)))
          λ d₂ w'' r''.
            save-Reached hre laws name w₀ ((λ x. a) ∷ component_at rsr_trader ∷ with_furnace)
              with_traders d₂ (set_implementation rtoken_trader a d₂) w'' r'' r''.filled

  component-Reached :
      (gs : List Getter) (g : Getter) (key : ComponentKey) (c : Creation) {d : IDeployments}
      {w : World hre.Chain}
      → ((a : String) (d : IDeployments) → g (set_implementation key a d) ≡ a)
      → ((P : String → Type 0) (a : String) (d : IDeployments)
          → All (λ h. P (h d)) gs
          → All (λ h. P (h (set_implementation key a d))) gs)
      → Reached hre name w₀ gs d w
      → Runs
          (Reached hre name w₀ (g ∷ gs))
          (Interrupted hre name w₀)
          (deploy_component hre name key c d)
          w
  unfolding deploy_component write_component_deployment
  component-Reached gs g key c sets keeps r =
      deploy_then_save hre laws name w₀ gs g (set_implementation key) c (λ a. sets a _)
        (λ P a. keeps P a _) r

  -- On a chain that meets the documented laws, the eleven deployments in order, started from a file
  -- whose prerequisites and libraries are deployed: at the end every implementation address in the
  -- file is deployed as well, and a throw leaves a whole object in the file and no other file
  -- touched.
  pub deploy_all_implementations-Reached :
      (d : IDeployments) (w : World hre.Chain)
      → Reached hre name w₀ with_libraries d w
      → Runs
          (Reached hre name w₀ with_implementations)
          (Interrupted hre name w₀)
          (deploy_all_implementations hre name d)
          w
  unfolding deploy_all_implementations deploy_main deploy_trade
  deploy_all_implementations-Reached d w r =
      Runs-bind _
        (deploy_then_save hre laws name w₀ with_libraries (λ x. x.implementations.main) set_main _
          (λ a. refl) (λ P a h. h) r)
        λ d w r.
          Runs-bind _
            (deploy_then_save hre laws name w₀ with_main (λ x. x.implementations.trade) set_trade _
              (λ a. refl) (λ P a h. h) r)
            λ d w r.
              Runs-bind _
                (component-Reached with_trade (component_at asset_registry) asset_registry _
                  (λ a d. refl) (λ P a d h. h) r)
                λ d w r.
                  Runs-bind _
                    (component-Reached with_asset_registry (component_at backing_manager)
                      backing_manager _ (λ a d. refl) (λ P a d h. h) r)
                    λ d w r.
                      Runs-bind _
                        (component-Reached with_backing_manager (component_at basket_handler)
                          basket_handler _ (λ a d. refl) (λ P a d h. h) r)
                        λ d w r.
                          Runs-bind _
                            (component-Reached with_basket_handler (component_at broker) broker _
                              (λ a d. refl) (λ P a d h. h) r)
                            λ d w r.
                              Runs-bind _
                                (component-Reached with_broker (component_at distributor)
                                  distributor _ (λ a d. refl) (λ P a d h. h) r)
                                λ d w r.
                                  Runs-bind _
                                    (component-Reached with_distributor (component_at furnace)
                                      furnace _ (λ a d. refl) (λ P a d h. h) r)
                                    λ d w r. Runs-bind _ (traders-Reached d w r) λ d w r.
                                      Runs-bind _
                                        (component-Reached with_traders (component_at rtoken) rtoken
                                          _ (λ a d. refl) (λ P a d h. h) r)
                                        λ d w r.
                                          component-Reached with_rtoken (component_at st_rsr) st_rsr
                                            _ (λ a d. refl) (λ P a d h. h) r
