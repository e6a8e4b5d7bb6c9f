-- ===== src/Deploy/Full/Again.antt =====
-- scripts/deploy.ts is run once on a chain: the files that it left are not written over.
use reserve_protocol.Base.{◌≡◌, sym, ◌∙◌, ap, some, true, inl, inr, String}
use reserve_protocol.BigNumber.{BigNumbers}
use reserve_protocol.Errors.{Error, ok, err, Result-cases}
use reserve_protocol.Config.{get_network_config}
use reserve_protocol.Config.Networks.{INetworkConfig}
use reserve_protocol.Base.Text.{lookup}
use reserve_protocol.Deploy.Store.{IDeployments, deployments, get_deployment_filename, file_exists}
use reserve_protocol.Deploy.Guards.{get_chain_id}
use reserve_protocol.Deploy.Phase1.{deploy_phase1}
use reserve_protocol.Deploy.Phase1.Setup.{setup_deployments-kept}
use reserve_protocol.Deploy.Full.{deploy_all}
use reserve_protocol.Deploy.Full.Complete.{deploy_all-IsComplete, IsComplete}
use reserve_protocol.Chain.{Hardhat, IsHardhat, World}
use reserve_protocol.Chain.Outcome.{Runs-ok}
use reserve_protocol.Chain.Steps.{reads-step, reads-throw, >>-throw}

module _ (hre : Hardhat) (laws : IsHardhat hre) (big : BigNumbers) (w₀ w : World hre.Chain)
    (id : String) (chain : get_chain_id hre w₀ ≡ ok id)
    (ended : deploy_all hre big w₀ ≡ (ok tt, w)) where
  -- The script ends on a chain with a configuration only.
  pub deploy_all-configured : (network : INetworkConfig) × (get_network_config id ≡ ok network)
  unfolding deploy_all
  deploy_all-configured = elim (Result-cases (get_network_config id)) [
    | inl (e, unknown) ↦
        let threw =
          reads-step (get_chain_id hre) _ w₀ chain
          ∙ reads-throw (λ v. get_network_config id) _ w₀ unknown in
        absurd (let q = sym (ap (λ r. r.0) threw) ∙ ap (λ r. r.0) ended in cc)
    | inr known ↦ known
  ]

  -- What the run left, see `IsComplete`.
  pub deploy_all-left : IsComplete hre laws w₀ id chain w
  deploy_all-left =
      Runs-ok (λ u v. IsComplete hre laws w₀ id chain v)
        (deploy_all-IsComplete hre laws w₀ id chain big) ended

  file_there :
      (name : String) (d : IDeployments)
      → lookup name w.files ≡ some (deployments d)
      → file_exists name w.files ≡ true
  unfolding file_exists
  file_there name d h = rw h

  phase1_refused :
      deploy_phase1 hre big w ≡ (err (Error.file_exists_already (get_deployment_filename id)), w)
  unfolding deploy_phase1
  phase1_refused =
      let (network, known) = deploy_all-configured in
      >>-throw _ _ w (
        setup_deployments-kept hre w id deploy_all-left.same_chain network known
          (file_there _ deploy_all-left.first deploy_all-left.written))

  -- If the chain id of the start is known, the chain meets the documented laws and scripts/deploy.ts
  -- ends, then a second run from the state that it left throws that the deployment file of the chain
  -- exists, and changes nothing.
  pub deploy_all-again :
      deploy_all hre big w ≡ (err (Error.file_exists_already (get_deployment_filename id)), w)
  unfolding deploy_all
  deploy_all-again =
      let (network, known) = deploy_all-configured in
      reads-step (get_chain_id hre) _ w deploy_all-left.same_chain
      ∙ reads-step (λ v. get_network_config id) _ w known
      ∙ >>-throw _ _ w phase1_refused
