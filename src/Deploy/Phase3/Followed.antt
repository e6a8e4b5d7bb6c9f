-- ===== src/Deploy/Phase3/Followed.antt =====
-- 2_deploy_governance.ts after 1_deploy_rtoken.ts.
use reserve_protocol.Base.{String, ◌≡◌, ◌∙◌, ap, some, not, true}
use text.Mathlib.Text.{◌==◌ as str_eq}
use reserve_protocol.Base.Text.{lookup, insert}
use reserve_protocol.BigNumber.{BigNumbers, IsBigNumbers}
use reserve_protocol.Errors.{ok}
use reserve_protocol.Config.RToken.{IrToken, rtoken_name, get_rtoken_config}
use reserve_protocol.Config.Laws.{published}
use reserve_protocol.Deploy.Store.{
  IrTokenDeployments, rtoken, get_rtoken_deployment_filename, get_deployment_file,
}
use reserve_protocol.Deploy.Guards.{get_chain_id}
use reserve_protocol.Deploy.Guards.Valid.{IsDeployedAt}
use reserve_protocol.Deploy.Prepare.{zero_address}
use reserve_protocol.Deploy.Phase1.Progress.{lookup-insert_self}
use reserve_protocol.Deploy.Phase3.{GovernanceRun, open_rtoken_file, prepare_governance}
use reserve_protocol.Deploy.Phase3.Checks.{IsAgreed, check_main_iff}
use reserve_protocol.Deploy.Phase3.Prepared.{prepare_rtoken-IsPrepared}
use reserve_protocol.Deploy.Phase3.Scripts.{RTokenAddresses, record_rtoken}
use reserve_protocol.Deploy.Phase3.Sent.{IsRecorded}
use reserve_protocol.Deploy.Phase3.Started.{open_rtoken_config-ok}
use reserve_protocol.Chain.{Hardhat, World}
use reserve_protocol.Chain.Calls.{Contracts}

module _ (hre : Hardhat) (big : BigNumbers) (laws : IsBigNumbers big) (id : String) where
  -- The run of 2_deploy_governance.ts on an object of the file.
  abbrev pub governance_run : IrToken → IrTokenDeployments → GovernanceRun
  governance_run c d = record {
    file = get_rtoken_deployment_filename id rtoken_name;
    deployments = d;
    setup = record {
      rtoken = d.components.rtoken;
      deploy_governance = true;
      unpause = not (str_eq id "1");
      params = c.gov;
      owner = zero_address;
      guardian = zero_address;
      pauser = zero_address;
    };
  }

  read_rtoken_file :
      (w : World hre.Chain) (d : IrTokenDeployments)
      → lookup (get_rtoken_deployment_filename id rtoken_name) w.files ≡ some (rtoken d)
      → open_rtoken_file hre big id w ≡ ok d
  unfolding open_rtoken_file get_deployment_file
  read_rtoken_file w d h = rw h

  -- The tests pass where the file agrees with the chain.
  prepare_governance-ok :
      (w : World hre.Chain) (c : IrToken) (d : IrTokenDeployments)
      → get_chain_id hre w ≡ ok id
      → get_rtoken_config published id rtoken_name ≡ ok c
      → lookup (get_rtoken_deployment_filename id rtoken_name) w.files ≡ some (rtoken d)
      → IsAgreed hre d w
      → prepare_governance hre big w ≡ ok (governance_run c d)
  unfolding prepare_governance
  prepare_governance-ok w c d chain conf held agreed = rw (
    open_rtoken_config-ok hre big laws w id chain c conf,
    read_rtoken_file w d held,
    (check_main_iff hre big d w).1 agreed,
  )

  -- What the contracts of a new RToken do: Main, the RToken and StRSR have code, and the RToken
  -- names its Main.
  pub record IsRTokenOf (w : World hre.Chain) (a : RTokenAddresses) : Type 0 where
    pub main : IsDeployedAt hre w a.main
    pub rtoken : IsDeployedAt hre w a.components.rtoken
    pub st_rsr : IsDeployedAt hre w a.components.st_rsr
    pub main_of : hre.call_text w.chain a.components.rtoken "main" ≡ some a.main

  -- If 1_deploy_rtoken.ts has ended on a chain whose id and configuration are known, and the
  -- contracts that it recorded are those of one RToken, then the tests of 2_deploy_governance.ts
  -- pass, and it goes on with the addresses that were recorded.
  pub governance_follows :
      (contracts : Contracts hre) (w w' : World hre.Chain) (c : IrToken)
      (r : IsRecorded hre contracts big w w')
      → get_chain_id hre w ≡ ok id
      → get_chain_id hre w' ≡ ok id
      → get_rtoken_config published id rtoken_name ≡ ok c
      → IsRTokenOf w' r.addresses
      → prepare_governance hre big w'
        ≡ ok (governance_run c (record_rtoken r.addresses r.run.deployments))
  governance_follows contracts w w' c r chain chain' conf own =
      let p = prepare_rtoken-IsPrepared hre big laws w id chain r.run r.tested in
      let d = record_rtoken r.addresses r.run.deployments in
      let written : lookup (get_rtoken_deployment_filename id rtoken_name) w'.files
          ≡ some (rtoken d) =
        ap (lookup (get_rtoken_deployment_filename id rtoken_name)) r.files
        ∙ ap
            (λ n.
              lookup (get_rtoken_deployment_filename id rtoken_name) (insert n (rtoken d) w.files))
            p.file
        ∙ lookup-insert_self hre (get_rtoken_deployment_filename id rtoken_name) (rtoken d)
            w.files in
      prepare_governance-ok w' c d chain' conf written (record {
        main = own.main;
        rtoken = own.rtoken;
        st_rsr = own.st_rsr;
        main_of = own.main_of;
        st_rsr_of = r.answered.st_rsr;
      })
