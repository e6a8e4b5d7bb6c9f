-- ===== src/Deploy/Phase3/Sent.antt =====
-- The two transactions of phase 3: what was tested before they are sent, what a throw leaves, and
-- what the file holds at the end.
use reserve_protocol.Base.{String, ◌≡◌, refl, sym, ◌∙◌, ap, subst, ◌⊎◌, inl, inr, some, Option}
use reserve_protocol.Base.Text.{insert}
use reserve_protocol.BigNumber.{BigNumbers}
use reserve_protocol.Errors.{ok, or_throw-eq-ok, >>=-eq-ok, ok-injective}
use reserve_protocol.Deploy.Store.{rtoken}
use reserve_protocol.Deploy.Phase3.{RTokenRun, GovernanceRun, prepare_rtoken, prepare_governance}
use reserve_protocol.Deploy.Phase3.Scripts.{
  RTokenAddresses, record_rtoken, record_governance, to_asset, read_rtoken, created_main,
  created_governance, send_rtoken, deploy_rtoken, send_governance, deploy_governance,
}
use reserve_protocol.Events.{ContractReceipt}
use reserve_protocol.Chain.{Hardhat, World, write_file, call_text}
use reserve_protocol.Chain.Calls.{Contracts}
use reserve_protocol.Chain.Sent.{transact-sent}
use reserve_protocol.Chain.Outcome.{Runs, Runs-bind, Runs-reads, Runs-weaken}

module _ (hre : Hardhat) (contracts : Contracts hre) (big : BigNumbers) where
  -- The addresses are what Main and the registry of the chain answer.
  pub record IsAnswered (c : hre.Chain) (a : RTokenAddresses) : Type 0 where
    pub rtoken : hre.call_text c a.main "rToken" ≡ some a.components.rtoken
    pub asset_registry : hre.call_text c a.main "assetRegistry" ≡ some a.components.asset_registry
    pub rtoken_asset :
        contracts.to_asset c a.components.asset_registry a.components.rtoken ≡ some a.rtoken_asset
    pub backing_manager :
        hre.call_text c a.main "backingManager" ≡ some a.components.backing_manager
    pub basket_handler : hre.call_text c a.main "basketHandler" ≡ some a.components.basket_handler
    pub broker : hre.call_text c a.main "broker" ≡ some a.components.broker
    pub distributor : hre.call_text c a.main "distributor" ≡ some a.components.distributor
    pub furnace : hre.call_text c a.main "furnace" ≡ some a.components.furnace
    pub rtoken_trader : hre.call_text c a.main "rTokenTrader" ≡ some a.components.rtoken_trader
    pub rsr_trader : hre.call_text c a.main "rsrTrader" ≡ some a.components.rsr_trader
    pub st_rsr : hre.call_text c a.main "stRSR" ≡ some a.components.st_rsr

  read_rtoken-IsAnswered :
      (main : String) (w : World hre.Chain) (a : RTokenAddresses)
      → read_rtoken hre contracts main w ≡ ok a
      → (a.main ≡ main) × IsAnswered w.chain a
  unfolding read_rtoken call_text to_asset
  read_rtoken-IsAnswered main w a h =
      let (token, e₁, h) = >>=-eq-ok (call_text hre main "rToken" w) _ h in
      let (registry, e₂, h) = >>=-eq-ok (call_text hre main "assetRegistry" w) _ h in
      let (asset, e₃, h) = >>=-eq-ok (to_asset hre contracts registry token w) _ h in
      let (backing, e₄, h) = >>=-eq-ok (call_text hre main "backingManager" w) _ h in
      let (basket, e₅, h) = >>=-eq-ok (call_text hre main "basketHandler" w) _ h in
      let (broker, e₆, h) = >>=-eq-ok (call_text hre main "broker" w) _ h in
      let (distributor, e₇, h) = >>=-eq-ok (call_text hre main "distributor" w) _ h in
      let (furnace, e₈, h) = >>=-eq-ok (call_text hre main "furnace" w) _ h in
      let (rtoken_trader, e₉, h) = >>=-eq-ok (call_text hre main "rTokenTrader" w) _ h in
      let (rsr_trader, e₁₀, h) = >>=-eq-ok (call_text hre main "rsrTrader" w) _ h in
      let (st_rsr, e₁₁, h) = >>=-eq-ok (call_text hre main "stRSR" w) _ h in
      subst (λ (a : RTokenAddresses). (a.main ≡ main) × IsAnswered w.chain a) (ok-injective h)
        (
          refl,
          record {
            rtoken = or_throw-eq-ok _ _ e₁;
            asset_registry = or_throw-eq-ok _ _ e₂;
            rtoken_asset = or_throw-eq-ok _ _ e₃;
            backing_manager = or_throw-eq-ok _ _ e₄;
            basket_handler = or_throw-eq-ok _ _ e₅;
            broker = or_throw-eq-ok _ _ e₆;
            distributor = or_throw-eq-ok _ _ e₇;
            furnace = or_throw-eq-ok _ _ e₈;
            rtoken_trader = or_throw-eq-ok _ _ e₉;
            rsr_trader = or_throw-eq-ok _ _ e₁₀;
            st_rsr = or_throw-eq-ok _ _ e₁₁;
          },
        )

  module _ (w : World hre.Chain) where
    -- What the transaction of a run does to the chain.
    abbrev pub rtoken_sent :
        RTokenRun → Option (ContractReceipt contracts.chai.Value contracts.Log) × hre.Chain
    rtoken_sent run =
        contracts.deploy_rtoken run.deployments.facade_write run.config run.setup w.chain

    -- The end of 1_deploy_rtoken.ts: one transaction was sent after the tests, and the file of the
    -- RToken holds what the chain answers after it, for the Main of the transaction's event.
    pub record IsRecorded (w' : World hre.Chain) : Type 0 where
      pub run : RTokenRun
      pub tested : prepare_rtoken hre big w ≡ ok run
      pub receipt : ContractReceipt contracts.chai.Value contracts.Log
      pub sent : rtoken_sent run ≡ (some receipt, w'.chain)
      pub addresses : RTokenAddresses
      pub created : created_main hre contracts receipt ≡ ok addresses.main
      pub answered : IsAnswered w'.chain addresses
      pub files :
          w'.files ≡ insert run.file (rtoken (record_rtoken addresses run.deployments)) w.files

    -- What a throw leaves: nothing has changed, or the tests were passed and the transaction sent,
    -- and no file has changed.
    abbrev pub IsUnrecorded : World hre.Chain → Type 0
    IsUnrecorded w' =
        (w' ≡ w)
        ⊎ (run : RTokenRun) × (prepare_rtoken hre big w ≡ ok run)
          × (w'.chain ≡ (rtoken_sent run).1)
          × (w'.files ≡ w.files)

    send_rtoken-IsRecorded :
        (run : RTokenRun)
        → prepare_rtoken hre big w ≡ ok run
        → Runs (λ u w'. IsRecorded w') IsUnrecorded (send_rtoken hre contracts run) w
    unfolding send_rtoken write_file
    send_rtoken-IsRecorded run tested =
        Runs-bind (λ r w'. (rtoken_sent run ≡ (some r, w'.chain)) × (w'.files ≡ w.files))
          (Runs-weaken _ _ _ IsUnrecorded (transact-sent hre _ _ w) (λ r w' h. h)
            (λ w' h. inr (run, tested, h.0, h.1)))
          λ receipt w' (sent, same).
            let threw = inr (run, tested, sym (ap (λ p. p.1) sent), same) in
            Runs-reads _ threw λ main created.
              Runs-reads (read_rtoken hre contracts main) threw λ a read.
                let (this, answered) = read_rtoken-IsAnswered main w' a read in
                record {
                  outcome = record {
                    run = run;
                    tested = tested;
                    receipt = receipt;
                    sent = sent;
                    addresses = a;
                    created = created ∙ ap ok (sym this);
                    answered = answered;
                    files = ap (insert run.file (rtoken (record_rtoken a run.deployments))) same;
                  };
                }

    -- 1_deploy_rtoken.ts sends its transaction only after the tests of the assets and the
    -- collateral. If it ends, the file of the RToken, and no other, holds what the chain answers
    -- for the Main that the transaction's event names. If it throws, no file has changed, and the
    -- chain by the transaction at most.
    pub deploy_rtoken-IsRecorded :
        Runs (λ u w'. IsRecorded w') IsUnrecorded (deploy_rtoken hre contracts big) w
    unfolding deploy_rtoken
    deploy_rtoken-IsRecorded =
        Runs-reads _ (inl refl)
          λ run tested. Runs-reads _ (inl refl) λ deployer e. send_rtoken-IsRecorded run tested

    abbrev pub governance_sent :
        GovernanceRun → Option (ContractReceipt contracts.chai.Value contracts.Log) × hre.Chain
    governance_sent run = contracts.setup_governance run.deployments.facade_write run.setup w.chain

    -- The same for 2_deploy_governance.ts, with the two addresses of its event.
    pub record IsGoverned (w' : World hre.Chain) : Type 0 where
      pub run : GovernanceRun
      pub tested : prepare_governance hre big w ≡ ok run
      pub receipt : ContractReceipt contracts.chai.Value contracts.Log
      pub sent : governance_sent run ≡ (some receipt, w'.chain)
      pub governance : String
      pub created : created_governance hre contracts "governance" receipt ≡ ok governance
      pub timelock : String
      pub created_timelock : created_governance hre contracts "timelock" receipt ≡ ok timelock
      pub files :
          w'.files
          ≡ insert run.file (rtoken (record_governance governance timelock run.deployments)) w.files

    abbrev pub IsUngoverned : World hre.Chain → Type 0
    IsUngoverned w' =
        (w' ≡ w)
        ⊎ (run : GovernanceRun) × (prepare_governance hre big w ≡ ok run)
          × (w'.chain ≡ (governance_sent run).1)
          × (w'.files ≡ w.files)

    -- 2_deploy_governance.ts sends its transaction only after its tests. If it ends, the file of the
    -- RToken, and no other, has the two addresses of the transaction's event. If it throws, no file
    -- has changed, and the chain by the transaction at most.
    pub deploy_governance-IsGoverned :
        Runs (λ u w'. IsGoverned w') IsUngoverned (deploy_governance hre contracts big) w
    unfolding deploy_governance send_governance write_file
    deploy_governance-IsGoverned = Runs-reads _ (inl refl) λ run tested.
        Runs-bind (λ r w'. (governance_sent run ≡ (some r, w'.chain)) × (w'.files ≡ w.files))
          (Runs-weaken _ _ _ IsUngoverned (transact-sent hre _ _ w) (λ r w' h. h)
            (λ w' h. inr (run, tested, h.0, h.1)))
          λ receipt w' (sent, same).
            let threw = inr (run, tested, sym (ap (λ p. p.1) sent), same) in
            Runs-reads _ threw λ governance created. Runs-reads _ threw λ timelock created_timelock.
              record {
                outcome = record {
                  run = run;
                  tested = tested;
                  receipt = receipt;
                  sent = sent;
                  governance = governance;
                  created = created;
                  timelock = timelock;
                  created_timelock = created_timelock;
                  files =
                      ap
                        (insert run.file
                          (rtoken (record_governance governance timelock run.deployments)))
                        same;
                };
              }
