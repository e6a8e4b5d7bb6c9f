-- ===== src/Deploy/Full/Onward.antt =====
-- What the first two scripts of phase 2 leave of the state that phase 1 made.
use text.Mathlib.TextLemmas.{append_cancel_left}
use reserve_protocol.Base.{String, ◌≡◌, ◌≢◌, sym, subst, [], arith}
use reserve_protocol.BigNumber.{BigNumbers}
use reserve_protocol.Errors.{ok, >>=-eq-ok}
use reserve_protocol.Deploy.Store.{
  File, path_to_folder, temp_file_suffix, temp_asset_coll_file_suffix, asset_coll,
  get_deployment_filename, get_asset_coll_deployment_filename,
}
use reserve_protocol.Deploy.Guards.{get_chain_id}
use reserve_protocol.Deploy.Tasks.{deploy_asset, deploy_with}
use reserve_protocol.Deploy.Phase2.{
  Context, set_asset, prepare_asset_coll, setup_asset_coll, open_asset_coll,
}
use reserve_protocol.Deploy.Phase2.Collateral.{deploy_assets, deploy_asset_of}
use reserve_protocol.Deploy.Phase2.Progress.{Onward, Onward-trans, IsDeployed-Onward, write-Onward}
use reserve_protocol.Deploy.Phase2.Collected.{opened_file}
use reserve_protocol.Chain.{Creation, Hardhat, IsHardhat, World, Script, deploy, write_file}
use reserve_protocol.Chain.Outcome.{
  Runs, Runs-bind, Runs-reads, Runs-check, Runs-weaken, IsDeployed, deploy-IsDeployed,
}

-- The two files of a chain differ.
pub filenames_ne :
    (id : String) → get_asset_coll_deployment_filename id ≢ get_deployment_filename id
unfolding get_deployment_filename get_asset_coll_deployment_filename
filenames_ne id e =
    let tails : temp_asset_coll_file_suffix ≡ temp_file_suffix =
      append_cancel_left id _ _ (append_cancel_left path_to_folder _ _ e) in
    cc

module _ (hre : Hardhat) (laws : IsHardhat hre) (file : String) (b : World hre.Chain) where
  -- A script that touches no file but the named one, whether it ends or throws.
  abbrev pub Moves : {A : Type 0} → Script hre.Chain A → World hre.Chain → Type 0
  Moves m w = Runs (λ a w'. Onward hre file b w') (Onward hre file b) m w

  deploy-Moves : (c : Creation) {w : World hre.Chain} → Onward hre file b w → Moves (deploy hre c) w
  deploy-Moves c {w} o =
      Runs-weaken (IsDeployed hre w) _ (λ w'. w' ≡ w) _ (deploy-IsDeployed hre laws c w)
        (λ a w' h. Onward-trans hre file b w w' o (IsDeployed-Onward hre file w w' a h))
        (λ w' e. subst (Onward hre file b) (sym e) o)

  write-Moves : (f : File) {w : World hre.Chain} → Onward hre file b w → Moves (write_file file f) w
  unfolding write_file
  write-Moves f {w} o = record {
    outcome = Onward-trans hre file b w _ o (write-Onward hre file w f);
  }

  deploy_asset_of-Moves :
      (big : BigNumbers) (c : Context) (feed symbol : String) {w : World hre.Chain}
      → Onward hre file b w
      → Moves (deploy_asset_of hre big c feed symbol) w
  unfolding deploy_asset_of deploy_asset deploy_with
  deploy_asset_of-Moves big c feed symbol o =
      Runs-reads _ o λ p e. Runs-check _ o λ id e. deploy-Moves _ o

module _ (hre : Hardhat) (laws : IsHardhat hre) (b : World hre.Chain) (id : String) where
  abbrev file : String
  file = get_asset_coll_deployment_filename id

  setup_named :
      (w : World hre.Chain) (n : String)
      → get_chain_id hre w ≡ ok id
      → prepare_asset_coll hre w ≡ ok n
      → n ≡ file
  unfolding prepare_asset_coll
  setup_named w n chain h = let (i, e, h₁) = >>=-eq-ok (get_chain_id hre w) _ h in ground arith

  pub setup_asset_coll-Moves :
      {w : World hre.Chain}
      → get_chain_id hre w ≡ ok id
      → Onward hre file b w
      → Moves hre laws file b (setup_asset_coll hre) w
  unfolding setup_asset_coll
  setup_asset_coll-Moves {w} chain o = Runs-reads (prepare_asset_coll hre) o λ n e.
      subst
        (λ (n : String).
          Moves hre laws file b
            (write_file n (asset_coll (record { assets = []; collateral = [] }))) w)
        (sym (setup_named w n chain e)) (write-Moves hre laws file b _ o)

  pub deploy_assets-Moves :
      (big : BigNumbers) {w : World hre.Chain}
      → get_chain_id hre w ≡ ok id
      → Onward hre file b w
      → Moves hre laws file b (deploy_assets hre big) w
  unfolding deploy_assets
  deploy_assets-Moves big {w} chain o = Runs-reads (open_asset_coll hre) o λ p e.
      Runs-bind _ (deploy_asset_of-Moves hre laws file b big p.0 "AAVE" "stkAAVE" o) λ stk w₁ o₁.
        Runs-bind _ (deploy_asset_of-Moves hre laws file b big p.0 "COMP" "COMP" o₁) λ comp w₂ o₂.
          subst
            (λ (n : String).
              Moves hre laws file b
                (write_file n (asset_coll (set_asset "COMP" comp (set_asset "stkAAVE" stk p.1))))
                w₂)
            (sym (opened_file hre w id chain p e).0) (write-Moves hre laws file b _ o₂)
