-- ===== src/Deploy/Phase2/Setup.antt =====
-- phase2-assets/0_setup_deployments.ts: it needs the file of phase 1 and starts its own file once.
use reserve_protocol.Base.{◌≡◌, sym, ◌∙◌, ap, true, false, ◌↔◌, inl, inr, [], arith, String}
use reserve_protocol.Base.Text.{insert}
use reserve_protocol.Errors.{Error, ok, err, ok-injective, >>=-eq-ok, Result-cases}
use reserve_protocol.Config.{get_network_config}
use reserve_protocol.Config.Networks.{INetworkConfig}
use reserve_protocol.Deploy.Store.{
  asset_coll, get_deployment_filename, get_asset_coll_deployment_filename, file_exists,
}
use reserve_protocol.Deploy.Guards.{get_chain_id}
use reserve_protocol.Deploy.Phase2.{prepare_asset_coll, setup_asset_coll}
use reserve_protocol.Chain.{Hardhat, World, write_file}
use reserve_protocol.Chain.Steps.{reads-step, reads-throw}

module _ (hre : Hardhat) (w : World hre.Chain) (id : String)
    (chain : get_chain_id hre w ≡ ok id) where
  -- The state with an empty file of assets and collateral.
  abbrev pub with_empty_list : World hre.Chain
  with_empty_list = record w {
    files =
        insert (get_asset_coll_deployment_filename id)
          (asset_coll (record { assets = []; collateral = [] })) w.files;
  }

  -- The chain has a configuration, the file of phase 1 is there, and the other file is not.
  pub record IsReady : Type 0 where
    pub network : INetworkConfig
    pub configured : get_network_config id ≡ ok network
    pub first : file_exists (get_deployment_filename id) w.files ≡ true
    pub absent : file_exists (get_asset_coll_deployment_filename id) w.files ≡ false

  prepare_asset_coll-IsReady :
      (name : String)
      → prepare_asset_coll hre w ≡ ok name
      → IsReady × (name ≡ get_asset_coll_deployment_filename id)
  unfolding prepare_asset_coll
  prepare_asset_coll-IsReady name h =
      let (i, e₀, h) = >>=-eq-ok (get_chain_id hre w) _ h in
      let same : i ≡ id = ok-injective (sym e₀ ∙ chain) in
      let (network, e₁, h) = >>=-eq-ok (get_network_config i) _ h in
      let first : file_exists (get_deployment_filename i) w.files ≡ true = ground arith in
      let absent : file_exists (get_asset_coll_deployment_filename i) w.files ≡ false =
        ground arith in
      let named : name ≡ get_asset_coll_deployment_filename i = ground arith in
      (
        record {
          network = network;
          configured = ap get_network_config (sym same) ∙ e₁;
          first = ap (λ i. file_exists (get_deployment_filename i) w.files) (sym same) ∙ first;
          absent =
              ap (λ i. file_exists (get_asset_coll_deployment_filename i) w.files) (sym same)
              ∙ absent;
        },
        named ∙ ap get_asset_coll_deployment_filename same,
      )

  prepare_asset_coll-ready :
      IsReady → prepare_asset_coll hre w ≡ ok (get_asset_coll_deployment_filename id)
  unfolding prepare_asset_coll
  prepare_asset_coll-ready r = rw (chain, r.configured, r.first, r.absent)

  setup_ends :
      (name : String)
      → prepare_asset_coll hre w ≡ ok name
      → name ≡ get_asset_coll_deployment_filename id
      → setup_asset_coll hre w ≡ (ok tt, with_empty_list)
  unfolding setup_asset_coll write_file
  setup_ends name h named =
      reads-step (prepare_asset_coll hre) _ w h
      ∙ ap (λ n. write_file n (asset_coll (record { assets = []; collateral = [] })) w) named

  -- If the chain id is known, the script ends exactly if the chain has a configuration, the file of
  -- phase 1 is there and its own is not, and then an empty file of its own is all that is new; if it
  -- does not end, it has changed nothing.
  pub setup_asset_coll_iff :
      (w' : World hre.Chain)
      → ((setup_asset_coll hre w ≡ (ok tt, w')) ↔ IsReady × (w' ≡ with_empty_list))
        × ((e : Error) → setup_asset_coll hre w ≡ (err e, w') → w' ≡ w)
  unfolding setup_asset_coll
  setup_asset_coll_iff w' = elim (Result-cases (prepare_asset_coll hre w)) [
    | inl (e, refused) ↦
        let threw =
          reads-throw (prepare_asset_coll hre)
            (λ n. write_file n (asset_coll (record { assets = []; collateral = [] }))) w refused in
        (
          (
            λ h. absurd (let q = sym (ap (λ r. r.0) threw) ∙ ap (λ r. r.0) h in cc),
            λ (r, same). absurd (let q = sym refused ∙ prepare_asset_coll-ready r in cc),
          ),
          λ x h. ap (λ r. r.1) (sym h ∙ threw),
        )
    | inr (name, passed) ↦
        let (ready, named) = prepare_asset_coll-IsReady name passed in
        let ended = setup_ends name passed named in
        (
          (
            λ h. (ready, ap (λ r. r.1) (sym h ∙ ended)),
            λ (r, same). ended ∙ ap (λ (v : World hre.Chain). (ok tt, v)) (sym same),
          ),
          λ x h. absurd (let q = sym (ap (λ r. r.0) h) ∙ ap (λ r. r.0) ended in cc),
        )
  ]
