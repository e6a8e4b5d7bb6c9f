-- ===== src/Deploy/Phase1/Opening.antt =====
-- Each script of phase 1 opens the file that the script before it wrote.
use reserve_protocol.Base.{String, ◌≡◌, sym, ◌∙◌, ap, fun_ext, subst, some, List, arith}
use reserve_protocol.Base.Text.{Dict, lookup, codes}
use reserve_protocol.Errors.{Error, Result, ok, >>=-eq-ok, or_throw}
use reserve_protocol.BigNumber.{BigNumbers}
use reserve_protocol.Deploy.Store.{
  IDeployments, deployments, get_deployment_filename, get_deployment_file,
}
use reserve_protocol.Deploy.Guards.{
  ask_chain_id, get_chain_id, validate_implementations, get_current_price, get_oracle_timeout,
}
use reserve_protocol.Deploy.Prepare.{
  open_deployments, prepare_libraries, prepare_implementations, prepare_rsr_asset,
  prepare_after_asset, prepare_deployer, check_previous,
}
use reserve_protocol.Deploy.Phase1.Progress.{Getter, Reached, Interrupted, interrupt}
use reserve_protocol.Chain.{Arg, Hardhat, World, Script, reads, ◌>>=◌}
use reserve_protocol.Chain.Outcome.{Runs, Runs-reads}
use reserve_protocol.Numbers.Parse.{text as text_of, fp}

module _ (hre : Hardhat) where
  -- The chain id is what the node answers, and stays the same with the answers.
  pub get_chain_id-same :
      (w w' : World hre.Chain)
      → ((method : String) → hre.send w.chain method ≡ hre.send w'.chain method)
      → get_chain_id hre w ≡ get_chain_id hre w'
  unfolding get_chain_id
  get_chain_id-same w w' h = ap (ask_chain_id hre) (fun_ext h)

  open_written :
      (w : World hre.Chain) (id : String) (d : IDeployments) (p : String × IDeployments)
      → get_chain_id hre w ≡ ok id
      → lookup (get_deployment_filename id) w.files ≡ some (deployments d)
      → open_deployments hre w ≡ ok p
      → p ≡ (get_deployment_filename id, d)
  unfolding open_deployments get_deployment_file
  open_written w id d p chain written h = ground arith

  -- Each script reads the file before its own tests.
  module _ (w : World hre.Chain) (p : String × IDeployments) where
    pub libraries_open : prepare_libraries hre w ≡ ok p → open_deployments hre w ≡ ok p
    unfolding prepare_libraries
    libraries_open h = let (o, e, h) = >>=-eq-ok (open_deployments hre w) _ h in ground arith

    pub implementations_open : prepare_implementations hre w ≡ ok p → open_deployments hre w ≡ ok p
    unfolding prepare_implementations
    implementations_open h = let (o, e, h) = >>=-eq-ok (open_deployments hre w) _ h in ground arith

    pub after_asset_open : prepare_after_asset hre w ≡ ok p → open_deployments hre w ≡ ok p
    unfolding prepare_after_asset check_previous
    after_asset_open h = let (o, e, h) = >>=-eq-ok (open_deployments hre w) _ h in ground arith

    pub deployer_open : prepare_deployer hre w ≡ ok p → open_deployments hre w ≡ ok p
    unfolding prepare_deployer check_previous
    deployer_open h = let (o, e, h) = >>=-eq-ok (open_deployments hre w) _ h in ground arith

  pub rsr_asset_open :
      (big : BigNumbers) (w : World hre.Chain) {p : String × IDeployments × Dict Arg}
      → prepare_rsr_asset hre big w ≡ ok p
      → open_deployments hre w ≡ ok (p.0, p.1)
  unfolding prepare_rsr_asset
  rsr_asset_open big w h =
      let (o, e, h) = >>=-eq-ok (open_deployments hre w) _ h in
      let (u, e₁, h) = >>=-eq-ok (validate_implementations hre o.1 w) _ h in
      let (c, e₂, h) = >>=-eq-ok (get_chain_id hre w) _ h in
      let (q, e₃, h) =
        >>=-eq-ok (get_current_price hre big (some o.1.prerequisites.rsr_feed) w) _ h in
      let (v, e₄, h) =
        >>=-eq-ok (or_throw Error.number_error (fp big (text_of (codes "1e6")))) _ h in
      let (t, e₅, h) = >>=-eq-ok (get_oracle_timeout hre big c) _ h in ground arith

  module _ (w₀ : World hre.Chain) (id : String) (chain : get_chain_id hre w₀ ≡ ok id) where
    -- What a script reads at the start is what was written last.
    pub opened-eq :
        (gs : List Getter) (d : IDeployments) (w : World hre.Chain) {p : String × IDeployments}
        → Reached hre (get_deployment_filename id) w₀ gs d w
        → open_deployments hre w ≡ ok p
        → p ≡ (get_deployment_filename id, d)
    opened-eq gs d w {p} r h =
        open_written w id d p (get_chain_id-same w w₀ r.network ∙ chain) r.written h

    pub Runs-opened :
        {A : Type 0} {R : A → World hre.Chain → Type 0}
        (prepare : World hre.Chain → Result (String × IDeployments))
        (f : String × IDeployments → Script hre.Chain A) (gs : List Getter) {d : IDeployments}
        {w : World hre.Chain}
        → ((p : String × IDeployments) → prepare w ≡ ok p → open_deployments hre w ≡ ok p)
        → Reached hre (get_deployment_filename id) w₀ gs d w
        → Runs R
            (Interrupted hre (get_deployment_filename id) w₀)
            (f (get_deployment_filename id, d))
            w
        → Runs R (Interrupted hre (get_deployment_filename id) w₀) (reads prepare >>= f) w
    Runs-opened {A} {R} prepare f gs {d} {w} opens r run =
        Runs-reads _ (interrupt hre (get_deployment_filename id) w₀ gs d w r) λ p e.
          subst (λ p. Runs R (Interrupted hre (get_deployment_filename id) w₀) (f p) w)
            (sym (opened-eq gs d w r (opens p e))) run
