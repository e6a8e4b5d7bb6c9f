-- ===== src/Verify/Deployers.antt =====
-- 3_verify_deployer.ts and 5_verify_facadeWrite.ts send the arguments with which 5_deploy_deployer.ts
-- and 6_deploy_facadeWrite.ts deployed, read from the file that these left.
use reserve_protocol.Base.{String, ◌≡◌, refl, sym, ◌∙◌, ap, Option, some, [], ◌∷◌}
use reserve_protocol.Base.Text.{Dict, lookup, insert}
use reserve_protocol.Errors.{ok, >>=-eq-ok, ok-injective}
use reserve_protocol.Config.{get_network_config}
use reserve_protocol.Deploy.Store.{
  File, IDeployments, deployments, get_deployment_filename, get_deployment_file, as_deployments,
}
use reserve_protocol.Deploy.Guards.{get_chain_id}
use reserve_protocol.Deploy.Prepare.{open_deployments, prepare_deployer, prepare_after_asset}
use reserve_protocol.Deploy.Phase1.{deploy_deployer, deploy_facade_write}
use reserve_protocol.Deploy.Phase1.Progress.{lookup-insert_self}
use reserve_protocol.Deploy.Phase1.Opening.{deployer_open, after_asset_open}
use reserve_protocol.Deploy.Phase1.Opening.{get_chain_id-same}
use reserve_protocol.Deploy.Phase3.Prepared.{held_deployments}
use reserve_protocol.Chain.{Arg, address, Hardhat, IsHardhat, World, write_file}
use reserve_protocol.Chain.Outcome.{Runs, Runs-reads, Runs-bind, Runs-ok, deploy-sent}
use reserve_protocol.Verify.{Request}
use reserve_protocol.Verify.Requests.{deployer_requests, facade_write_requests}

-- The deployment file that a lookup found.
abbrev content : IDeployments → Option File → IDeployments
content d (some (deployments e)) = e
content d o = d

module _ (hre : Hardhat) where
  -- The request names the contract that a deployment with its arguments made.
  pub record IsMatched (r : Request) (contract : String) (libraries : Dict Arg) (c c' : hre.Chain)
      : Type 0 where
    pub at : String
    pub addressed : r.address ≡ some at
    pub sent :
        hre.deploy
          (record { contract = contract; libraries = libraries; arguments = r.arguments })
          c
        ≡ some (at, c')

  module _ (w : World hre.Chain) (id : String) (chain : get_chain_id hre w ≡ ok id) where
    -- The name and the content of the file that a script has read.
    opened :
        (p : String × IDeployments)
        → open_deployments hre w ≡ ok p
        → (p.0 ≡ get_deployment_filename id)
          × (lookup (get_deployment_filename id) w.files ≡ some (deployments p.1))
    unfolding open_deployments
    opened p h =
        let (i, e₀, h) = >>=-eq-ok (get_chain_id hre w) _ h in
        let (config, e₁, h) = >>=-eq-ok (get_network_config i) _ h in
        let (f, e₂, h) = >>=-eq-ok (get_deployment_file (get_deployment_filename i) w.files) _ h in
        let (d, e₃, h) = >>=-eq-ok (as_deployments f) _ h in
        let same = ap get_deployment_filename (ok-injective (sym e₀ ∙ chain)) in
        (
          ap (λ (p : String × IDeployments). p.0) (sym (ok-injective h)) ∙ same,
          ap (λ n. lookup n w.files) (sym same)
              ∙ held_deployments w.files _ e₂ e₃
              ∙ ap (λ (p : String × IDeployments). some (deployments p.1)) (ok-injective h),
        )

    -- The file of the chain, and the request that matches the deployment since w.
    pub record IsDeployerMatched (w' : World hre.Chain) : Type 0 where
      pub d : IDeployments
      pub held : lookup (get_deployment_filename id) w'.files ≡ some (deployments d)
      pub request : Request
      pub requests : deployer_requests d ≡ request ∷ []
      pub matched : IsMatched request "DeployerP1" [] w.chain w'.chain

    -- The file before, what changed in it, and the requests that match the deployments since w.
    pub record IsFacadeMatched (w' : World hre.Chain) : Type 0 where
      pub before : IDeployments
      pub read : lookup (get_deployment_filename id) w.files ≡ some (deployments before)
      pub lib_address : String
      pub facade_address : String
      pub held :
          lookup (get_deployment_filename id) w'.files
          ≡ some (
              deployments
                (record before { facade_write_lib = lib_address; facade_write = facade_address }))
      pub lib : Request
      pub facade : Request
      pub requests :
          facade_write_requests
            (record before { facade_write_lib = lib_address; facade_write = facade_address })
          ≡ lib ∷ facade ∷ []
      pub between : hre.Chain
      pub lib_matched : IsMatched lib "FacadeWriteLib" [] w.chain between
      pub facade_matched :
          IsMatched facade "FacadeWrite"
            (("FacadeWriteLib", address lib_address) ∷ [])
            between
            w'.chain

    -- what the last write left in the file
    held_lem :
        (name : String) (d : IDeployments) (v : World hre.Chain)
        → name ≡ get_deployment_filename id
        → lookup (get_deployment_filename id) (insert name (deployments d) v.files)
          ≡ some (deployments d)
    held_lem name d v same =
        ap (λ n. lookup (get_deployment_filename id) (insert n (deployments d) v.files)) same
        ∙ lookup-insert_self hre (get_deployment_filename id) (deployments d) v.files

    deployer_matched : Runs (λ u w'. IsDeployerMatched w') (λ w'. Unit {0}) (deploy_deployer hre) w
    unfolding deploy_deployer write_file
    deployer_matched = Runs-reads (prepare_deployer hre) tt λ p e.
        Runs-bind _ (deploy-sent hre _ w) λ a w₁ sent. record {
          outcome = record {
            d = record (p.1) { deployer = a };
            held =
                held_lem p.0 (record (p.1) { deployer = a }) w₁
                  (opened p (deployer_open hre w p e)).0;
            request = _;
            requests = refl;
            matched = record { at = a; addressed = refl; sent = sent };
          };
        }

    facade_matched : Runs (λ u w'. IsFacadeMatched w') (λ w'. Unit {0}) (deploy_facade_write hre) w
    unfolding deploy_facade_write write_file
    facade_matched = Runs-reads (prepare_after_asset hre) tt λ p e.
        Runs-bind _ (deploy-sent hre _ w) λ lib w₁ sent₁.
          Runs-bind _ (deploy-sent hre _ w₁) λ a w₂ sent₂.
            let (same, read) = opened p (after_asset_open hre w p e) in
            record {
              outcome = record {
                before = p.1;
                read = read;
                lib_address = lib;
                facade_address = a;
                held =
                    held_lem p.0 (record (p.1) { facade_write_lib = lib; facade_write = a }) w₂
                      same;
                lib = _;
                facade = _;
                requests = refl;
                between = w₁.chain;
                lib_matched = record { at = lib; addressed = refl; sent = sent₁ };
                facade_matched = record { at = a; addressed = refl; sent = sent₂ };
              };
            }

  module _ (laws : IsHardhat hre) (w w₁ w₂ : World hre.Chain) (id : String)
      (chain : get_chain_id hre w ≡ ok id) where
    -- The file at the end, and the three requests on it, matched by the deployments from w to w₁
    -- and from w₁ to w₂.
    pub record AreMatched : Type 0 where
      pub d : IDeployments
      pub held : lookup (get_deployment_filename id) w₂.files ≡ some (deployments d)
      pub request : Request
      pub lib : Request
      pub facade : Request
      pub deployer_sends : deployer_requests d ≡ request ∷ []
      pub facade_sends : facade_write_requests d ≡ lib ∷ facade ∷ []
      pub matched : IsMatched request "DeployerP1" [] w.chain w₁.chain
      pub between : hre.Chain
      pub lib_matched : IsMatched lib "FacadeWriteLib" [] w₁.chain between
      pub facade_matched :
          IsMatched facade "FacadeWrite"
            (("FacadeWriteLib", address d.facade_write_lib) ∷ [])
            between
            w₂.chain

    -- If the chain id is known, the chain meets the documented laws, and 5_deploy_deployer.ts and
    -- then 6_deploy_facadeWrite.ts end, then the requests of 3_verify_deployer.ts and
    -- 5_verify_facadeWrite.ts on the file that is left name the three contracts that were deployed,
    -- with the arguments of their deployments.
    pub deployers-matched :
        deploy_deployer hre w ≡ (ok tt, w₁) → deploy_facade_write hre w₁ ≡ (ok tt, w₂) → AreMatched
    deployers-matched ends₁ ends₂ =
        let m =
          Runs-ok (λ u w'. IsDeployerMatched w id chain w') (deployer_matched w id chain) ends₁ in
        let chain₁ : get_chain_id hre w₁ ≡ ok id =
          get_chain_id-same hre w₁ w
            (λ method. laws.same_network _ w.chain m.matched.at w₁.chain method m.matched.sent)
          ∙ chain in
        let f =
          Runs-ok (λ u w'. IsFacadeMatched w₁ id chain₁ w') (facade_matched w₁ id chain₁) ends₂ in
        let same : m.d ≡ f.before = ap (content m.d) (sym m.held ∙ f.read) in
        record {
          d = record (f.before) {
            facade_write_lib = f.lib_address;
            facade_write = f.facade_address;
          };
          held = f.held;
          request = m.request;
          lib = f.lib;
          facade = f.facade;
          deployer_sends = ap deployer_requests (sym same) ∙ m.requests;
          facade_sends = f.requests;
          matched = m.matched;
          between = f.between;
          lib_matched = f.lib_matched;
          facade_matched = f.facade_matched;
        }
