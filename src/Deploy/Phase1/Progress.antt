-- ===== src/Deploy/Phase1/Progress.antt =====
-- What the deployment file of a chain holds as the scripts of phase 1 go on: every address that is
-- filled in belongs to a contract on the chain.
use reserve_protocol.Base.{
  String, ◌≡◌, refl, sym, ◌∙◌, ap, subst, ◌≢◌, some, List, [], ◌∷◌, All, arith,
}
use text.Mathlib.TextEquality.{eq_iff}
use reserve_protocol.Base.Text.{Dict, lookup, insert, lookup-insert}
use reserve_protocol.Deploy.Store.{IDeployments, File, deployments}
use reserve_protocol.Deploy.Guards.Valid.{IsDeployedAt}
use reserve_protocol.Deploy.Phase1.{save}
use reserve_protocol.Chain.{Creation, Hardhat, IsHardhat, World, ◌>>=◌, deploy, write_file}
use reserve_protocol.Chain.Outcome.{
  Runs, Runs-bind, Runs-then, Runs-pure, Runs-weaken, IsDeployed, deploy-IsDeployed, Extends,
}

abbrev pub Getter : Type 0
Getter = IDeployments → String

module _ (hre : Hardhat) where
  -- The addresses that the getters read are written down and have code.
  abbrev pub Filled : List Getter → IDeployments → World hre.Chain → Type 0
  Filled gs d w = All (λ g. IsDeployedAt hre w (g d)) gs

  pub extend-Filled :
      (gs : List Getter) (d : IDeployments) (w w' : World hre.Chain)
      → Extends hre w w'
      → Filled gs d w
      → Filled gs d w'
  extend-Filled [] d w w' ext h = tt
  extend-Filled (g ∷ gs) d w w' ext ((named, live), h) =
      ((named, ext (g d) live), extend-Filled gs d w w' ext h)

  -- The state at a point of a script that began in `w₀` and keeps the file `name`: the object `d` is
  -- in the file, its filled addresses are deployed, no other file was touched, and the network is
  -- the same.
  pub record Reached (name : String) (w₀ : World hre.Chain) (gs : List Getter) (d : IDeployments)
      (w : World hre.Chain) : Type 0 where
    pub filled : Filled gs d w
    pub written : lookup name w.files ≡ some (deployments d)
    pub others : (n : String) → name ≢ n → lookup n w.files ≡ lookup n w₀.files
    pub network : (method : String) → hre.send w.chain method ≡ hre.send w₀.chain method

  -- What a throw leaves behind: the file holds a whole object, and no other file was touched.
  pub record Interrupted (name : String) (w₀ w : World hre.Chain) : Type 0 where
    pub d : IDeployments
    pub written : lookup name w.files ≡ some (deployments d)
    pub others : (n : String) → name ≢ n → lookup n w.files ≡ lookup n w₀.files

  pub interrupt :
      (name : String) (w₀ : World hre.Chain) (gs : List Getter) (d : IDeployments)
      (w : World hre.Chain)
      → Reached name w₀ gs d w
      → Interrupted name w₀ w
  interrupt name w₀ gs d w r = record { d = d; written = r.written; others = r.others }

  pub lookup-insert_self :
      (name : String) (f : File) (files : Dict File) → lookup name (insert name f files) ≡ some f
  lookup-insert_self name f files = rw lookup-insert (ground (arith, eq_iff name name))

  pub lookup-insert_ne :
      (name n : String) (f : File) (files : Dict File)
      → name ≢ n
      → lookup n (insert name f files) ≡ lookup n files
  lookup-insert_ne name n f files h = rw lookup-insert (ground (arith, eq_iff name n))

  module _ (laws : IsHardhat hre) (name : String) (w₀ : World hre.Chain) where
    -- A deployment that is not saved yet.
    pub deploy_only :
        (gs : List Getter) (c : Creation) (d : IDeployments) (w : World hre.Chain)
        → Reached name w₀ gs d w
        → Runs
            (λ a w'. IsDeployed hre w a w' × Reached name w₀ gs d w')
            (Interrupted name w₀)
            (deploy hre c)
            w
    deploy_only gs c d w r =
        Runs-weaken (IsDeployed hre w) _ (λ w'. w' ≡ w) (Interrupted name w₀)
          (deploy-IsDeployed hre laws c w)
          (λ a w' h. (
            h,
            record {
              filled = extend-Filled gs d w w' h.extends r.filled;
              written = ap (lookup name) h.files ∙ r.written;
              others = λ n ne. ap (lookup n) h.files ∙ r.others n ne;
              network = λ method. h.network method ∙ r.network method;
            },
          ))
          (λ w' e. subst (Interrupted name w₀) (sym e) (interrupt name w₀ gs d w r))

    -- A write of an object whose addresses are deployed.
    pub write-Reached :
        (gs hs : List Getter) (d d' : IDeployments) (w : World hre.Chain)
        → Reached name w₀ gs d w
        → Filled hs d' w
        → Runs
            (λ u w'. Reached name w₀ hs d' w')
            (Interrupted name w₀)
            (write_file name (deployments d'))
            w
    unfolding write_file
    write-Reached gs hs d d' w r h = record {
      outcome = record {
        filled = h;
        written = lookup-insert_self name (deployments d') w.files;
        others = λ n ne. lookup-insert_ne name n (deployments d') w.files ne ∙ r.others n ne;
        network = r.network;
      };
    }

    pub save-Reached :
        (gs hs : List Getter) (d d' : IDeployments) (w : World hre.Chain)
        → Reached name w₀ gs d w
        → Filled hs d' w
        → Runs (Reached name w₀ hs) (Interrupted name w₀) (save hre name d') w
    unfolding save
    save-Reached gs hs d d' w r h =
        Runs-then _ (write-Reached gs hs d d' w r h) λ u w' r'. Runs-pure (Reached name w₀ hs) r'

    -- A deployment whose address is set in the object and saved. The caller shows that the setter
    -- `f` is read by `g` and leaves what the getters `gs` read.
    pub deploy_then_save :
        (gs : List Getter) (g : Getter) (f : String → IDeployments → IDeployments) (c : Creation)
        {d : IDeployments} {w : World hre.Chain}
        → ((a : String) → g (f a d) ≡ a)
        → ((P : String → Type 0) (a : String) → All (λ h. P (h d)) gs → All (λ h. P (h (f a d))) gs)
        → Reached name w₀ gs d w
        → Runs
            (Reached name w₀ (g ∷ gs))
            (Interrupted name w₀)
            (deploy hre c >>= λ a. save hre name (f a d))
            w
    deploy_then_save gs g f c {d} {w} sets keeps r =
        Runs-bind _ (deploy_only gs c d w r) λ a w' (h, r').
          save-Reached gs (g ∷ gs) d (f a d) w' r' (
            subst (IsDeployedAt hre w') (sym (sets a)) (h.named, h.live),
            keeps (IsDeployedAt hre w') a r'.filled,
          )

    -- A deployment whose address is saved later.
    pub deploy_more :
        (gs : List Getter) (c : Creation) {d : IDeployments} {w : World hre.Chain}
        → Reached name w₀ gs d w
        → Runs (λ a w'. Reached name w₀ ((λ x. a) ∷ gs) d w') (Interrupted name w₀) (deploy hre c) w
    deploy_more gs c {d} {w} r =
        Runs-weaken (λ a w'. IsDeployed hre w a w' × Reached name w₀ gs d w') _
          (Interrupted name w₀) (Interrupted name w₀) (deploy_only gs c d w r)
          (λ a w' (h, r'). record {
            filled = ((h.named, h.live), r'.filled);
            written = r'.written;
            others = r'.others;
            network = r'.network;
          })
          (λ w' i. i)

  -- The state between two scripts: some object with these addresses is in the file.
  abbrev pub Stage : String → World hre.Chain → List Getter → World hre.Chain → Type 0
  Stage name w₀ gs w = (d : IDeployments) × Reached name w₀ gs d w

  -- The first write of the file.
  pub fresh-Stage :
      (name : String) (w : World hre.Chain) (gs : List Getter) (d : IDeployments)
      → Filled gs d w
      → Runs
          (λ (u : Unit {0}) w'. Stage name w gs w')
          (λ w'. w' ≡ w)
          (write_file name (deployments d))
          w
  unfolding write_file
  fresh-Stage name w gs d h = record {
    outcome = (
      d,
      record {
        filled = h;
        written = lookup-insert_self name (deployments d) w.files;
        others = λ n ne. lookup-insert_ne name n (deployments d) w.files ne;
        network = λ method. refl;
      },
    );
  }

  module _ (laws : IsHardhat hre) (name : String) (w₀ : World hre.Chain) where
    -- A last write, after which the script is at its stage.
    pub write-Stage :
        (gs hs : List Getter) (d d' : IDeployments) {w : World hre.Chain}
        → Reached name w₀ gs d w
        → Filled hs d' w
        → Runs
            (λ (u : Unit {0}) w'. Stage name w₀ hs w')
            (Interrupted name w₀)
            (write_file name (deployments d'))
            w
    write-Stage gs hs d d' {w} r h =
        Runs-weaken (λ u w'. Reached name w₀ hs d' w') _ (Interrupted name w₀) (Interrupted name w₀)
          (write-Reached laws name w₀ gs hs d d' w r h) (λ u w' r'. (d', r')) (λ w' i. i)
