-- ===== src/Deploy/Phase2/Progress.antt =====
-- What the file of assets and collateral holds as 2_deploy_collateral.ts goes on.
use reserve_protocol.Base.{
  String, ◌≡◌, refl, sym, ◌∙◌, ap, subst, ◌≢◌, inl, inr, Bool-cases, some, List, [], ◌∷◌, All,
  arith,
}
use text.Mathlib.Text.{◌==◌ as str_eq}
use text.Mathlib.TextEquality.{eq_iff}
use reserve_protocol.Base.Text.{lookup, insert, lookup-insert}
use reserve_protocol.Deploy.Store.{IAssetCollDeployments, File, asset_coll}
use reserve_protocol.Deploy.Guards.Valid.{IsDeployedAt}
use reserve_protocol.Deploy.Phase1.Progress.{lookup-insert_self, lookup-insert_ne}
use reserve_protocol.Deploy.Phase2.{
  set_collateral, Keep, write_then_record, record_then_write, record_only,
}
use reserve_protocol.Chain.{Creation, Hardhat, IsHardhat, World, deploy, write_file}
use reserve_protocol.Chain.Outcome.{
  Runs, Runs-then, Runs-pure, Runs-weaken, IsDeployed, deploy-IsDeployed, Extends,
}

module _ (hre : Hardhat) where
  -- The symbol has an address in the object, and it is deployed.
  abbrev pub HasCollateral : IAssetCollDeployments → World hre.Chain → String → Type 0
  HasCollateral d w symbol =
      (a : String) × (lookup symbol d.collateral ≡ some a) × IsDeployedAt hre w a

  -- Other symbols keep their addresses, and the new one is there.
  HasCollateral-set_collateral :
      (d : IAssetCollDeployments) (w : World hre.Chain) (k a s : String)
      → IsDeployedAt hre w a
      → HasCollateral d w s
      → HasCollateral (set_collateral k a d) w s
  HasCollateral-set_collateral d w k a s new (b, found, old) = elim (Bool-cases (str_eq k s)) [
    | inl same ↦ (a, lookup-insert k s a d.collateral ∙ rw same refl, new)
    | inr other ↦ (b, lookup-insert k s a d.collateral ∙ rw other found, old)
  ]

  HasCollateral-set_collateral_same :
      (d : IAssetCollDeployments) (w : World hre.Chain) (k a : String)
      → IsDeployedAt hre w a
      → HasCollateral (set_collateral k a d) w k
  HasCollateral-set_collateral_same d w k a new =
      (a, lookup-insert k k a d.collateral ∙ ground (arith, eq_iff k k), new)

  -- From one state to a later one: code stays, the node answers for the same network, and no file
  -- but the named one was touched.
  pub record Onward (file : String) (w w' : World hre.Chain) : Type 0 where
    pub extends : Extends hre w w'
    pub others : (n : String) → file ≢ n → lookup n w'.files ≡ lookup n w.files
    pub network : (method : String) → hre.send w'.chain method ≡ hre.send w.chain method

  pub Onward-refl : (file : String) (w : World hre.Chain) → Onward file w w
  Onward-refl file w = record {
    extends = λ b live. live;
    others = λ n ne. refl;
    network = λ method. refl;
  }

  pub Onward-trans :
      (file : String) (w w' w'' : World hre.Chain)
      → Onward file w w'
      → Onward file w' w''
      → Onward file w w''
  Onward-trans file w w' w'' a b = record {
    extends = λ c live. b.extends c (a.extends c live);
    others = λ n ne. b.others n ne ∙ a.others n ne;
    network = λ method. b.network method ∙ a.network method;
  }

  pub IsDeployed-Onward :
      (file : String) (w w' : World hre.Chain) (a : String)
      → IsDeployed hre w a w'
      → Onward file w w'
  IsDeployed-Onward file w w' a h = record {
    extends = h.extends;
    others = λ n ne. ap (lookup n) h.files;
    network = h.network;
  }

  pub write-Onward :
      (file : String) (w : World hre.Chain) (f : File)
      → Onward file w (record w { files = insert file f w.files })
  write-Onward file w f = record {
    extends = λ b live. live;
    others = λ n ne. lookup-insert_ne hre file n f w.files ne;
    network = λ method. refl;
  }

  -- The symbols that are in the object, whatever the file holds of them.
  pub record Listed (file : String) (w₀ : World hre.Chain) (symbols : List String)
      (d : IAssetCollDeployments) (w : World hre.Chain) : Type 0 where
    pub listed : All (HasCollateral d w) symbols
    pub onward : Onward file w₀ w
    pub held : (f : IAssetCollDeployments) × (lookup file w.files ≡ some (asset_coll f))

  -- What a throw leaves behind.
  pub record Halted (file : String) (w₀ w : World hre.Chain) : Type 0 where
    pub onward : Onward file w₀ w
    pub held : (f : IAssetCollDeployments) × (lookup file w.files ≡ some (asset_coll f))

  pub halt :
      (file : String) (w₀ : World hre.Chain) (symbols : List String) (d : IAssetCollDeployments)
      (w : World hre.Chain)
      → Listed file w₀ symbols d w
      → Halted file w₀ w
  halt file w₀ symbols d w l = record { onward = l.onward; held = l.held }

  extend-listed :
      (symbols : List String) (d : IAssetCollDeployments) (w w' : World hre.Chain)
      → Extends hre w w'
      → All (HasCollateral d w) symbols
      → All (HasCollateral d w') symbols
  extend-listed [] d w w' ext h = tt
  extend-listed (s ∷ symbols) d w w' ext ((a, found, (named, live)), h) =
      ((a, found, (named, ext a live)), extend-listed symbols d w w' ext h)

  set-listed :
      (symbols : List String) (d : IAssetCollDeployments) (w : World hre.Chain) (k a : String)
      → IsDeployedAt hre w a
      → All (HasCollateral d w) symbols
      → All (HasCollateral (set_collateral k a d) w) symbols
  set-listed [] d w k a new h = tt
  set-listed (s ∷ symbols) d w k a new (x, h) =
      (HasCollateral-set_collateral d w k a s new x, set-listed symbols d w k a new h)

  module _ (laws : IsHardhat hre) (file : String) (w₀ : World hre.Chain) where
    pub deploy-Listed :
        (symbols : List String) (c : Creation) {d : IAssetCollDeployments} {w : World hre.Chain}
        → Listed file w₀ symbols d w
        → Runs
            (λ a w'. IsDeployedAt hre w' a × Listed file w₀ symbols d w')
            (Halted file w₀)
            (deploy hre c)
            w
    deploy-Listed symbols c {d} {w} l =
        Runs-weaken (IsDeployed hre w) _ (λ w'. w' ≡ w) (Halted file w₀)
          (deploy-IsDeployed hre laws c w)
          (λ a w' h. (
            (h.named, h.live),
            record {
              listed = extend-listed symbols d w w' h.extends l.listed;
              onward = Onward-trans file w₀ w w' l.onward (IsDeployed-Onward file w w' a h);
              held = (l.held.0, ap (lookup file) h.files ∙ l.held.1);
            },
          ))
          (λ w' e. subst (Halted file w₀) (sym e) (halt file w₀ symbols d w l))

    -- a way of keeping that leaves the symbol in the object
    abbrev pub Keeps : Keep hre.Chain → Type 0
    Keeps keep =
        (symbols : List String) (k a : String) (d : IAssetCollDeployments) (w : World hre.Chain)
        → IsDeployedAt hre w a
        → Listed file w₀ symbols d w
        → Runs (Listed file w₀ (k ∷ symbols)) (Halted file w₀) (keep file k a d) w

    record_Listed :
        (symbols : List String) (k a : String) (d : IAssetCollDeployments) (w : World hre.Chain)
        → IsDeployedAt hre w a
        → Listed file w₀ symbols d w
        → Listed file w₀ (k ∷ symbols) (set_collateral k a d) w
    record_Listed symbols k a d w new l = record {
      listed =
          (HasCollateral-set_collateral_same d w k a new, set-listed symbols d w k a new l.listed);
      onward = l.onward;
      held = l.held;
    }

    write-Listed :
        (symbols : List String) (d e : IAssetCollDeployments) (w : World hre.Chain)
        → Listed file w₀ symbols d w
        → Runs
            (λ (u : Unit {0}) w'.
              Listed file w₀ symbols d w' × (lookup file w'.files ≡ some (asset_coll e)))
            (Halted file w₀)
            (write_file file (asset_coll e))
            w
    unfolding write_file
    write-Listed symbols d e w l = record {
      outcome = (
        record {
          listed = l.listed;
          onward = Onward-trans file w₀ w _ l.onward (write-Onward file w (asset_coll e));
          held = (e, lookup-insert_self hre file (asset_coll e) w.files);
        },
        lookup-insert_self hre file (asset_coll e) w.files,
      );
    }

    pub record_only-Keeps : Keeps record_only
    unfolding record_only
    record_only-Keeps symbols k a d w new l =
        Runs-pure (Listed file w₀ (k ∷ symbols)) (record_Listed symbols k a d w new l)

    -- The object is in the file once it is recorded and written.
    pub record_then_write-Listed :
        (symbols : List String) (k a : String) (d : IAssetCollDeployments) (w : World hre.Chain)
        → IsDeployedAt hre w a
        → Listed file w₀ symbols d w
        → Runs
            (λ d' w'.
              Listed file w₀ (k ∷ symbols) d' w' × (lookup file w'.files ≡ some (asset_coll d')))
            (Halted file w₀)
            (record_then_write file k a d)
            w
    unfolding record_then_write
    record_then_write-Listed symbols k a d w new l =
        Runs-then _
          (write-Listed (k ∷ symbols) (set_collateral k a d) (set_collateral k a d) w
            (record_Listed symbols k a d w new l))
          λ u w' l'.
            Runs-pure
              (λ d' w'.
                Listed file w₀ (k ∷ symbols) d' w' × (lookup file w'.files ≡ some (asset_coll d')))
              l'

    pub record_then_write-Keeps : Keeps record_then_write
    record_then_write-Keeps symbols k a d w new l =
        Runs-weaken _ (Listed file w₀ (k ∷ symbols)) (Halted file w₀) (Halted file w₀)
          (record_then_write-Listed symbols k a d w new l) (λ d' w' l'. l'.0) (λ w' h. h)

    pub write_then_record-Keeps : Keeps write_then_record
    unfolding write_then_record
    write_then_record-Keeps symbols k a d w new l =
        Runs-then _
          (write-Listed (k ∷ symbols) (set_collateral k a d) d w
            (record_Listed symbols k a d w new l))
          λ u w' (l', written). Runs-pure (Listed file w₀ (k ∷ symbols)) l'
