-- ===== src/Deploy/Phase3/Weights.antt =====
-- The basket that 1_deploy_rtoken.ts sets up.
use reserve_protocol.Base.{
  suc, ◌*◌, ◌^◌, length, ◌≡◌, refl, sym, ap, ◌∙◌, subst, Option, some, List, [], ◌∷◌, map, All,
}
use reserve_protocol.Base.Int.{ℤ, pos, ◌+ℤ◌, ◌-ℤ◌, ◌*ℤ◌, tdiv}
use reserve_protocol.Base.Text.{codes}
use reserve_protocol.BigNumber.{BigNumbers, IsBigNumbers, integers, digits_value, power}
use reserve_protocol.Numbers.Parse.{
  text, fp, parse_scientific, match_groups, scan_digits, span_digits, scan_fraction, scan_exponent,
}
use reserve_protocol.Errors.{ok, >>=-eq-ok, ok-injective}
use reserve_protocol.Config.{IrTokenSetup, IBackupInfo}
use reserve_protocol.Config.Laws.{fp-text}
use reserve_protocol.Deploy.Store.{IAssetCollDeployments}
use reserve_protocol.Deploy.Phase3.{
  setup_assets, setup_basket, setup_backup, setup_weights, backup_info, require_contracts,
  rtoken_setup,
}
use reserve_protocol.Deploy.Phase3.Checks.{require_contracts-IsLive}
use reserve_protocol.Chain.{Hardhat, World}
use reserve_protocol.Chain.Outcome.{IsLive}

abbrev pub quarter : ℤ
quarter = pos (25 * 10 ^ 16)

abbrev pub half : ℤ
half = pos (5 * 10 ^ 17)

abbrev pub sum_ℤ : List ℤ → ℤ
sum_ℤ [] = pos 0
sum_ℤ (x ∷ xs) = x +ℤ sum_ℤ xs

length-some :
    {A : Type 0} (xs : List A) {os : List (Option A)} → map some xs ≡ os → length xs ≡ length os
length-some [] h = ap length h
length-some (x ∷ xs) h = ap suc (length-some xs refl) ∙ ap length h

integers-quarter : fp integers (text (codes "0.25")) ≡ some quarter
unfolding fp match_groups scan_digits span_digits scan_fraction scan_exponent parse_scientific
    digits_value power ◌+ℤ◌ ◌-ℤ◌ ◌*ℤ◌ tdiv
integers-quarter = refl

integers-half : fp integers (text (codes "0.5")) ≡ some half
unfolding fp match_groups scan_digits span_digits scan_fraction scan_exponent parse_scientific
    digits_value power ◌+ℤ◌ ◌-ℤ◌ ◌*ℤ◌ tdiv
integers-half = refl

module _ (big : BigNumbers) (laws : IsBigNumbers big) where
  pub setup_weights-eq : setup_weights big ≡ ok (quarter ∷ quarter ∷ half ∷ [])
  unfolding setup_weights match_groups scan_digits span_digits scan_fraction scan_exponent
  setup_weights-eq =
      let q = fp-text big laws "0.25" refl ∙ integers-quarter in
      let h = fp-text big laws "0.5" refl ∙ integers-half in rw (q, h)

  -- What a set-up that goes through is: it names the contracts of the file, all of them with code,
  -- with one weight for each of the basket, and the weights add up to one.
  pub record IsSetup (hre : Hardhat) (d : IAssetCollDeployments) (w : World hre.Chain)
      (s : IrTokenSetup) : Type 0 where
    pub assets : map some s.assets ≡ setup_assets d
    pub basket : map some s.primary_basket ≡ setup_basket d
    pub backups :
        map (λ (b : IBackupInfo). map some b.backup_collateral) s.backups ≡ setup_backup d ∷ []
    pub live_assets : All (IsLive hre w) s.assets
    pub live_basket : All (IsLive hre w) s.primary_basket
    pub live_backups : All (λ (b : IBackupInfo). All (IsLive hre w) b.backup_collateral) s.backups
    pub weighted : length s.weights ≡ length s.primary_basket
    pub balanced : sum_ℤ s.weights ≡ pos (10 ^ 18)

  -- A set-up that the tests of 1_deploy_rtoken.ts let through is one: see `IsSetup`.
  pub rtoken_setup-IsSetup :
      (hre : Hardhat) (d : IAssetCollDeployments) (w : World hre.Chain) (s : IrTokenSetup)
      → rtoken_setup hre big d w ≡ ok s
      → IsSetup hre d w s
  unfolding rtoken_setup ◌+ℤ◌
  rtoken_setup-IsSetup hre d w s h =
      let (weights, e₀, h) = >>=-eq-ok (setup_weights big) _ h in
      let (backup, e₁, h) = >>=-eq-ok (backup_info big []) _ h in
      let (assets, e₂, h) = >>=-eq-ok (require_contracts hre "Asset" (setup_assets d) w) _ h in
      let (basket, e₃, h) = >>=-eq-ok (require_contracts hre "Collateral" (setup_basket d) w) _ h in
      let (more, e₄, h) = >>=-eq-ok (require_contracts hre "Collateral" (setup_backup d) w) _ h in
      let (live₂, s₂) = require_contracts-IsLive hre "Asset" (setup_assets d) w e₂ in
      let (live₃, s₃) = require_contracts-IsLive hre "Collateral" (setup_basket d) w e₃ in
      let (live₄, s₄) = require_contracts-IsLive hre "Collateral" (setup_backup d) w e₄ in
      let same = ok-injective (sym e₀ ∙ setup_weights-eq) in
      subst (IsSetup hre d w) (ok-injective h) (record {
        assets = s₂;
        basket = s₃;
        backups = rw s₄;
        live_assets = live₂;
        live_basket = live₃;
        live_backups = (live₄, tt);
        weighted = ap length same ∙ sym (length-some basket s₃);
        balanced = ap sum_ℤ same;
      })
