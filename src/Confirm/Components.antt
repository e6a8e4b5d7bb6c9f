-- ===== src/Confirm/Components.antt =====
-- 0_confirm_components.ts: on the main network the RToken is paused and its timelock long.
use text.Mathlib.Text.{◌==◌ as str_eq}
use text.Mathlib.TextEquality.{eq_iff}
use reserve_protocol.Base.{
  ◌^◌, String, ◌≡◌, refl, sym, ◌∙◌, ap, subst, ◌↔◌, inl, inr, Bool, true, false, not, some, arith,
  Bool-cases,
}
use reserve_protocol.Base.Int.{ℤ, pos, ◌≤ℤ◌, ◌+ℤ◌, ◌-ℤ◌, ◌*ℤ◌, tdiv}
use reserve_protocol.Base.Text.{codes, lookup}
use reserve_protocol.BigNumber.{BigNumbers, IsBigNumbers, integers, digits_value, power}
use reserve_protocol.Numbers.Parse.{
  text as text_of, bn, parse_scientific, match_groups, scan_digits, span_digits, scan_fraction,
  scan_exponent,
}
use reserve_protocol.Errors.{Error, ok, or_throw, or_throw-eq-ok, >>=-eq-ok, ok-injective}
use reserve_protocol.Config.{get_network_config}
use reserve_protocol.Config.Networks.{network_config}
use reserve_protocol.Config.RToken.{IrToken, rtoken_name, get_rtoken_config}
use reserve_protocol.Config.Laws.{published, bn-text}
use reserve_protocol.Deploy.Store.{
  IrTokenDeployments, rtoken, get_rtoken_deployment_filename, get_deployment_file,
}
use reserve_protocol.Deploy.Guards.{throw_if}
use reserve_protocol.Confirm.{open_network, confirm_main, confirm_components}
use reserve_protocol.Chain.{Hardhat, World, call_number}
use reserve_protocol.Chain.Calls.{Contracts}

abbrev pub least_delay : ℤ
least_delay = pos (10 ^ 12)

integers-delay : bn integers (text_of (codes "1e12")) ≡ some least_delay
unfolding bn match_groups scan_digits span_digits scan_fraction scan_exponent parse_scientific
    digits_value power ◌+ℤ◌ ◌-ℤ◌ ◌*ℤ◌ tdiv
integers-delay = refl

module _ (hre : Hardhat) (contracts : Contracts hre) (big : BigNumbers)
    (laws : IsBigNumbers big) where
  -- The RToken is paused, and its timelock waits for 10^12 seconds at least.
  pub record IsBricked (w : World hre.Chain) (d : IrTokenDeployments) : Type 0 where
    pub paused : contracts.paused w.chain d.main ≡ some true
    pub delay : ℤ
    pub min_delay : hre.call_number w.chain d.timelock "getMinDelay" ≡ some delay
    pub long : least_delay ≤ℤ delay

  delay_text : bn big (text_of (codes "1e12")) ≡ some least_delay
  unfolding match_groups scan_digits span_digits scan_fraction scan_exponent
  delay_text = bn-text big laws "1e12" refl ∙ integers-delay

  long_iff : (delay : ℤ) → (big.lt delay least_delay ≡ false) ↔ (least_delay ≤ℤ delay)
  long_iff delay = ground (arith, laws.lt_law delay least_delay)

  throw_if_iff : (b : Bool) (e : Error) → (throw_if b e ≡ ok tt) ↔ (b ≡ false)
  throw_if_iff b e = ground arith

  confirm_main_iff :
      (w : World hre.Chain) (d : IrTokenDeployments)
      → (confirm_main hre contracts big d w ≡ ok tt) ↔ IsBricked w d
  unfolding confirm_main call_number
  confirm_main_iff w d = (
    λ h.
        let (paused, e₀, h) =
          >>=-eq-ok (or_throw (Error.call_failed "paused") (contracts.paused w.chain d.main)) _ h in
        let (u, e₁, h) = >>=-eq-ok (throw_if (not paused) (Error.check_failed "main")) _ h in
        let (delay, e₂, h) = >>=-eq-ok (call_number hre d.timelock "getMinDelay" w) _ h in
        let (least, e₃, h) =
          >>=-eq-ok (or_throw Error.number_error (bn big (text_of (codes "1e12")))) _ h in
        let short = (throw_if_iff (big.lt delay least) _).0 h in
        let on : paused ≡ true = ground arith in
        let same : least ≡ least_delay = ground (arith, or_throw-eq-ok _ _ e₃, delay_text) in
        record {
          paused = or_throw-eq-ok _ _ e₀ ∙ ap some on;
          delay = delay;
          min_delay = or_throw-eq-ok _ _ e₂;
          long = (long_iff delay).0 (ap (big.lt delay) (sym same) ∙ short);
        },
    λ b. rw (b.paused, b.min_delay, delay_text, (long_iff b.delay).1 b.long),
  )

  -- On a chain with a configuration that is no development chain, and with the file d of the RToken,
  -- 0_confirm_components.ts passes exactly if, where the chain is the main network, the RToken is
  -- paused and its timelock waits for 10^12 seconds at least.
  pub confirm_components_iff :
      (w : World hre.Chain) (id : String) (d : IrTokenDeployments)
      → open_network hre w ≡ ok id
      → lookup (get_rtoken_deployment_filename id rtoken_name) w.files ≡ some (rtoken d)
      → (confirm_components hre contracts big w ≡ ok tt) ↔ (id ≡ "1" → IsBricked w d)
  unfolding confirm_components get_deployment_file
  confirm_components_iff w id d network held =
      let (to, from) = confirm_main_iff w d in
      let (same, test) = eq_iff id "1" in
      elim (Bool-cases (str_eq id "1")) [
        | inl here ↦ rw (network, held, here) (λ h e. to h, λ b. from (b (same here)))
        | inr other ↦
            let off : ¬ (id ≡ "1") = λ e. let t = test e in cc in
            rw (network, held, other) (λ h e. absurd (off e), λ b. refl)
      ]

  published_delay :
      (c : IrToken)
      → get_rtoken_config published "1" rtoken_name ≡ ok c
      → least_delay ≤ℤ c.gov.timelock_delay
  unfolding get_rtoken_config get_network_config network_config lookup
  published_delay c h =
      subst (λ (c : IrToken). least_delay ≤ℤ c.gov.timelock_delay) (ok-injective h) (omega arith)

  -- On such a chain with the published configuration of the RToken, 0_confirm_components.ts passes
  -- if the timelock waits for the published delay, and the RToken is paused on the main network.
  pub confirm_components-ok :
      (w : World hre.Chain) (id : String) (d : IrTokenDeployments) (c : IrToken)
      → open_network hre w ≡ ok id
      → lookup (get_rtoken_deployment_filename id rtoken_name) w.files ≡ some (rtoken d)
      → get_rtoken_config published id rtoken_name ≡ ok c
      → hre.call_number w.chain d.timelock "getMinDelay" ≡ some c.gov.timelock_delay
      → (id ≡ "1" → contracts.paused w.chain d.main ≡ some true)
      → confirm_components hre contracts big w ≡ ok tt
  confirm_components-ok w id d c network held conf delay paused =
      (confirm_components_iff w id d network held).1 λ main. record {
        paused = paused main;
        delay = c.gov.timelock_delay;
        min_delay = delay;
        long =
            published_delay c
              (ap (λ i. get_rtoken_config published i rtoken_name) (sym main) ∙ conf);
      }
