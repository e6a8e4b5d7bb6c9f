-- ===== src/Verify/Wrapper.antt =====
-- The wrapper of aDAI: 2_deploy_collateral.ts gives it a symbol that starts with "s", and
-- 6_verify_collateral.ts sends one that starts with "stat".
use text.Mathlib.TextLemmas.{append_cancel_right}
use mathlib.Core.Option.{some-injective}
use Prim.Native.String.{◌++◌ as str_append}
use reserve_protocol.Base.{ℕ, String, ◌≡◌, ◌≢◌, sym, ◌∙◌, ap, some, List, ◌∷◌, length, arith}
use reserve_protocol.Base.Text.{codes, lookup}
use reserve_protocol.BigNumber.{BigNumbers}
use reserve_protocol.Errors.{Error, ok, or_throw, or_throw-eq-ok, >>=-eq-ok, ok-injective}
use reserve_protocol.Deploy.Phase2.Terms.{static_atoken}
use reserve_protocol.Chain.{Arg, label, Creation, Hardhat, World, call_text}
use reserve_protocol.Verify.{Request}
use reserve_protocol.Verify.Collateral.{Listing, collateral_at, static_atoken_request}
use reserve_protocol.Verify.Arguments.{context_of}

abbrev size : String → ℕ
size s = length (codes s)

prefixes_ne : (t : String) → str_append "s" t ≢ str_append "stat" t
prefixes_ne t h = let same = ap size (append_cancel_right "s" "stat" t h) in omega arith

-- The symbol among the arguments of a StaticATokenLM.
abbrev symbol_of : List Arg → String
symbol_of (pool ∷ atoken ∷ name ∷ label symbol ∷ more) = symbol
symbol_of _ = ""

module _ (hre : Hardhat) (big : BigNumbers) (c : Listing) where
  deployed_symbol :
      (lib file : String) (w : World hre.Chain) (k : Creation)
      → static_atoken hre big (context_of c lib file) "aDAI" w ≡ ok k
      → (atoken symbol : String) × (lookup "aDAI" c.config.tokens ≡ some atoken)
        × (hre.call_text w.chain atoken "symbol" ≡ some symbol)
        × (symbol_of k.arguments ≡ str_append "s" symbol)
  unfolding static_atoken call_text
  deployed_symbol lib file w k h =
      let (atoken, e₀, h) =
        >>=-eq-ok (or_throw Error.type_error (lookup "aDAI" c.config.tokens)) _ h in
      let (name, e₁, h) = >>=-eq-ok (call_text hre atoken "name" w) _ h in
      let (symbol, e₂, h) = >>=-eq-ok (call_text hre atoken "symbol" w) _ h in
      (
        atoken,
        symbol,
        or_throw-eq-ok _ _ e₀,
        or_throw-eq-ok _ _ e₂,
        ap (λ (k : Creation). symbol_of k.arguments) (sym (ok-injective h)),
      )

  verified_symbol :
      (w : World hre.Chain) (r : Request)
      → static_atoken_request hre big c w ≡ ok r
      → (atoken symbol : String) × (lookup "aDAI" c.config.tokens ≡ some atoken)
        × (hre.call_text w.chain atoken "symbol" ≡ some symbol)
        × (symbol_of r.arguments ≡ str_append "stat" symbol)
  unfolding static_atoken_request call_text
  verified_symbol w r h =
      let (atoken, e₀, h) =
        >>=-eq-ok (or_throw Error.type_error (lookup "aDAI" c.config.tokens)) _ h in
      let (at, e₁, h) = >>=-eq-ok (collateral_at hre big c "aDAI") _ h in
      let (erc20, e₂, h) = >>=-eq-ok (call_text hre at "erc20" w) _ h in
      let (name, e₃, h) = >>=-eq-ok (call_text hre atoken "name" w) _ h in
      let (symbol, e₄, h) = >>=-eq-ok (call_text hre atoken "symbol" w) _ h in
      (
        atoken,
        symbol,
        or_throw-eq-ok _ _ e₀,
        or_throw-eq-ok _ _ e₄,
        ap (λ (r : Request). symbol_of r.arguments) (sym (ok-injective h)),
      )

  -- If the symbols of the tokens have not changed since 2_deploy_collateral.ts made the wrapper of
  -- aDAI with k, the request r that 6_verify_collateral.ts sends for the wrapper has other arguments.
  pub static_atoken_request_ne :
      (lib file : String) (w₀ w : World hre.Chain) (k : Creation) (r : Request)
      → ((a : String) → hre.call_text w.chain a "symbol" ≡ hre.call_text w₀.chain a "symbol")
      → static_atoken hre big (context_of c lib file) "aDAI" w₀ ≡ ok k
      → static_atoken_request hre big c w ≡ ok r
      → r.arguments ≢ k.arguments
  static_atoken_request_ne lib file w₀ w k r kept made sent h =
      let (a, s, e₀, e₁, e₂) = deployed_symbol lib file w₀ k made in
      let (a', s', f₀, f₁, f₂) = verified_symbol w r sent in
      let same_token : a' ≡ a = some-injective _ _ (sym f₀ ∙ e₀) in
      let same : s' ≡ s =
        some-injective _ _
          (sym f₁ ∙ ap (λ x. hre.call_text w.chain x "symbol") same_token ∙ kept a ∙ e₁) in
      prefixes_ne s (sym e₂ ∙ sym (ap symbol_of h) ∙ f₂ ∙ ap (str_append "stat") same)
