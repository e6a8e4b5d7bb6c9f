-- ===== src/Confirm/Assets.antt =====
-- 1_confirm_assets.ts accepts exactly the assets and collateral whose prices agree.
use mathlib.Core.Option.{some-injective}
use reserve_protocol.Base.{
  subst, String, ◌≡◌, refl, sym, ◌∙◌, ap, ◌↔◌, Bool, false, some, List, [], ◌∷◌, All, arith,
}
use reserve_protocol.Base.Int.{ℤ, pos, ◌+ℤ◌, ◌-ℤ◌, ◌≤ℤ◌, tdiv}
use reserve_protocol.Base.Text.{lookup}
use reserve_protocol.BigNumber.{BigNumbers, IsBigNumbers}
use reserve_protocol.Errors.{Error, Result, ok, or_throw, or_throw-eq-ok, >>=-eq-ok, ok-injective}
use reserve_protocol.Deploy.Guards.{throw_if}
use reserve_protocol.Confirm.{
  price_bounds, out_of_bounds, current_price, confirm_asset, confirm_each, peg_product,
  confirm_collateral, confirm_assets, open_network, values,
}
use reserve_protocol.Deploy.Store.{
  IAssetCollDeployments, asset_coll, get_asset_coll_deployment_filename, get_deployment_file,
}
use reserve_protocol.Chain.{Hardhat, World, call_number, call_text}
use reserve_protocol.Chain.Calls.{Contracts}

-- The price x is at most an n-th of the current price away from it.
abbrev pub IsNear : ℤ → ℤ → ℤ → Type 0
IsNear n current x =
    (part : ℤ) × (tdiv current n ≡ some part) × ((current -ℤ part) ≤ℤ x) × (x ≤ℤ (current +ℤ part))

module _ (hre : Hardhat) (contracts : Contracts hre) (big : BigNumbers)
    (laws : IsBigNumbers big) where
  -- the two comparisons
  within_iff :
      (x a b : ℤ) → (out_of_bounds hre contracts big x (a, b) ≡ false) ↔ (a ≤ℤ x) × (x ≤ℤ b)
  unfolding out_of_bounds
  within_iff x a b = ground (arith, laws.lt_law x a, laws.gt_law x b)

  -- the bounds of a price, where it can be divided
  price_bounds_iff :
      (current n : ℤ) (bounds : ℤ × ℤ)
      → (price_bounds hre contracts big current n ≡ ok bounds)
        ↔ (part : ℤ) × (tdiv current n ≡ some part) × ((current -ℤ part, current +ℤ part) ≡ bounds)
  unfolding price_bounds
  price_bounds_iff current n bounds = (
    λ h.
        let (part, e, h) = >>=-eq-ok (or_throw Error.number_error (big.div current n)) _ h in
        (
          part,
          sym (laws.div_law current n) ∙ or_throw-eq-ok _ _ e,
          ap (λ a. (a, current +ℤ part)) (sym (laws.sub_law current part))
              ∙ ap (λ b. (big.sub current part, b)) (sym (laws.add_law current part))
              ∙ ok-injective h,
        ),
    λ (part, e, same).
        rw (laws.div_law current n, e, laws.sub_law current part, laws.add_law current part)
          (ap ok same),
  )

  near_iff :
      (current n x : ℤ) (bounds : ℤ × ℤ)
      → price_bounds hre contracts big current n ≡ ok bounds
      → (out_of_bounds hre contracts big x bounds ≡ false) ↔ IsNear n current x
  near_iff current n x bounds h =
      let (part, e, same) = (price_bounds_iff current n bounds).0 h in
      subst (λ b. (out_of_bounds hre contracts big x b ≡ false) ↔ IsNear n current x) same
        (
          λ o. let l = (within_iff x _ _).0 o in (part, e, l.0, l.1),
          λ (part', e', l₁, l₂). (within_iff x _ _).1 (
              subst (λ q. ((current -ℤ q) ≤ℤ x) × (x ≤ℤ (current +ℤ q)))
                (some-injective _ _ (sym e' ∙ e)) (l₁, l₂)),
        )

  -- Where a price is near another one, it has bounds.
  near_bounds :
      (current n x : ℤ)
      → IsNear n current x
      → (bounds : ℤ × ℤ) × (price_bounds hre contracts big current n ≡ ok bounds)
  near_bounds current n x (part, e, l₁, l₂) =
      ((current -ℤ part, current +ℤ part), (price_bounds_iff current n _).1 (part, e, refl))

  throw_if_iff : (b : Bool) (e : Error) → (throw_if b e ≡ ok tt) ↔ (b ≡ false)
  throw_if_iff b e = ground arith

  current_price_iff :
      (w : World hre.Chain) (a : String) (current : ℤ)
      → (current_price hre contracts big a w ≡ ok current)
        ↔ (contracts.price w.chain a ≡ some (false, current))
  unfolding current_price
  current_price_iff w a current = (
    λ h.
        let (answer, e, h) =
          >>=-eq-ok (or_throw (Error.call_failed "price") (contracts.price w.chain a)) _ h in
        let (u, t, h) = >>=-eq-ok (throw_if answer.0 (Error.check_failed "oracle")) _ h in
        let fine = (throw_if_iff answer.0 _).0 t in
        or_throw-eq-ok _ _ e
        ∙ ap (λ b. some (b, answer.1)) fine
        ∙ ap (λ c. some (false, c)) (ok-injective h),
    λ e. rw e,
  )

  -- The asset has a current price that is no fallback, and its fallback price is near.
  pub record IsAssetConfirmed (w : World hre.Chain) (a : String) : Type 0 where
    pub current : ℤ
    pub price : contracts.price w.chain a ≡ some (false, current)
    pub fallback : ℤ
    pub fallback_price : hre.call_number w.chain a "fallbackPrice" ≡ some fallback
    pub near : IsNear (pos 20) current fallback

  confirm_asset_iff :
      (w : World hre.Chain) (a : String)
      → (confirm_asset hre contracts big a w ≡ ok tt) ↔ IsAssetConfirmed w a
  unfolding confirm_asset call_number
  confirm_asset_iff w a = (
    λ h.
        let (fallback, e₀, h) = >>=-eq-ok (call_number hre a "fallbackPrice" w) _ h in
        let (current, e₁, h) = >>=-eq-ok (current_price hre contracts big a w) _ h in
        let (bounds, e₂, h) = >>=-eq-ok (price_bounds hre contracts big current (pos 20)) _ h in
        record {
          current = current;
          price = (current_price_iff w a current).0 e₁;
          fallback = fallback;
          fallback_price = or_throw-eq-ok _ _ e₀;
          near = (near_iff current (pos 20) fallback bounds e₂).0 ((throw_if_iff _ _).0 h);
        },
    λ c.
        let (bounds, e₂) = near_bounds c.current (pos 20) c.fallback c.near in
        rw (
          c.fallback_price,
          (current_price_iff w a c.current).1 c.price,
          e₂,
          (near_iff c.current (pos 20) c.fallback bounds e₂).1 c.near,
        ),
  )

  -- The collateral has a current price that is no fallback, and both the product of its three rates
  -- and its fallback price are near.
  pub record IsCollateralConfirmed (w : World hre.Chain) (c : String) : Type 0 where
    pub erc20 : String
    pub token : hre.call_text w.chain c "erc20" ≡ some erc20
    pub symbol : String
    pub named : hre.call_text w.chain erc20 "symbol" ≡ some symbol
    pub current : ℤ
    pub price : contracts.price w.chain c ≡ some (false, current)
    pub product : ℤ
    pub pegged : peg_product hre contracts big c w ≡ ok product
    pub near_peg : IsNear (pos 100) current product
    pub fallback : ℤ
    pub fallback_price : hre.call_number w.chain c "fallbackPrice" ≡ some fallback
    pub near : IsNear (pos 100) current fallback

  confirm_collateral_iff :
      (w : World hre.Chain) (c : String)
      → (confirm_collateral hre contracts big c w ≡ ok tt) ↔ IsCollateralConfirmed w c
  unfolding confirm_collateral call_number call_text
  confirm_collateral_iff w c = (
    λ h.
        let (erc20, e₀, h) = >>=-eq-ok (call_text hre c "erc20" w) _ h in
        let (symbol, e₁, h) = >>=-eq-ok (call_text hre erc20 "symbol" w) _ h in
        let (current, e₂, h) = >>=-eq-ok (current_price hre contracts big c w) _ h in
        let (product, e₃, h) = >>=-eq-ok (peg_product hre contracts big c w) _ h in
        let (bounds, e₄, h) = >>=-eq-ok (price_bounds hre contracts big current (pos 100)) _ h in
        let (u, e₅, h) =
          >>=-eq-ok
            (throw_if (out_of_bounds hre contracts big product bounds) (Error.check_failed "peg")) _
            h in
        let (fallback, e₆, h) = >>=-eq-ok (call_number hre c "fallbackPrice" w) _ h in
        record {
          erc20 = erc20;
          token = or_throw-eq-ok _ _ e₀;
          symbol = symbol;
          named = or_throw-eq-ok _ _ e₁;
          current = current;
          price = (current_price_iff w c current).0 e₂;
          product = product;
          pegged = e₃;
          near_peg = (near_iff current (pos 100) product bounds e₄).0 ((throw_if_iff _ _).0 e₅);
          fallback = fallback;
          fallback_price = or_throw-eq-ok _ _ e₆;
          near = (near_iff current (pos 100) fallback bounds e₄).0 ((throw_if_iff _ _).0 h);
        },
    λ k.
        let (bounds, e₄) = near_bounds k.current (pos 100) k.product k.near_peg in
        rw (
          k.token,
          k.named,
          (current_price_iff w c k.current).1 k.price,
          k.pegged,
          e₄,
          (near_iff k.current (pos 100) k.product bounds e₄).1 k.near_peg,
          k.fallback_price,
          (near_iff k.current (pos 100) k.fallback bounds e₄).1 k.near,
        ),
  )

  confirm_each_iff :
      (confirm : String → World hre.Chain → Result (Unit {0})) (P : String → Type 0)
      (w : World hre.Chain)
      → ((a : String) → (confirm a w ≡ ok tt) ↔ P a)
      → (addresses : List String)
      → (confirm_each hre contracts big confirm addresses w ≡ ok tt) ↔ All P addresses
  unfolding confirm_each
  confirm_each_iff confirm P w each [] = (λ h. tt, λ h. refl)
  confirm_each_iff confirm P w each (a ∷ rest) =
      ground (arith, each a, confirm_each_iff confirm P w each rest)

  -- On a chain with a configuration that is no development chain, and with the file d of assets and
  -- collateral, 1_confirm_assets.ts passes exactly if every asset has a fallback price within a
  -- twentieth of its current price, every collateral has the product of its rates and its fallback
  -- price within a hundredth, and no current price is a fallback.
  pub confirm_assets_iff :
      (w : World hre.Chain) (id : String) (d : IAssetCollDeployments)
      → open_network hre w ≡ ok id
      → lookup (get_asset_coll_deployment_filename id) w.files ≡ some (asset_coll d)
      → (confirm_assets hre contracts big w ≡ ok tt)
        ↔ All (IsAssetConfirmed w) (values d.assets)
          × All (IsCollateralConfirmed w) (values d.collateral)
  unfolding confirm_assets get_deployment_file
  confirm_assets_iff w id d network held =
      let (to₁, from₁) =
        confirm_each_iff (confirm_asset hre contracts big) (IsAssetConfirmed w) w
          (confirm_asset_iff w) (values d.assets) in
      let (to₂, from₂) =
        confirm_each_iff (confirm_collateral hre contracts big) (IsCollateralConfirmed w) w
          (confirm_collateral_iff w) (values d.collateral) in
      rw (network, held)
        (
          λ h.
              let (u, h₁, h₂) =
                >>=-eq-ok
                  (confirm_each hre contracts big (confirm_asset hre contracts big)
                    (values d.assets) w)
                  _ h in
              (to₁ h₁, to₂ h₂),
          λ (c₁, c₂). rw (from₁ c₁, from₂ c₂),
        )
