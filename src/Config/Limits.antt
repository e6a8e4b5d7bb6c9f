-- ===== src/Config/Limits.antt =====
-- The system constants of common/configuration.ts, and the RToken configurations against them.
use reserve_protocol.Base.{
  ◌^◌, String, ◌≡◌, refl, sym, ◌∙◌, subst, ◌↔◌, ◌⊎◌, inl, inr, true, false, Option, none, some,
  arith, All, Bool-cases, ◌≢◌,
}
use mathlib.Core.Option.{some-injective}
use text.Mathlib.Text.{◌==◌ as str_eq}
use text.Mathlib.TextEquality.{eq_iff}
use reserve_protocol.Base.Int.{ℤ, pos, ◌+ℤ◌, ◌≤ℤ◌}
use reserve_protocol.Base.Text.{Dict, lookup, lookup-All}
use reserve_protocol.BigNumber.{BigNumbers, IsBigNumbers}
use reserve_protocol.Errors.{Error, ok, err, or_throw, >>=-eq-ok, or_throw-eq-ok}
use reserve_protocol.Config.{IConfig, get_network_config}
use reserve_protocol.Config.Networks.{network_config}
use reserve_protocol.Config.RToken.{IrToken, rtoken_config, select_rtoken, get_rtoken_config}
use reserve_protocol.Config.Laws.{published, rtoken_config-published}

abbrev pub max_trade_slippage : ℤ
max_trade_slippage = pos (10 ^ 18)

abbrev pub max_backing_buffer : ℤ
max_backing_buffer = pos (10 ^ 18)

abbrev pub max_ratio : ℤ
max_ratio = pos (10 ^ 18)

abbrev pub max_issuance_rate : ℤ
max_issuance_rate = pos (10 ^ 18)

abbrev pub max_trade_volume : ℤ
max_trade_volume = pos (10 ^ 48)

abbrev pub max_min_trade_volume : ℤ
max_min_trade_volume = pos (10 ^ 29)

abbrev pub max_trading_delay : ℤ
max_trading_delay = pos 31_536_000

abbrev pub max_auction_length : ℤ
max_auction_length = pos 604_800

abbrev pub max_period : ℤ
max_period = pos 31_536_000

abbrev pub max_unstaking_delay : ℤ
max_unstaking_delay = pos 31_536_000

-- Each parameter is at most the system constant for it, and the freezes are in order.
pub record IsWithin (c : IConfig) : Type 0 where
  pub min_trade_volume : c.min_trade_volume ≤ℤ max_min_trade_volume
  pub rtoken_max_trade_volume : c.rtoken_max_trade_volume ≤ℤ max_trade_volume
  pub volumes : c.min_trade_volume ≤ℤ c.rtoken_max_trade_volume
  pub freezes : c.short_freeze ≤ℤ c.long_freeze
  pub reward_period : c.reward_period ≤ℤ max_period
  pub reward_ratio : c.reward_ratio ≤ℤ max_ratio
  pub unstaking_delay : c.unstaking_delay ≤ℤ max_unstaking_delay
  pub rewards : (c.reward_period +ℤ c.reward_period) ≤ℤ c.unstaking_delay
  pub trading_delay : c.trading_delay ≤ℤ max_trading_delay
  pub auction_length : (pos 1 ≤ℤ c.auction_length) × (c.auction_length ≤ℤ max_auction_length)
  pub backing_buffer : c.backing_buffer ≤ℤ max_backing_buffer
  pub max_trade_slippage : c.max_trade_slippage ≤ℤ max_trade_slippage
  pub issuance_rate : c.issuance_rate ≤ℤ max_issuance_rate

select_rtoken-eq-ok :
    (name : String) (o : Option (Dict IrToken)) {t : IrToken}
    → select_rtoken name o ≡ ok t
    → (d : Dict IrToken) × (o ≡ some d) × (lookup name d ≡ some t)
select_rtoken-eq-ok name none h = cc
select_rtoken-eq-ok name (some d) h = (d, refl, or_throw-eq-ok _ _ h)

published-IsWithin : All (λ e. All (λ t. IsWithin t.1.config.params) e.1) published
unfolding ◌+ℤ◌
published-IsWithin = omega arith

key_of : (j k : String) → str_eq j k ≡ true → k ≡ j
key_of j k h = sym ((eq_iff j k).0 h)

ne_of : (j k : String) → str_eq j k ≡ false → k ≢ j
ne_of j k h e = cc ((eq_iff j k).1 (sym e))

or_throw-ne-type_error :
    (name : String) (o : Option IrToken)
    → or_throw (Error.rtoken_unavailable name) o ≢ err Error.type_error
or_throw-ne-type_error name none h = cc
or_throw-ne-type_error name (some t) h = cc

abbrev FailsByType : String → String → Type 0
FailsByType chain_id name =
    (get_rtoken_config published chain_id name ≡ err Error.type_error)
    ↔ ((chain_id ≡ "default") ⊎ (chain_id ≡ "3"))

module _ (name : String) where
  fails_default : FailsByType "default" name
  unfolding get_rtoken_config network_config
  fails_default = (λ h. inl refl, λ h. refl)

  fails_3 : FailsByType "3" name
  unfolding get_rtoken_config network_config
  fails_3 = (λ h. inr refl, λ h. refl)

  found_31337 : FailsByType "31337" name
  unfolding get_rtoken_config network_config
  found_31337 = (
    λ h. absurd (or_throw-ne-type_error name _ h),
    λ h. elim h [
      | inl e ↦ ground (arith, eq_iff "31337" "default")
      | inr e ↦ ground (arith, eq_iff "31337" "3")
    ],
  )

  found_1 : FailsByType "1" name
  unfolding get_rtoken_config network_config
  found_1 = (
    λ h. absurd (or_throw-ne-type_error name _ h),
    λ h. elim h [
      | inl e ↦ ground (arith, eq_iff "1" "default")
      | inr e ↦ ground (arith, eq_iff "1" "3")
    ],
  )

  found_5 : FailsByType "5" name
  unfolding get_rtoken_config network_config
  found_5 = (
    λ h. absurd (or_throw-ne-type_error name _ h),
    λ h. elim h [
      | inl e ↦ ground (arith, eq_iff "5" "default")
      | inr e ↦ ground (arith, eq_iff "5" "3")
    ],
  )

  type_error_iff : (chain_id : String) → FailsByType chain_id name
  unfolding get_rtoken_config network_config
  type_error_iff k = elim (Bool-cases (str_eq "default" k)) [
    | inl e ↦ rw (key_of "default" k e) fails_default
    | inr a ↦ elim (Bool-cases (str_eq "31337" k)) [
      | inl e ↦ rw (key_of "31337" k e) found_31337
      | inr b ↦ elim (Bool-cases (str_eq "3" k)) [
        | inl e ↦ rw (key_of "3" k e) fails_3
        | inr c ↦ elim (Bool-cases (str_eq "1" k)) [
          | inl e ↦ rw (key_of "1" k e) found_1
          | inr d ↦ elim (Bool-cases (str_eq "5" k)) [
            | inl e ↦ rw (key_of "5" k e) found_5
            | inr f ↦
                rw (a, b, c, d, f)
                  (
                    λ h. cc,
                    λ h. elim h [
                      | inl e ↦ absurd (ne_of "default" k a e)
                      | inr e ↦ absurd (ne_of "3" k c e)
                    ],
                  )
          ]
        ]
      ]
    ]
  ]

-- Every configuration that `getRTokenConfig` returns from the loaded table is within the system
-- constants: the trade volumes, the reward ratio, the delays, the auction length (which is not
-- zero), the backing buffer, the slippage and the issuance rate; the short freeze is at most the
-- long one, and two reward periods fit into the unstaking delay.
pub get_rtoken_config-IsWithin :
    (big : BigNumbers) (laws : IsBigNumbers big) (table : Dict (Dict IrToken))
    (chain_id name : String) (t : IrToken)
    → rtoken_config big ≡ some table
    → get_rtoken_config table chain_id name ≡ ok t
    → IsWithin t.config.params
unfolding get_rtoken_config
get_rtoken_config-IsWithin big laws table chain_id name t loaded h =
    let same = some-injective _ _ (sym loaded ∙ rtoken_config-published big laws) in
    let (network, _, selected) = >>=-eq-ok (get_network_config chain_id) _ h in
    let (d, found, named) = select_rtoken-eq-ok name (lookup chain_id table) selected in
    lookup-All (λ r. IsWithin r.config.params) name d
      (lookup-All (λ e. All (λ r. IsWithin r.1.config.params) e) chain_id published
        published-IsWithin (subst (λ x. lookup chain_id x ≡ some d) same found))
      named

-- `getRTokenConfig` fails with a TypeError, and not with a message of its own, exactly for the
-- chain ids "default" and "3": they have a network configuration and no RToken configuration.
pub get_rtoken_config-type_error_iff :
    (big : BigNumbers) (laws : IsBigNumbers big) (table : Dict (Dict IrToken))
    (chain_id name : String)
    → rtoken_config big ≡ some table
    → (get_rtoken_config table chain_id name ≡ err Error.type_error)
      ↔ ((chain_id ≡ "default") ⊎ (chain_id ≡ "3"))
get_rtoken_config-type_error_iff big laws table chain_id name loaded =
    let same = some-injective _ _ (sym loaded ∙ rtoken_config-published big laws) in
    rw same (type_error_iff name chain_id)
