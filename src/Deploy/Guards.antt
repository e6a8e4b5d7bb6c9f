-- ===== src/Deploy/Guards.antt =====
-- common/blockchain-utils.ts and scripts/deployment/utils.ts: what the scripts read and test before
-- they deploy.
pub mod Valid
use reserve_protocol.Base.{
  String, ◌≡◌, Bool, true, false, not, ◌&&◌, ◌||◌, Option, none, some, List, [], ◌∷◌, if◌then◌else◌,
}
use text.Mathlib.Text.{◌==◌ as str_eq, starts_with}
use reserve_protocol.Base.Int.{ℤ, pos}
use reserve_protocol.Base.Text.{lookup, codes, is_empty}
use reserve_protocol.BigNumber.{BigNumbers}
use reserve_protocol.Numbers
use reserve_protocol.Numbers.Parse.{text as text_of, whole, bn, fp}
use reserve_protocol.Errors.{Error, Result, ok, err, ◌>>=◌, ◌>>◌, or_throw}
use reserve_protocol.Config.{IComponents, IImplementations}
use reserve_protocol.Deploy.Store.{IPrerequisites, IDeployments}
use reserve_protocol.Chain.{Hardhat, World, call_number}

abbrev pub throw_if : Bool → Error → Result (Unit {0})
throw_if true e = err e
throw_if false e = ok tt

-- `if (!address) throw`: undefined and the empty text are falsy
abbrev pub require_truthy : Error → Option String → Result String
require_truthy e none = err e
require_truthy e (some a) = if is_empty a then err e else ok a

-- one of the addresses is missing
unfoldable pub lacks_implementations : IImplementations → Bool
lacks_implementations i =
    is_empty i.main
    || (is_empty i.trade
        || (is_empty i.components.asset_registry
            || (is_empty i.components.backing_manager
                || (is_empty i.components.basket_handler
                    || (is_empty i.components.broker
                        || (is_empty i.components.distributor
                            || (is_empty i.components.furnace
                                || (is_empty i.components.rtoken_trader
                                    || (is_empty i.components.rsr_trader
                                        || (is_empty i.components.rtoken
                                            || is_empty i.components.st_rsr))))))))))

module _ (hre : Hardhat) where
  -- `eth_chainId`, or `net_version` if that throws; a text in base 16 is turned into base 10.
  unfoldable pub ask_chain_id : (String → Option String) → Result String
  ask_chain_id send = do
    id ← elim (send "eth_chainId") [
      | some id ↦ ok id
      | none ↦ or_throw Error.provider_error (send "net_version")
    ]
    throw_if (is_empty id) Error.provider_error
    if starts_with id "0x" then or_throw Error.number_error (hre.hex_to_decimal id) else ok id

  unfoldable pub get_chain_id : World hre.Chain → Result String
  get_chain_id w = ask_chain_id (hre.send w.chain)

  abbrev pub is_valid_contract : World hre.Chain → String → Bool
  is_valid_contract w a = hre.has_code w.chain a

  -- `if (!(await isValidContract(hre, address))) throw`
  abbrev pub require_contract : World hre.Chain → String → String → Result (Unit {0})
  require_contract w label a =
      throw_if (not (is_valid_contract w a)) (Error.contract_not_found label)

  unfoldable pub validate_prerequisites : IDeployments → World hre.Chain → Result (Unit {0})
  validate_prerequisites d w = do
    throw_if
        (is_empty d.prerequisites.gnosis_easy_auction
          || is_empty d.prerequisites.rsr
          || is_empty d.prerequisites.rsr_feed)
        (Error.missing_address "prerequisites")
    require_contract w "RSR" d.prerequisites.rsr
    require_contract w "RSR_FEED" d.prerequisites.rsr_feed
    require_contract w "GNOSIS_EASY_AUCTION" d.prerequisites.gnosis_easy_auction

  -- The loop over the keys goes on after an invalid one; it has no other effect.
  unfoldable pub valid_components : IComponents → World hre.Chain → Bool
  valid_components c w =
      is_valid_contract w c.asset_registry
      && (is_valid_contract w c.backing_manager
          && (is_valid_contract w c.basket_handler
              && (is_valid_contract w c.broker
                  && (is_valid_contract w c.distributor
                      && (is_valid_contract w c.furnace
                          && (is_valid_contract w c.rsr_trader
                              && (is_valid_contract w c.rtoken_trader
                                  && (is_valid_contract w c.rtoken
                                      && is_valid_contract w c.st_rsr))))))))

  unfoldable pub validate_implementations : IDeployments → World hre.Chain → Result (Unit {0})
  validate_implementations d w = do
    throw_if (lacks_implementations d.implementations) (Error.missing_address "implementations")
    require_contract w "Main" d.implementations.main
    require_contract w "Trade" d.implementations.trade
    throw_if (not (valid_components d.implementations.components w))
        (Error.contract_not_found "Component")

  module _ (big : BigNumbers) where
    unfoldable pub price_of : ℤ → ℤ → Option ℤ
    price_of answer decimals = Numbers.◌>>=◌ (fp big (whole answer)) λ scaled.
        Numbers.◌>>=◌ (bn big (whole (pos 10)))
          λ ten. Numbers.◌>>=◌ (big.pow ten decimals) λ unit. big.div scaled unit

    unfoldable pub get_current_price : Option String → World hre.Chain → Result ℤ
    unfolding price_of
    get_current_price chainlink_addr w = do
      feed ← require_truthy (Error.missing_address "chainlink") chainlink_addr
      answer ← call_number hre feed "latestAnswer" w
      decimals ← call_number hre feed "decimals" w
      or_throw Error.number_error (price_of answer decimals)

    -- A long timeout on testnets. `chainId == 1` converts the decimal text, so it holds for "1".
    unfoldable pub get_oracle_timeout : String → Result ℤ
    get_oracle_timeout chain_id =
        or_throw Error.number_error
          (bn big (text_of (codes (if str_eq chain_id "1" then "86400" else "4294967296"))))
