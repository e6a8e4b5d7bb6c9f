-- ===== src/Config/Tests.antt =====
-- The RToken configurations, loaded over exact integers.
use reserve_protocol.Base.{◌^◌, String, ◌≡◌, refl, ◌↔◌, ◌⊎◌, some}
use reserve_protocol.Base.Text.{lookup}
use reserve_protocol.BigNumber.{integers, integers-IsBigNumbers}
use reserve_protocol.Errors.{Error, err}
use reserve_protocol.Config.{get_network_config}
use reserve_protocol.Config.Networks.{network_config}
use reserve_protocol.Config.RToken.{IrToken, rtoken_config, get_rtoken_config}
use reserve_protocol.Config.Laws.{published, published_token, rtoken_config-published}
use reserve_protocol.Config.Limits.{
  IsWithin, get_rtoken_config-IsWithin, get_rtoken_config-type_error_iff,
}

rtoken_config-published_example : rtoken_config integers ≡ some published
rtoken_config-published_example = rtoken_config-published integers integers-IsBigNumbers

abbrev mainnet_token : IrToken
mainnet_token = published_token 14_400 7200 14_400 (2 ^ 47)

abbrev chain_3 : String
chain_3 = "3"

get_rtoken_config-IsWithin_example : IsWithin mainnet_token.config.params
unfolding get_rtoken_config get_network_config network_config lookup
get_rtoken_config-IsWithin_example =
    get_rtoken_config-IsWithin integers integers-IsBigNumbers published "1" "RTKN" mainnet_token
      rtoken_config-published_example refl

get_rtoken_config-type_error_iff_example :
    (get_rtoken_config published "3" "RTKN" ≡ err Error.type_error)
    ↔ ((chain_3 ≡ "default") ⊎ (chain_3 ≡ "3"))
get_rtoken_config-type_error_iff_example =
    get_rtoken_config-type_error_iff integers integers-IsBigNumbers published "3" "RTKN"
      rtoken_config-published_example
