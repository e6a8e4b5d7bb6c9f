-- ===== src/Config/RToken.antt =====
-- scripts/deployment/phase3-rtoken/rTokenConfig.ts
use reserve_protocol.Base.{ℕ, ◌*◌, String, Option, none, some, [], ◌∷◌}
use reserve_protocol.Base.Int.{ℤ, pos}
use reserve_protocol.Base.Text.{Dict, lookup, codes}
use reserve_protocol.BigNumber.{BigNumbers}
use reserve_protocol.Numbers.{◌>>=◌}
use reserve_protocol.Numbers.Parse.{text, whole, bn, fp}
use reserve_protocol.Errors.{Error, Result, ok, err}
use reserve_protocol.Errors
use reserve_protocol.Config.{IConfig, IrTokenConfig, IGovParams, get_network_config}

-- `IrTokenConfig & IGovParams`
pub record IrToken : Type 0 where
  pub config : IrTokenConfig
  pub gov : IGovParams

abbrev pub rtoken_name : String
rtoken_name = "RTKN"

module _ (big : BigNumbers) where
  -- The `params` literal, which differs between the networks in `tradingDelay` only.
  unfoldable pub params : String → Option IConfig
  params trading_delay_text = do
    min_trade_volume ← fp big (text (codes "1e4"))
    rtoken_max_trade_volume ← fp big (text (codes "1e6"))
    rtoken_dist ← bn big (whole (pos 40))
    rsr_dist ← bn big (whole (pos 60))
    reward_period ← bn big (text (codes "86400"))
    reward_ratio ← fp big (text (codes "0.007701635339554948"))
    unstaking_delay ← bn big (text (codes "1209600"))
    trading_delay ← bn big (text (codes trading_delay_text))
    auction_length ← bn big (text (codes "900"))
    backing_buffer ← fp big (text (codes "0.0001"))
    max_trade_slippage ← fp big (text (codes "0.01"))
    short_freeze ← bn big (text (codes "259200"))
    long_freeze ← bn big (text (codes "2592000"))
    issuance_rate ← fp big (text (codes "0.00025"))
    scaling_redemption_rate ← fp big (text (codes "0.05"))
    redemption_rate_floor ← fp big (text (codes "1e6"))
    some (record {
      dist = record { rtoken_dist = rtoken_dist; rsr_dist = rsr_dist };
      min_trade_volume = min_trade_volume;
      rtoken_max_trade_volume = rtoken_max_trade_volume;
      short_freeze = short_freeze;
      long_freeze = long_freeze;
      reward_period = reward_period;
      reward_ratio = reward_ratio;
      unstaking_delay = unstaking_delay;
      trading_delay = trading_delay;
      auction_length = auction_length;
      backing_buffer = backing_buffer;
      max_trade_slippage = max_trade_slippage;
      issuance_rate = issuance_rate;
      scaling_redemption_rate = scaling_redemption_rate;
      redemption_rate_floor = redemption_rate_floor;
    })

  unfoldable pub rtkn : String → ℕ → ℕ → Option ℤ → Option IrToken
  unfolding params
  rtkn trading_delay voting_delay voting_period timelock = do
    p ← params trading_delay
    delay ← bn big (whole (pos voting_delay))
    period ← bn big (whole (pos voting_period))
    threshold ← bn big (whole (pos 50_000))
    quorum ← bn big (whole (pos 10))
    timelock_delay ← timelock
    some (record {
      config = record { name = "RToken"; symbol = "RTKN"; mandate = "mandate"; params = p };
      gov = record {
        voting_delay = delay;
        voting_period = period;
        proposal_threshold_as_micro_percent = threshold;
        quorum_percent = quorum;
        timelock_delay = timelock_delay;
      };
    })

  -- the three entries of `rTokenConfig`, each with its only RToken
  unfoldable pub rtkn_mainnet : Option IrToken
  unfolding rtkn
  rtkn_mainnet = rtkn "14400" 7200 14400 (bn big (whole (pos 2)) >>= λ two. big.pow two (pos 47))

  unfoldable pub rtkn_localhost : Option IrToken
  unfolding rtkn
  rtkn_localhost = rtkn "14400" 7200 14400 (bn big (whole (pos (60 * 60 * 24 * 4))))

  unfoldable pub rtkn_goerli : Option IrToken
  unfolding rtkn
  rtkn_goerli = rtkn "0" 5 100 (bn big (whole (pos 1)))

  -- The module's table: its literal is evaluated when the module is loaded, so a throw in one
  -- number leaves no table.
  unfoldable pub rtoken_config : Option (Dict (Dict IrToken))
  unfolding rtkn_mainnet rtkn_localhost rtkn_goerli
  rtoken_config = do
    mainnet ← rtkn_mainnet
    localhost ← rtkn_localhost
    goerli ← rtkn_goerli
    some (
        ("1", ("RTKN", mainnet) ∷ [])
        ∷ ("31337", ("RTKN", localhost) ∷ [])
        ∷ ("5", ("RTKN", goerli) ∷ [])
        ∷ [])

-- `rTokenConfig[chainId][name]`: reading a key of `undefined` is a TypeError.
abbrev pub select_rtoken : String → Option (Dict IrToken) → Result IrToken
select_rtoken name none = err Error.type_error
select_rtoken name (some d) = Errors.or_throw (Error.rtoken_unavailable name) (lookup name d)

unfoldable pub get_rtoken_config : Dict (Dict IrToken) → String → String → Result IrToken
unfolding get_network_config lookup
get_rtoken_config table chain_id name =
    Errors.◌>>=◌ (get_network_config chain_id) λ network. select_rtoken name (lookup chain_id table)
