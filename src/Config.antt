-- ===== src/Config.antt =====
-- common/configuration.ts: the interfaces and `getNetworkConfig`.
pub mod Networks
pub mod RToken
pub mod Laws
pub mod Limits
mod Tests
use reserve_protocol.Base.{String, Bool, true, false, ◌||◌, Option, none, some, List, [], ◌∷◌}
use text.Mathlib.Text.{◌==◌ as str_eq}
use reserve_protocol.Base.Int.{ℤ}
use reserve_protocol.Base.Text.{lookup}
use reserve_protocol.Errors.{missing_network, Result, or_throw}
use reserve_protocol.Config.Networks.{INetworkConfig, network_config}

-- `getNetworkConfig`; the scripts make the same test of `networkConfig[chainId]`.
unfoldable pub get_network_config : String → Result INetworkConfig
unfolding network_config lookup
get_network_config chain_id = or_throw missing_network (lookup chain_id network_config)

-- `developmentChains.includes`
unfoldable pub is_development_chain : String → Bool
is_development_chain name = str_eq name "hardhat" || str_eq name "localhost"

pub record IRevenueShare : Type 0 where
  pub rtoken_dist : ℤ
  pub rsr_dist : ℤ

pub record IConfig : Type 0 where
  pub dist : IRevenueShare
  pub min_trade_volume : ℤ
  pub rtoken_max_trade_volume : ℤ
  pub short_freeze : ℤ
  pub long_freeze : ℤ
  pub reward_period : ℤ
  pub reward_ratio : ℤ
  pub unstaking_delay : ℤ
  pub trading_delay : ℤ
  pub auction_length : ℤ
  pub backing_buffer : ℤ
  pub max_trade_slippage : ℤ
  pub issuance_rate : ℤ
  pub scaling_redemption_rate : ℤ
  pub redemption_rate_floor : ℤ

pub record IComponents : Type 0 where
  pub asset_registry : String
  pub backing_manager : String
  pub basket_handler : String
  pub broker : String
  pub distributor : String
  pub furnace : String
  pub rsr_trader : String
  pub rtoken_trader : String
  pub rtoken : String
  pub st_rsr : String

pub record IImplementations : Type 0 where
  pub main : String
  pub trade : String
  pub components : IComponents

pub record IGovParams : Type 0 where
  pub voting_delay : ℤ
  pub voting_period : ℤ
  pub proposal_threshold_as_micro_percent : ℤ
  pub quorum_percent : ℤ
  pub timelock_delay : ℤ

pub record IrTokenConfig : Type 0 where
  pub name : String
  pub symbol : String
  pub mandate : String
  pub params : IConfig

pub record IBackupInfo : Type 0 where
  pub backup_unit : String
  pub diversity_factor : ℤ
  pub backup_collateral : List String

pub record IrTokenSetup : Type 0 where
  pub assets : List String
  pub primary_basket : List String
  pub weights : List ℤ
  pub backups : List IBackupInfo
