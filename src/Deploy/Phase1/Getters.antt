-- ===== src/Deploy/Phase1/Getters.antt =====
-- The addresses of a deployment file, by the script that fills them in.
use reserve_protocol.Base.{List, [], ◌∷◌}
use reserve_protocol.Deploy.Phase1.{
  ComponentKey, asset_registry, backing_manager, basket_handler, broker, distributor, furnace,
  rsr_trader, rtoken_trader, rtoken, st_rsr,
}
use reserve_protocol.Deploy.Phase1.Progress.{Getter}

abbrev pub component_at : ComponentKey → Getter
component_at asset_registry d = d.implementations.components.asset_registry
component_at backing_manager d = d.implementations.components.backing_manager
component_at basket_handler d = d.implementations.components.basket_handler
component_at broker d = d.implementations.components.broker
component_at distributor d = d.implementations.components.distributor
component_at furnace d = d.implementations.components.furnace
component_at rsr_trader d = d.implementations.components.rsr_trader
component_at rtoken_trader d = d.implementations.components.rtoken_trader
component_at rtoken d = d.implementations.components.rtoken
component_at st_rsr d = d.implementations.components.st_rsr

abbrev pub with_prerequisites : List Getter
with_prerequisites =
    (λ d. d.prerequisites.rsr)
    ∷ (λ d. d.prerequisites.rsr_feed)
    ∷ (λ d. d.prerequisites.gnosis_easy_auction)
    ∷ []

abbrev pub with_libraries : List Getter
with_libraries =
    (λ d. d.oracle_lib)
    ∷ (λ d. d.permit_lib)
    ∷ (λ d. d.rewardable_lib)
    ∷ (λ d. d.trading_lib)
    ∷ with_prerequisites

-- one list for each write of 2_deploy_implementations.ts
abbrev pub with_main : List Getter
with_main = (λ d. d.implementations.main) ∷ with_libraries

abbrev pub with_trade : List Getter
with_trade = (λ d. d.implementations.trade) ∷ with_main

abbrev pub with_asset_registry : List Getter
with_asset_registry = component_at asset_registry ∷ with_trade

abbrev pub with_backing_manager : List Getter
with_backing_manager = component_at backing_manager ∷ with_asset_registry

abbrev pub with_basket_handler : List Getter
with_basket_handler = component_at basket_handler ∷ with_backing_manager

abbrev pub with_broker : List Getter
with_broker = component_at broker ∷ with_basket_handler

abbrev pub with_distributor : List Getter
with_distributor = component_at distributor ∷ with_broker

abbrev pub with_furnace : List Getter
with_furnace = component_at furnace ∷ with_distributor

abbrev pub with_traders : List Getter
with_traders = component_at rtoken_trader ∷ component_at rsr_trader ∷ with_furnace

abbrev pub with_rtoken : List Getter
with_rtoken = component_at rtoken ∷ with_traders

abbrev pub with_implementations : List Getter
with_implementations = component_at st_rsr ∷ with_rtoken

abbrev pub with_asset : List Getter
with_asset = (λ d. d.rsr_asset) ∷ with_implementations

abbrev pub with_facade : List Getter
with_facade = (λ d. d.facade_read) ∷ with_asset

abbrev pub with_deployer : List Getter
with_deployer = (λ d. d.deployer) ∷ with_facade

abbrev pub with_facade_write : List Getter
with_facade_write = (λ d. d.facade_write) ∷ (λ d. d.facade_write_lib) ∷ with_deployer

-- all the addresses of the file
abbrev pub complete : List Getter
complete = (λ d. d.facade_act) ∷ with_facade_write
