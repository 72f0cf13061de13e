-- ===== src/System/Facade/Handlers.antt =====
-- src/system/tpc.cpp: `initialize_start_handlers` and the handlers of the events of the client.
use tpc_api.Prelude.{String, none, Effect}
use tpc_api.Prelude.{string_eq}
use tpc_api.Prelude.UnorderedMap.{UnorderedMap}
use tpc_api.Utilities.EventHandler
use tpc_api.Utilities.EventHandler.{EventHandler}
use tpc_api.System.Subscription
use tpc_api.System.Session.{
  on_subscription_error_occurred, on_subscription_info_occurred, ConnectionState, Event,
  error_occurred, warning_occurred, info_occurred, connection_state_changed,
  initialization_data_received,
}

-- What a lambda of the facade or of the client captures.
pub data Captured : Type 0 where
  this : Captured

-- The events of an object, each with its handlers.
pub record Handlers {ℓ} (H : Type ℓ) : Type ℓ where
  pub error_occurred : EventHandler H
  pub warning_occurred : EventHandler H
  pub info_occurred : EventHandler H
  pub connection_state_changed : EventHandler H
  pub initialization_data_received : EventHandler H

unfoldable pub no_handlers {ℓ} : {H : Type ℓ} → Handlers H
unfolding EventHandler.initial
no_handlers = record {
  error_occurred = EventHandler.initial;
  warning_occurred = EventHandler.initial;
  info_occurred = EventHandler.initial;
  connection_state_changed = EventHandler.initial;
  initialization_data_received = EventHandler.initial;
}

-- The facade subscribes to four of the five events.
unfoldable pub initialize_start_handlers : Handlers Captured → Handlers Captured
unfolding EventHandler.subscribe
initialize_start_handlers client = record client {
  error_occurred = (EventHandler.subscribe client.error_occurred this).0;
  info_occurred = (EventHandler.subscribe client.info_occurred this).0;
  connection_state_changed = (EventHandler.subscribe client.connection_state_changed this).0;
  initialization_data_received =
      (EventHandler.subscribe client.initialization_data_received this).0;
}

-- The handlers of the events of the subscription.
pub record SubscriptionHandlers : Type 0 where
  pub data_received : EventHandler Captured
  pub error_occurred : EventHandler Captured
  pub info_occurred : EventHandler Captured

-- As the constructor of the client leaves them.
unfoldable pub subscription_handlers : SubscriptionHandlers
unfolding EventHandler.subscribe EventHandler.initial
subscription_handlers = record {
  data_received = (EventHandler.subscribe EventHandler.initial this).0;
  error_occurred = (EventHandler.subscribe EventHandler.initial this).0;
  info_occurred = (EventHandler.subscribe EventHandler.initial this).0;
}

-- A user's handler is a value `U`; `call` is what it does to the state `S` of the program.
module _ {ℓ κ ρ} {N : Type ℓ} {U : Type κ} {S : Type ρ} (call : U → Event N → Effect S)
    (facade : Handlers U) where
  unfoldable pub on_client_error : String → Effect S
  on_client_error err = EventHandler.invoke call facade.error_occurred (error_occurred err)

  unfoldable pub on_client_info : String → Effect S
  on_client_info info = EventHandler.invoke call facade.info_occurred (info_occurred info)

  unfoldable pub on_client_connection_state_changed : ConnectionState → Effect S
  on_client_connection_state_changed state =
      EventHandler.invoke call facade.connection_state_changed (connection_state_changed state)

  unfoldable pub on_client_initialization_data_received : UnorderedMap N String → Effect S
  on_client_initialization_data_received discovery_result =
      EventHandler.invoke call facade.initialization_data_received
        (initialization_data_received discovery_result)

  -- An event of the client, with its handlers. No code of the repository has a handler for its
  -- warnings.
  unfoldable pub emit : Handlers Captured → Event N → Effect S
  emit client (error_occurred err) =
      EventHandler.invoke (λ _. on_client_error) client.error_occurred err
  emit client (warning_occurred warning) =
      EventHandler.invoke (λ _ (w : String) s. (s, none)) client.warning_occurred warning
  emit client (info_occurred info) =
      EventHandler.invoke (λ _. on_client_info) client.info_occurred info
  emit client (connection_state_changed state) =
      EventHandler.invoke (λ _. on_client_connection_state_changed) client.connection_state_changed
        state
  emit client (initialization_data_received discovery) =
      EventHandler.invoke (λ _. on_client_initialization_data_received)
        client.initialization_data_received discovery

  -- An event of the subscription, with the handlers that the client has for it; `receive` is what
  -- `on_subscription_data_received` does.
  module _ {σ} {A : Type σ} (receive : N → A → Effect S) where
    unfoldable pub emit_subscription :
        SubscriptionHandlers → Handlers Captured → Subscription.Event N A → Effect S
    emit_subscription handlers client (Subscription.error_occurred message) =
        EventHandler.invoke (λ _ (m : String). emit client (on_subscription_error_occurred m))
          handlers.error_occurred message
    emit_subscription handlers client (Subscription.info_occurred message) =
        EventHandler.invoke (λ _ (m : String). emit client (on_subscription_info_occurred m))
          handlers.info_occurred message
    emit_subscription handlers client (Subscription.data_received node value) =
        EventHandler.invoke (λ _ (p : N × A). receive p.0 p.1) handlers.data_received (node, value)
