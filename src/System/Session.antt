-- ===== src/System/Session.antt =====
-- src/system/client/client.cpp and include/tpc/system/client/client.hpp: what the `Client` does in a
-- session with the server. The tasks of `initialize_monitored_items` wait for the answers of the
-- server between their stages; each stage is one step on the state that it meets.
pub mod Discovery
pub mod Samples
pub mod Readings
pub mod Histories
pub mod Invariant
pub mod AddressSpace
mod Tests
use tpc_api.Prelude.{
  String, Option, none, some, List, [], ◌∷◌, ◌++◌, Eq, Expected, expected, unexpected, Exception,
  std_exception, other, Outcome, returned, thrown, failed, undefined,
}
use tpc_api.Prelude.UnorderedMap.{UnorderedMap}
use tpc_api.System.Client.{Client}
use tpc_api.System.Subscription
use tpc_api.System.Subscription.{Subscription, Request, unless_thrown}
use tpc_api.System.Discovery.{References, discover_folders}
use Prim.Native.String.{◌++◌ as concat}

pub data ConnectionState : Type 0 where
  session_activated connected inactive session_closed disconnected : ConnectionState

-- The events of the client.
pub data Event {ℓ} (N : Type ℓ) : Type ℓ where
  error_occurred : String → Event N
  warning_occurred : String → Event N
  info_occurred : String → Event N
  connection_state_changed : ConnectionState → Event N
  initialization_data_received : UnorderedMap N String → Event N

-- `core::definitions::CLIENT_ERROR` and `CLIENT_INFO`
abbrev pub client_error : String
client_error = "Client error"

abbrev pub client_info : String
client_info = "Client info"

-- `std::format("[{}]: {}", tag, message)`
abbrev pub tagged : String → String → String
tagged tag message = concat "[" (concat tag (concat "]: " message))

module _ {ℓ} {N : Type ℓ} where
  unfoldable pub on_subscription_error_occurred : String → Event N
  on_subscription_error_occurred message = error_occurred (tagged client_error message)

  unfoldable pub on_subscription_info_occurred : String → Event N
  on_subscription_info_occurred message = info_occurred (tagged client_info message)

  unfoldable pub on_opcua_session_activated : Event N
  on_opcua_session_activated = connection_state_changed session_activated

  unfoldable pub on_opcua_connected : Event N
  on_opcua_connected = connection_state_changed connected

  unfoldable pub on_opcua_inactive : Event N
  on_opcua_inactive = connection_state_changed inactive

  unfoldable pub on_opcua_session_closed : Event N
  on_opcua_session_closed = connection_state_changed session_closed

  unfoldable pub on_opcua_disconnected : Event N
  on_opcua_disconnected = connection_state_changed disconnected

  -- The channels in the order in which the map is walked.
  abbrev pub keys_of {κ} : {V : Type κ} → UnorderedMap N V → List N
  keys_of [] = []
  keys_of ((node_id, name) ∷ nodes) = node_id ∷ keys_of nodes

-- The parts of the client that a session changes.
pub record Session {ℓ κ} (N : Type ℓ) (W : Type κ) : Type (ℓ ⊔ κ) where
  pub client : Client N W
  pub subscription : Option (Subscription N)

-- What a stage leaves: the state, the calls of the library, and what it throws.
abbrev pub Stage {ℓ κ} : Type ℓ → Type κ → Type (ℓ ⊔ κ)
Stage N W = Session N W × List (Request N) × Option Exception

-- What `onSessionActivated` calls, after the task was started.
unfoldable pub on_session_activated {ℓ} : {N : Type ℓ} → Expected (Unit {0}) → List (Event N)
on_session_activated (expected u) = on_opcua_session_activated ∷ []
on_session_activated (unexpected error) = error_occurred error ∷ on_opcua_session_activated ∷ []

-- The last argument is what the call of the library throws.
unfoldable pub create_subscription {ℓ} :
    {N : Type ℓ}
    → Option (Subscription N)
    → UnorderedMap N String
    → Option Exception
    → Option (Subscription N) × List (Request N) × Option Exception
create_subscription none discovery by_library =
    (none, [], some (std_exception "Subscription is null"))
create_subscription (some s) discovery by_library =
    let (s', requests, thrown_) =
      Subscription.create_subscription by_library s (keys_of discovery) in
    (some s', requests, thrown_)

-- What is thrown in a task: by the handlers of `initialization_data_received_`, by the call of the library
-- for a subscription, and by the handlers of `error_occurred_`.
pub record Thrown : Type 0 where
  pub by_discovery_handlers : Option Exception
  pub by_library : Option Exception
  pub by_error_handlers : Option Exception

module _ {ℓ κ} {N : Type ℓ} {W : Type κ} where
  -- The continuation of the discovery.
  unfoldable pub on_discovered :
      Session N W → UnorderedMap N String → Option Exception → Option Exception → Stage N W
  on_discovered s discovery (some x) by_library =
      (record s { client = record s.client { channels_info = discovery } }, [], some x)
  on_discovered s discovery none by_library =
      let (subscription, requests, thrown_) =
        create_subscription s.subscription discovery by_library in
      (
        record s {
          client = record s.client { channels_info = discovery };
          subscription = subscription;
        },
        requests,
        thrown_,
      )

  -- The end of the task, with the events of its last stage; `upon_error` reports what it throws. None stands
  -- for `std::terminate`: another object than a std::exception, or what a handler of the error throws,
  -- leaves a noexcept function.
  abbrev pub upon_error :
      Stage N W
      → List (Event N)
      → Option Exception
      → Option (Session N W × List (Request N) × List (Event N))
  upon_error (s, requests, none) events by_error_handlers = some (s, requests, events)
  upon_error (s, requests, some (std_exception what)) events by_error_handlers =
      unless_thrown by_error_handlers
        (s, requests, events ++ (error_occurred (tagged client_error what) ∷ []))
  upon_error (s, requests, some other) events by_error_handlers = none

  -- The task after the discovery, by its outcome; a task has a value or an exception.
  unfoldable pub finish_discovery :
      Session N W
      → Outcome (UnorderedMap N String)
      → Thrown
      → Option (Session N W × List (Request N) × List (Event N))
  finish_discovery s (returned discovery) t =
      upon_error (on_discovered s discovery t.by_discovery_handlers t.by_library)
        (initialization_data_received discovery ∷ []) t.by_error_handlers
  finish_discovery s (thrown x) t = upon_error (s, [], some x) [] t.by_error_handlers
  finish_discovery s (failed error) t = none
  finish_discovery s undefined t = none

-- The task that `initialize_monitored_items` starts, from the answers of the server on.
unfoldable pub initialize_monitored_items {ℓ κ} :
    {R N C : Type ℓ} {W : Type κ} (api : References R N C) ⦃ec : Eq C⦄ ⦃en : Eq N⦄
    → (N → Outcome (List R))
    → N
    → Session N W
    → Thrown
    → Option (Session N W × List (Request N) × List (Event N))
initialize_monitored_items api browse objects_folder s t =
    finish_discovery s (discover_folders api browse objects_folder) t
