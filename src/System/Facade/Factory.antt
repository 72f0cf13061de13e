-- ===== src/System/Facade/Factory.antt =====
-- src/system/tpc.cpp, src/system/client/client.cpp and src/system/client/subscription.cpp: the factory
-- methods and the constructors.
use tpc_api.Double.{Double}
use tpc_api.Prelude.{
  ℕ, String, false, Option, none, some, [], Expected, expected, unexpected, ◌>>=◌, Exception,
  std_exception, other, Outcome, returned, thrown, failed,
}
use tpc_api.Prelude.{string_eq}
use tpc_api.Prelude.UnorderedMap.{UnorderedMap}
use tpc_api.Analytics.Models.Basis.{
  default_modes_count, default_basis_r, default_basis_phi, default_basis_z,
}
use tpc_api.Analytics.Manager
use tpc_api.Analytics.Manager.{Manager, create_default_basis}
use tpc_api.System.FrameReceiver
use tpc_api.System.Subscription
use tpc_api.System.Subscription.{Subscription}
use tpc_api.System.Connection
use tpc_api.System.Connection.{Connection}
use tpc_api.System.Session.{client_error, tagged, Session}
use tpc_api.System.Polling.{Polling}
use tpc_api.System.FieldWorker.{CalculationData, Worker, not_started}
use Prim.Native.String.{◌++◌ as concat}
use tpc_api.System.Facade.Handlers.{
  subscription_handlers, SubscriptionHandlers, Captured, Handlers, no_handlers,
  initialize_start_handlers,
}

-- The client as its constructor leaves it.
pub record ClientParts {ℓ κ} (N : Type ℓ) (W : Type κ) : Type (ℓ ⊔ κ) where
  pub session : Session N W
  pub connection : Connection
  pub subscription_handlers : SubscriptionHandlers
  pub handlers : Handlers Captured

-- `throw std::runtime_error{result.error()};` if the result is an error.
abbrev pub or_throw {ℓ} : {A : Type ℓ} → Outcome A → Outcome A
or_throw (failed error) = thrown (std_exception error)
or_throw outcome = outcome

-- The two `catch` clauses of a factory method.
abbrev pub caught {ℓ} : {A : Type ℓ} → (String → String) → String → Outcome A → Outcome A
caught message unknown (thrown (std_exception what)) = failed (message what)
caught message unknown (thrown other) = failed unknown
caught message unknown outcome = outcome

abbrev pub outcome_of {ℓ} : {A : Type ℓ} → Expected A → Outcome A
outcome_of (expected a) = returned a
outcome_of (unexpected error) = failed error

abbrev pub frame_capacity : ℕ
frame_capacity = 36

abbrev pub library_outcome : Option Exception → Outcome (Unit {0})
library_outcome none = returned tt
library_outcome (some x) = thrown x

-- `opcua_client` and `parameters` are what the library throws when it makes its client and the
-- parameters of a subscription.
module _ {ℓ κ} {N : Type ℓ} {W : Type κ} (opcua_client parameters : Option Exception) where
  -- The constructor of `Client`.
  unfoldable pub construct_client : String → Outcome (ClientParts N W)
  construct_client endpoint = do
    _made ← library_outcome opcua_client
    subscription ← or_throw (outcome_of (Subscription.create {N = N} parameters))
    receiver ← or_throw (outcome_of (FrameReceiver.create {N = N} {W = W} frame_capacity))
    returned (record {
      session = record {
        client = record { channels_info = []; frame_receiver = receiver };
        subscription = some subscription;
      };
      connection = Connection.create endpoint;
      subscription_handlers = subscription_handlers;
      handlers = no_handlers;
    })

  -- `Client::create`
  unfoldable pub create_client : String → Outcome (ClientParts N W)
  create_client endpoint =
      caught (λ what. tagged client_error (concat "Failed to create TPC client: " what))
        (tagged client_error "Failed to create TPC client: unknown error")
        (construct_client endpoint)

-- The facade, with no handlers of its users yet.
pub record Facade {ℓ κ ρ} (U : Type ℓ) (N : Type κ) (W : Type ρ) : Type (ℓ ⊔ κ ⊔ ρ) where
  pub client : ClientParts N W
  pub handlers : Handlers U
  pub polling : Polling (UnorderedMap String W)
  pub field_worker : Worker (Manager W) (CalculationData W)

module _ {ℓ κ ρ} {U : Type ℓ} {N : Type κ} {W : Type ρ} ⦃d : Double W⦄
    (opcua_client parameters : Option Exception) where
  -- The constructor of `TPC`.
  unfoldable pub construct : String → Outcome (Facade U N W)
  construct endpoint = do
    client ← or_throw (create_client {N = N} {W = W} opcua_client parameters endpoint)
    basis ←
        create_default_basis {W = W} (record { function = some default_basis_r })
          (record { function = some default_basis_phi })
          (record { function = some default_basis_z }) default_modes_count
    manager ← or_throw (Manager.create basis)
    returned (record {
      client = record client { handlers = initialize_start_handlers client.handlers };
      handlers = no_handlers;
      polling = record {
        polling_worker = none;
        polling_interval_ms = 0;
        polling_interval_revision = 0;
        stopped_workers = [];
        events = [];
      };
      field_worker = record {
        manager = manager;
        pending = none;
        in_progress = false;
        phase = not_started;
        stop_requested = false;
        events = [];
      };
    })

  unfoldable pub create : String → Outcome (Facade U N W)
  create endpoint =
      caught (λ what. tagged client_error (concat "Failed to create TPC device: " what))
        "Failed to create TPC: unknown error" (construct endpoint)
