-- ===== src/System/Facade/Creation.antt =====
-- What the factory methods leave, and what they report.
use tpc_api.Prelude.{
  String, ◌≡◌, refl, false, Option, none, some, [], ◌∷◌, arith, Eq, Exception, std_exception, other,
  Outcome, returned, failed,
}
use tpc_api.Double.{Double}
use tpc_api.Analytics.Models.{cylindric}
use tpc_api.Analytics.Models.Basis.{default_basis_r, default_basis_phi, default_basis_z}
use tpc_api.Analytics.Basis
use tpc_api.Analytics.Basis.{BasisCollection}
use tpc_api.Analytics.Manager
use tpc_api.Analytics.Manager.{Manager, create_default_basis}
use tpc_api.Analytics.Manager.Reading.{IsManager}
use tpc_api.System.FrameReceiver
use tpc_api.System.FrameReceiver.History.{IsReceiver}
use tpc_api.System.Subscription
use tpc_api.System.Subscription.Lifecycle.{unsubscribed}
use tpc_api.System.Connection.Histories.{disconnected}
use tpc_api.System.Polling.Histories.{idle}
use tpc_api.System.FieldWorker.{not_started}
use tpc_api.System.Session.{client_error, tagged}
use tpc_api.System.Facade.Handlers.{no_handlers, initialize_start_handlers, subscription_handlers}
use tpc_api.System.Facade.Factory.{Facade, construct_client, create_client, construct, create}
use Prim.Native.String.{◌++◌ as concat}

abbrev pub device_error : String → String
device_error what = tagged client_error (concat "Failed to create TPC device: " what)

abbrev pub client_failure : String → String
client_failure what = tagged client_error (concat "Failed to create TPC client: " what)

module _ {ℓ κ ρ} (U : Type ℓ) (N : Type κ) (W : Type ρ) ⦃d : Double W⦄ where
  abbrev pub default_basis : BasisCollection W
  default_basis = record {
    arity = 3;
    modes = 10;
    basis_type = cylindric;
    basis =
        record { function = some default_basis_r }
        ∷ record { function = some default_basis_phi }
        ∷ record { function = some default_basis_z }
        ∷ [];
  }

  -- A facade from which every history of its parts starts.
  abbrev pub new_facade : String → Facade U N W
  new_facade endpoint = record {
    client = record {
      session = record {
        client = record {
          channels_info = [];
          frame_receiver = record { received = []; capacity = 36 };
        };
        subscription = some unsubscribed;
      };
      connection = disconnected endpoint;
      subscription_handlers = subscription_handlers;
      handlers = initialize_start_handlers no_handlers;
    };
    handlers = no_handlers;
    polling = idle;
    field_worker = record {
      manager = record {
        basis_collection = default_basis;
        field_data = none;
        field_data_valid = false;
        stored_coefficients = [];
      };
      pending = none;
      in_progress = false;
      phase = not_started;
      stop_requested = false;
      events = [];
    };
  }

  pub create-new_facade :
      (endpoint : String)
      → create {U = U} {N = N} {W = W} none none endpoint ≡ returned (new_facade endpoint)
  unfolding create construct create_client construct_client Subscription.create FrameReceiver.create
      create_default_basis Manager.create Basis.create Basis.add_back Basis.empty
  create-new_facade endpoint = refl

  module _ ⦃e : Eq N⦄ where
    -- What a caller gets, by what the library throws: first when it makes its client, then when it makes
    -- the parameters of the subscription.
    abbrev pub Created :
        String → Option Exception → Option Exception → Outcome (Facade U N W) → Type (ℓ ⊔ κ ⊔ ρ)
    Created endpoint none none outcome =
        (outcome ≡ returned (new_facade endpoint))
        × IsManager (new_facade endpoint).field_worker.manager
        × IsReceiver (new_facade endpoint).client.session.client.frame_receiver
    Created endpoint none (some x) outcome =
        outcome
        ≡ failed (device_error (client_failure "Failed to create subscription: unknown error"))
    Created endpoint (some (std_exception what)) parameters outcome =
        outcome ≡ failed (device_error (client_failure what))
    Created endpoint (some other) parameters outcome =
        outcome ≡ failed (device_error (client_failure "unknown error"))

    -- `TPC::create` throws nothing. If the library throws nothing, it gives a facade with the parts from
    -- which all their histories start: a client that is not connected, knows no channel, and has room
    -- for 36 samples; a manager with the three default basis functions, ten modes, and no field; no
    -- worker; the handlers of the client's events; and no handler of its own. Else the error names
    -- what failed.
    pub create_lem :
        (endpoint : String) (opcua_client parameters : Option Exception)
        → Created endpoint opcua_client parameters (create opcua_client parameters endpoint)
    unfolding create construct create_client construct_client Subscription.create
        FrameReceiver.create
    create_lem endpoint none none =
        (create-new_facade endpoint, λ valid. cc, (tt, omega arith, omega arith))
    create_lem endpoint none (some x) = refl
    create_lem endpoint (some (std_exception what)) parameters = refl
    create_lem endpoint (some other) parameters = refl
