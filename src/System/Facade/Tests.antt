-- ===== src/System/Facade/Tests.antt =====
-- A new facade, its events at two handlers of a user, and an export of a field that is not valid.
use tpc_api.Prelude.{
  ℕ, String, ◌≡◌, true, false, none, some, List, [], ◌∷◌, ◌==◌, if◌then◌else◌, std_exception,
  Effect,
}
use tpc_api.Prelude.{nat_eq}
use tpc_api.Double.Fixed.{fixed}
use tpc_api.Prelude.Int.{ℤ, pos}
use tpc_api.Analytics.Models.{cylindric}
use tpc_api.Analytics.FieldCollection.{FieldCollection}
use tpc_api.Analytics.Vtk.Export.{Disk}
use tpc_api.System.Subscription
use tpc_api.System.Session.{
  Event, error_occurred, warning_occurred, info_occurred, connection_state_changed, connected,
}
use tpc_api.System.Facade.Handlers.{Handlers, emit_subscription}
use tpc_api.System.Facade.Factory.{Facade, create}
use tpc_api.System.Facade.Creation.{new_facade, create-new_facade, Created, create_lem}
use tpc_api.System.Facade.Events.{deliver_each, emit_each, Reported, emit_each-deliver}

abbrev address : String
address = "opc.tcp://x"

create_lem_example : Created ℕ ℕ ℤ address none none (create none none address)
create_lem_example = create_lem ℕ ℕ ℤ address none none

-- A handler writes its number and the event, and 0 throws.
abbrev record_event : ℕ → Event ℕ → Effect (List (ℕ × Event ℕ))
record_event handler event s =
    if handler == 0 then (s, some (std_exception "zero")) else ((handler, event) ∷ s, none)

abbrev users : Handlers ℕ
users = record {
  error_occurred = record { next_id = 3; handlers = (1, 10) ∷ (2, 0) ∷ [] };
  warning_occurred = record { next_id = 2; handlers = (1, 11) ∷ [] };
  info_occurred = record { next_id = 2; handlers = (1, 12) ∷ [] };
  connection_state_changed = record { next_id = 2; handlers = (1, 13) ∷ [] };
  initialization_data_received = record { next_id = 1; handlers = [] };
}

abbrev four_events : List (Event ℕ)
four_events =
    connection_state_changed connected
    ∷ warning_occurred "w"
    ∷ error_occurred "e"
    ∷ info_occurred "after the exception"
    ∷ []

abbrev refused : Subscription.Event ℕ ℤ
refused = Subscription.error_occurred "Cannot monitor ns=2;i=4: BadNodeIdUnknown"

emit_each-deliver_example :
    let made = new_facade ℕ ℕ ℤ address in
    (emit_each record_event users made.client.handlers four_events []
      ≡ deliver_each record_event users four_events [])
    × Reported record_event users {A = ℤ}
        (λ node value s. (s, none))
        refused
        (emit_subscription record_event users
          (λ node value s. (s, none))
          made.client.subscription_handlers
          made.client.handlers
          refused
          [])
        []
emit_each-deliver_example =
    emit_each-deliver address (new_facade ℕ ℕ ℤ address) record_event users
      (λ node value s. (s, none)) four_events refused [] (create-new_facade ℕ ℕ ℤ address)

abbrev read_only_disk : Disk ℤ
read_only_disk = record {
  has_parent_path = λ path. true;
  create_directories = λ path. none;
  opens = λ path. false;
  writes = λ path lines. false;
  path_string = λ path. path;
  to_string = λ n. "n";
}

abbrev stored_field : FieldCollection ℤ
stored_field = record {
  dimension_ = 3;
  coordinates_type = cylindric;
  field_type = cylindric;
  coordinates = pos 1 ∷ pos 2 ∷ pos 3 ∷ [];
  field = pos 4 ∷ pos 5 ∷ pos 6 ∷ [];
}

abbrev with_field : Facade ℕ ℕ ℤ
with_field =
    let made = new_facade ℕ ℕ ℤ address in
    record made {
      field_worker = record made.field_worker {
        manager = record made.field_worker.manager { field_data = some stored_field };
      };
    }
