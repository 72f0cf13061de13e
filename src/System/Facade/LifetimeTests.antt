-- ===== src/System/Facade/LifetimeTests.antt =====
-- A session, its channels and their changes, and two requests of a field, for a new facade.
use tpc_api.Prelude.{ℕ, String, ◌≡◌, refl, none, some, List, [], ◌∷◌, replicate, std_exception}
use tpc_api.Prelude.{nat_eq}
use tpc_api.Prelude.{string_eq}
use tpc_api.Double.Fixed.{fixed}
use tpc_api.Prelude.Int.{ℤ, pos}
use tpc_api.Analytics.Models.{cartesian, cylindric, Measurement}
use tpc_api.System.Subscription
use tpc_api.System.Facade.Creation.{default_basis, new_facade, create-new_facade}
use tpc_api.Prelude.UnorderedMap
use tpc_api.System.Client.{average, on_subscription_data_received}
use tpc_api.System.FrameReceiver
use tpc_api.System.Calibration.{get_frame_request}
use tpc_api.System.Discovery.{
  start, browse_async, is_wanted, find_child, find_slot_ids, append_channels, browse_slots,
  discover_slots, discover_target, discover_folders,
}
use tpc_api.System.Subscription.{
  good, bad, monitor_each, on_item_created, release, create_monitored_items,
}
use tpc_api.System.Session.{
  Session, create_subscription, on_discovered, finish_discovery, initialize_monitored_items,
}
use tpc_api.System.Session.AddressSpace.{plain_api, answers, refuses}
use tpc_api.System.Session.Histories.{
  Action, activated, subscribed, item_created, subscription_deleted, changed, act, run,
}
use tpc_api.System.Session.Invariant.{IsSession}
use tpc_api.Analytics.SvdSolver.{Eigen}
use tpc_api.Analytics.Manager.{get_field_data}
use tpc_api.Analytics.Manager.Reading.{IsReading}
use tpc_api.System.FieldWorker.{CalculationData, calculate}
use tpc_api.System.FieldWorker.History
use tpc_api.System.Facade.Fields.{run-IsReading}
use tpc_api.System.Facade.Lifetime.{IsBounded, run-IsBounded}

abbrev address : String
address = "opc.tcp://x"

-- The channels are found and subscribed to, the second one is refused, and both have changes before the
-- subscription ends.
abbrev whole_life : List (Action (ℕ × ℕ × String) ℕ ℤ)
whole_life =
    activated refuses answers
      (record { by_discovery_handlers = none; by_library = none; by_error_handlers = none })
    ∷ subscribed (λ node. none) none (good 3)
    ∷ item_created 4 (some (std_exception "full")) none (good 7)
    ∷ item_created 5 none none (bad "BadNodeIdUnknown")
    ∷ changed 4 (pos 9000 ∷ pos 11000 ∷ [])
    ∷ changed 5 []
    ∷ changed 5 (pos 3000 ∷ [])
    ∷ subscription_deleted 3
    ∷ []

abbrev to_name : ℕ → String
to_name node = "node"

abbrev last_session : Session ℕ ℤ
last_session = record {
  client = record {
    channels_info = (4, "W1R") ∷ (5, "E1R") ∷ [];
    frame_receiver = record {
      received = (4, average (pos 9000 ∷ pos 11000 ∷ [])) ∷ (5, average (pos 3000 ∷ [])) ∷ [];
      capacity = 36;
    };
  };
  subscription =
      some (record { node_ids = 4 ∷ 5 ∷ []; subscription_id = none; monitored_item_ids = [] });
}

reached :
    run plain_api 0 to_name whole_life (some (new_facade ℕ ℕ ℤ address).client.session)
    ≡ some last_session
unfolding run act initialize_monitored_items finish_discovery on_discovered create_subscription
    Subscription.create_subscription discover_folders discover_target discover_slots browse_slots
    append_channels find_slot_ids find_child is_wanted browse_async create_monitored_items
    monitor_each on_item_created release on_subscription_data_received FrameReceiver.add_back start
    UnorderedMap.emplace UnorderedMap.insert_or_assign UnorderedMap.contains UnorderedMap.find
reached = refl

run-IsBounded_example :
    IsSession 36 last_session × IsBounded 36 (get_frame_request last_session.client)
run-IsBounded_example =
    run-IsBounded {U = ℕ} plain_api 0 to_name address (new_facade ℕ ℕ ℤ address) whole_life
      last_session (create-new_facade ℕ ℕ ℤ address) reached

-- Stands for Eigen: as many coefficients as columns, all of them 1.
abbrev ones : Eigen ℤ
ones = record {
  unset = pos 7;
  solve = λ rows columns matrix threshold values. replicate columns (pos 1000);
}

abbrev measured : Measurement ℤ
measured = record {
  point_components = record {
    components = (pos 0, pos 3000, pos 1000);
    coordinate_type = cartesian;
  };
  field_components = record {
    components = (pos 5000, pos 0, pos 1000);
    coordinate_type = cylindric;
  };
}

abbrev asked : ℕ → CalculationData ℤ
asked r = record {
  grid = (3, 3, 2);
  measurements = measured ∷ [];
  radius = pos r;
  length = pos 1000;
}

-- A calculation that gives a field, one for a radius of 0, and a request that comes too early.
abbrev two_requests : List (History.Action ℤ)
two_requests =
    History.request (asked 2000)
    ∷ History.work
    ∷ History.work
    ∷ History.work
    ∷ History.request (asked 0)
    ∷ History.work
    ∷ History.work
    ∷ History.request (asked 0)
    ∷ History.work
    ∷ History.work
    ∷ History.work
    ∷ []

run-IsReading_example :
    let made = new_facade ℕ ℕ ℤ address in
    let s = (History.run (calculate ones 10 (pos 1)) two_requests ([], made.field_worker)).1 in
    (s.manager.basis_collection ≡ default_basis ℕ ℕ ℤ) × IsReading (get_field_data s.manager)
run-IsReading_example =
    run-IsReading ones 10 (pos 1) address (new_facade ℕ ℕ ℤ address) two_requests
      (create-new_facade ℕ ℕ ℤ address)
