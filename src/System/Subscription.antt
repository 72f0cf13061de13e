-- ===== src/System/Subscription.antt =====
-- src/system/client/subscription.cpp: `Subscription`. Its operations are the two public methods and
-- the callbacks that it hands to the OPC UA library; each gives the new state, the calls it makes of
-- that library, and the events it invokes.
pub mod Lifecycle
mod Tests
use tpc_api.Prelude.{
  ℕ, String, Bool, false, Option, none, some, List, [], ◌∷◌, ◌++◌, ◌==◌, if◌then◌else◌, Expected,
  expected, unexpected, Exception, std_exception, other,
}
use tpc_api.Prelude.{nat_eq}
use Prim.Native.String.{◌++◌ as concat}

pub record Subscription {ℓ} (N : Type ℓ) : Type ℓ where
  pub node_ids : List N
  pub subscription_id : Option ℕ
  pub monitored_item_ids : List ℕ

-- `createSubscriptionAsync` and `createMonitoredItemDataChangeAsync`
pub data Request {ℓ} (N : Type ℓ) : Type ℓ where
  ask_subscription : Request N
  ask_monitored_item : ℕ → N → Request N

pub data Event {ℓ κ} (N : Type ℓ) (V : Type κ) : Type (ℓ ⊔ κ) where
  info_occurred : String → Event N V
  error_occurred : String → Event N V
  data_received : N → V → Event N V

-- What the server answers: an identifier, or a bad status with the message of its exception.
pub data Answer : Type 0 where
  good : ℕ → Answer
  bad : String → Answer

-- The state, the calls of the library, and the events.
abbrev pub Result {ℓ κ} : Type ℓ → Type κ → Type (ℓ ⊔ κ)
Result N V = Subscription N × List (Request N) × List (Event N V)

-- What the library throws when it makes the parameters is not passed on.
unfoldable pub create {ℓ} : {N : Type ℓ} → Option Exception → Expected (Subscription N)
create none = expected (record { node_ids = []; subscription_id = none; monitored_item_ids = [] })
create (some x) = unexpected "Failed to create subscription: unknown error"

-- `node_ids_` is replaced before the call of the library, which may throw. The state, the calls that were
-- taken, and what is thrown.
unfoldable pub create_subscription {ℓ} :
    {N : Type ℓ}
    → Option Exception
    → Subscription N
    → List N
    → Subscription N × List (Request N) × Option Exception
create_subscription none s channels_id =
    (record s { node_ids = channels_id }, ask_subscription ∷ [], none)
create_subscription (some x) s channels_id = (record s { node_ids = channels_id }, [], some x)

-- What a noexcept callback leaves whose last call is `invoke` of an event, by what the handlers throw. None
-- stands for `std::terminate`.
abbrev pub unless_thrown {ℓ} : {A : Type ℓ} → Option Exception → A → Option A
unless_thrown none a = some a
unless_thrown (some x) a = none

module _ {ℓ κ} {N : Type ℓ} {V : Type κ} where
  -- The loop over the nodes; the call of the library for a node may throw a std::exception, `refuses` says
  -- with what text.
  unfoldable pub monitor_each :
      (N → Option String) → ℕ → List N → List (Request N) × List (Event N V)
  monitor_each refuses id [] = ([], [])
  monitor_each refuses id (node ∷ nodes) = elim (refuses node) [
    | none ↦
        let (requests, events) = monitor_each refuses id nodes in
        (ask_monitored_item id node ∷ requests, events)
    | some what ↦ ([], error_occurred what ∷ [])
  ]

  -- The error of the loop, if there is one, is the last call.
  abbrev pub after_loop : Option Exception → Result N V → Option (Result N V)
  after_loop on_error (s, requests, []) = some (s, requests, [])
  after_loop on_error (s, requests, event ∷ events) =
      unless_thrown on_error (s, requests, event ∷ events)

  -- `on_error` is what the handlers of `error_occurred_` throw, out of the noexcept callback that makes this
  -- call.
  unfoldable pub create_monitored_items :
      (N → Option String) → Option Exception → Subscription N → Answer → Option (Result N V)
  create_monitored_items refuses on_error s (bad what) =
      unless_thrown on_error (s, [], error_occurred what ∷ [])
  create_monitored_items refuses on_error s (good id) =
      let (requests, events) = monitor_each refuses id s.node_ids in
      after_loop on_error (record s { subscription_id = some id }, requests, events)

  module _ (to_string : N → String) where
    abbrev pub item_created : N → Event N V
    item_created node = info_occurred (concat "Monitored item was created: " (to_string node))

    abbrev pub cannot_monitor : N → String → Event N V
    cannot_monitor node what =
        error_occurred (concat "Cannot monitor " (concat (to_string node) (concat ": " what)))

    -- The callback with the result for one node; `on_info` and `on_error` are what the handlers of the two
    -- events throw. A std::exception of the former is caught, after the item was stored.
    unfoldable pub on_item_created :
        Option Exception → Option Exception → N → Subscription N → Answer → Option (Result N V)
    on_item_created on_info on_error node s (bad what) =
        unless_thrown on_error (s, [], cannot_monitor node what ∷ [])
    on_item_created none on_error node s (good id) = some (
      record s { monitored_item_ids = s.monitored_item_ids ++ (id ∷ []) },
      [],
      item_created node ∷ [],
    )
    on_item_created (some (std_exception what)) on_error node s (good id) = unless_thrown on_error (
      record s { monitored_item_ids = s.monitored_item_ids ++ (id ∷ []) },
      [],
      item_created node ∷ cannot_monitor node what ∷ [],
    )
    on_item_created (some other) on_error node s (good id) = none

    unfoldable pub on_item_deleted : Option Exception → N → Subscription N → Option (Result N V)
    on_item_deleted on_info node s =
        unless_thrown on_info
          (s, [], info_occurred (concat "Monitored item was deleted: " (to_string node)) ∷ [])

  -- A data change goes to the handlers of `data_received_`; `handled` is what they throw.
  unfoldable pub on_data_change :
      Option Exception → Option Exception → N → V → Subscription N → Option (Result N V)
  on_data_change none on_error node value s = some (s, [], data_received node value ∷ [])
  on_data_change (some (std_exception what)) on_error node value s =
      unless_thrown on_error (s, [], data_received node value ∷ error_occurred what ∷ [])
  on_data_change (some other) on_error node value s = none

-- `subscription_id_ == subscription_id`
abbrev pub is_current : Option ℕ → ℕ → Bool
is_current none id = false
is_current (some current) id = current == id

unfoldable pub release {ℓ} : {N : Type ℓ} → Subscription N → ℕ → Subscription N
release s id =
    if is_current s.subscription_id id
    then record s { subscription_id = none; monitored_item_ids = [] }
    else s
