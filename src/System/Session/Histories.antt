-- ===== src/System/Session/Histories.antt =====
-- The client over its whole life: any history of sessions, answers of the server and data changes.
use tpc_api.Prelude.{ℕ, String, Option, none, some, List, [], ◌∷◌, Eq, Exception}
use tpc_api.Prelude.{string_eq}
use tpc_api.Double.{Double}
use tpc_api.System.Client.{on_subscription_data_received}
use tpc_api.System.Discovery.{References, browse_async}
use tpc_api.System.Subscription.{
  Subscription, Request, Answer, Result, create_monitored_items, on_item_created, on_item_deleted,
  release,
}
use tpc_api.System.Session.{Session, Thrown, Event, initialize_monitored_items}
use tpc_api.System.Subscription.Lifecycle.{exception_of}

-- `activated` is a session that is activated, up to the end of its task: what browsing a node throws
-- and gives, and what is thrown in the task. The next four are callbacks of the library, with what the
-- handlers of the informations and of the errors throw where they are invoked.
pub data Action {ℓ κ} (R N : Type ℓ) (W : Type κ) : Type (ℓ ⊔ κ) where
  activated : (N → Option String) → (N → List R) → Thrown → Action R N W
  subscribed : (N → Option String) → Option Exception → Answer → Action R N W
  item_created : N → Option Exception → Option Exception → Answer → Action R N W
  item_deleted : N → Option Exception → Action R N W
  subscription_deleted : ℕ → Action R N W
  changed : N → List W → Action R N W

-- On a client that has no subscription the callbacks do not come.
abbrev pub on_subscription {ℓ κ ρ} :
    {N : Type ℓ} {W : Type κ} (V : Type ρ)
    → (Subscription N → Option (Result N V))
    → Session N W
    → Option (Session N W)
on_subscription V f s = elim s.subscription [
  | none ↦ some s
  | some x ↦ elim (f x) [
    | none ↦ none
    | some (x', requests, events) ↦ some (record s { subscription = some x' })
  ]
]

-- The state in which the task of a session ends.
abbrev pub state_of {ℓ κ} :
    {N : Type ℓ} {W : Type κ}
    → Option (Session N W × List (Request N) × List (Event N))
    → Option (Session N W)
state_of none = none
state_of (some (s, requests, events)) = some s

module _ {ℓ κ} {R N C : Type ℓ} {W : Type κ} (api : References R N C) (objects_folder : N)
    (to_string : N → String) ⦃ec : Eq C⦄ ⦃en : Eq N⦄ ⦃d : Double W⦄ where
  -- None stands for a program that std::terminate has ended.
  unfoldable pub act : Action R N W → Session N W → Option (Session N W)
  act (activated refuses results t) s = state_of (
      initialize_monitored_items api (browse_async (λ n. exception_of (refuses n)) results)
        objects_folder s t)
  act (subscribed refuses on_error answer) s =
      on_subscription W (λ x. create_monitored_items refuses on_error x answer) s
  act (item_created node on_info on_error answer) s =
      on_subscription W (λ x. on_item_created to_string on_info on_error node x answer) s
  act (item_deleted node on_info) s =
      on_subscription W (λ x. on_item_deleted to_string on_info node x) s
  act (subscription_deleted id) s = on_subscription W (λ x. some (release x id, [], [])) s
  act (changed node values) s =
      some (record s { client = (on_subscription_data_received s.client node values).0 })

  abbrev pub step : Action R N W → Option (Session N W) → Option (Session N W)
  step action none = none
  step action (some s) = act action s

  unfoldable pub run : List (Action R N W) → Option (Session N W) → Option (Session N W)
  run [] s = s
  run (action ∷ actions) s = run actions (step action s)
