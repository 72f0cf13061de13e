-- ===== src/System/Session/Invariant.antt =====
-- What holds of the client over its whole life.
use tpc_api.Prelude.{
  ℕ, String, ◌≡◌, refl, ◌∙◌, inl, inr, Option, none, some, List, [], ◌∷◌, Bool-cases, Eq, Exception,
  std_exception, other, Outcome, returned, thrown, failed, undefined,
}
use tpc_api.Prelude.{string_eq}
use tpc_api.Double.{Double}
use tpc_api.Prelude.Defined.{Completes}
use tpc_api.Prelude.UnorderedMap.{UnorderedMap, IsMap}
use tpc_api.System.FrameReceiver.History.{IsReceiver, add_back-IsReceiver, add_back-capacity}
use tpc_api.System.Client.{Client, on_subscription_data_received}
use tpc_api.System.Discovery.{References, browse_async}
use tpc_api.System.Discovery.Names.{discover_folders-IsMap}
use tpc_api.System.Subscription
use tpc_api.System.Subscription.{
  Subscription, Answer, Result, good, bad, is_current, unless_thrown, after_loop,
  create_monitored_items, on_item_created, on_item_deleted, release,
}
use tpc_api.System.Session.{
  Session, Thrown, keys_of, Stage, Event, create_subscription, on_discovered, upon_error,
  finish_discovery, initialize_monitored_items,
}
use tpc_api.System.Subscription.Lifecycle.{exception_of}
use tpc_api.System.Session.Discovery.{browse_async-Completes}
use tpc_api.System.Session.Histories.{
  Action, activated, subscribed, item_created, item_deleted, subscription_deleted, changed,
  state_of, on_subscription, act, step, run,
}

abbrev pub AreNodes {ℓ} : {N : Type ℓ} ⦃e : Eq N⦄ → Option (Subscription N) → Type ℓ
AreNodes none = Unit
AreNodes {N} (some x) = (m : UnorderedMap N String) × IsMap m × (x.node_ids ≡ keys_of m)

module _ {ℓ} {N : Type ℓ} ⦃e : Eq N⦄ where
  create_subscription-AreNodes :
      (o : Option (Subscription N)) (discovery : UnorderedMap N String)
      (by_library : Option Exception)
      → IsMap discovery
      → AreNodes (create_subscription o discovery by_library).0
  unfolding create_subscription Subscription.create_subscription
  create_subscription-AreNodes none discovery by_library h = tt
  create_subscription-AreNodes (some x) discovery none h = (discovery, h, refl)
  create_subscription-AreNodes (some x) discovery (some thrown_) h = (discovery, h, refl)

module _ {ℓ} {N : Type ℓ} where
  -- A callback that keeps the nodes keeps the session.
  abbrev KeepsNodes {ρ} : {V : Type ρ} → Subscription N → Option (Result N V) → Type ℓ
  KeepsNodes x none = Unit
  KeepsNodes x (some (x', requests, events)) = x'.node_ids ≡ x.node_ids

  unless_thrown-KeepsNodes {ρ} :
      {V : Type ρ} (x : Subscription N) (on_error : Option Exception) (result : Result N V)
      → result.0.node_ids ≡ x.node_ids
      → KeepsNodes x (unless_thrown on_error result)
  unless_thrown-KeepsNodes x none result same = same
  unless_thrown-KeepsNodes x (some thrown_) result same = tt

  after_loop-KeepsNodes {ρ} :
      {V : Type ρ} (x : Subscription N) (on_error : Option Exception) (result : Result N V)
      → result.0.node_ids ≡ x.node_ids
      → KeepsNodes x (after_loop on_error result)
  after_loop-KeepsNodes x on_error (x', requests, []) same = same
  after_loop-KeepsNodes x on_error (x', requests, event ∷ events) same =
      unless_thrown-KeepsNodes x on_error (x', requests, event ∷ events) same

  subscribed_keeps {ρ} :
      (V : Type ρ) (refuses : N → Option String) (on_error : Option Exception) (x : Subscription N)
      (answer : Answer)
      → KeepsNodes x (create_monitored_items {V = V} refuses on_error x answer)
  unfolding create_monitored_items
  subscribed_keeps V refuses on_error x (good id) = after_loop-KeepsNodes x on_error _ refl
  subscribed_keeps V refuses on_error x (bad what) = unless_thrown-KeepsNodes x on_error _ refl

  created_keeps {ρ} :
      (V : Type ρ) (to_string : N → String) (on_info on_error : Option Exception) (node : N)
      (x : Subscription N) (answer : Answer)
      → KeepsNodes x (on_item_created {V = V} to_string on_info on_error node x answer)
  unfolding on_item_created
  created_keeps V to_string on_info on_error node x (bad what) =
      unless_thrown-KeepsNodes x on_error _ refl
  created_keeps V to_string none on_error node x (good id) = refl
  created_keeps V to_string (some (std_exception what)) on_error node x (good id) =
      unless_thrown-KeepsNodes x on_error _ refl
  created_keeps V to_string (some other) on_error node x (good id) = tt

-- Each channel once, each sampled node once, and no more of these than the receiver has room for; and the
-- subscription is to nodes that differ.
module _ {ℓ κ} {N : Type ℓ} {W : Type κ} ⦃e : Eq N⦄ where
  abbrev pub IsClient : ℕ → Client N W → Type 0
  IsClient capacity c =
      IsMap c.channels_info × IsReceiver c.frame_receiver × (c.frame_receiver.capacity ≡ capacity)

  abbrev pub IsSession : ℕ → Session N W → Type ℓ
  IsSession capacity s = IsClient capacity s.client × AreNodes s.subscription

  abbrev pub IsAlive : ℕ → Option (Session N W) → Type ℓ
  IsAlive capacity none = Unit
  IsAlive capacity (some s) = IsSession capacity s

  on_discovered-IsSession :
      (s : Session N W) (capacity : ℕ) (discovery : UnorderedMap N String)
      (handled by_library : Option Exception)
      → IsSession capacity s
      → IsMap discovery
      → IsSession capacity (on_discovered s discovery handled by_library).0
  unfolding on_discovered
  on_discovered-IsSession s capacity discovery (some x) by_library ((_, receiver, same), nodes) h =
      ((h, receiver, same), nodes)
  on_discovered-IsSession s capacity discovery none by_library ((_, receiver, same), nodes) h =
      ((h, receiver, same), create_subscription-AreNodes s.subscription discovery by_library h)

  upon_error-IsAlive :
      (stage : Stage N W) (events : List (Event N)) (by_error_handlers : Option Exception)
      (capacity : ℕ)
      → IsSession capacity stage.0
      → IsAlive capacity (state_of (upon_error stage events by_error_handlers))
  upon_error-IsAlive (s, requests, none) events by_error_handlers capacity h = h
  upon_error-IsAlive (s, requests, some (std_exception what)) events none capacity h = h
  upon_error-IsAlive (s, requests, some (std_exception what)) events (some x) capacity h = tt
  upon_error-IsAlive (s, requests, some other) events by_error_handlers capacity h = tt

  finish_discovery-IsAlive :
      (s : Session N W) (capacity : ℕ) (outcome : Outcome (UnorderedMap N String)) (t : Thrown)
      → IsSession capacity s
      → Completes IsMap outcome
      → IsAlive capacity (state_of (finish_discovery s outcome t))
  unfolding finish_discovery
  finish_discovery-IsAlive s capacity (returned discovery) t v h =
      upon_error-IsAlive (on_discovered s discovery t.by_discovery_handlers t.by_library) _
        t.by_error_handlers capacity
        (on_discovered-IsSession s capacity discovery t.by_discovery_handlers t.by_library v h)
  finish_discovery-IsAlive s capacity (thrown x) t v h =
      upon_error-IsAlive (s, [], some x) [] t.by_error_handlers capacity v
  finish_discovery-IsAlive s capacity (failed error) t v h = tt
  finish_discovery-IsAlive s capacity undefined t v h = tt

  on_subscription-IsAlive {ρ} :
      (V : Type ρ) (f : Subscription N → Option (Result N V)) (s : Session N W) (capacity : ℕ)
      → ((x : Subscription N) → KeepsNodes x (f x))
      → IsSession capacity s
      → IsAlive capacity (on_subscription V f s)
  on_subscription-IsAlive V f s capacity keeps (client, nodes) = called s.subscription nodes
    where
      answered :
          (x : Subscription N) (result : Option (Result N V))
          → KeepsNodes x result
          → AreNodes (some x)
          → IsAlive capacity (elim result [
            | none ↦ none
            | some (x', requests, events) ↦ some (record s { subscription = some x' })
          ])
      answered x none keeps_it h = tt
      answered x (some (x', requests, events)) keeps_it (m, h, same) =
          (client, (m, h, keeps_it ∙ same))

      called :
          (o : Option (Subscription N))
          → AreNodes o
          → IsAlive capacity (elim o [
            | none ↦ some s
            | some x ↦ elim (f x) [
              | none ↦ none
              | some (x', requests, events) ↦ some (record s { subscription = some x' })
            ]
          ])
      called none h = (client, nodes)
      called (some x) h = answered x (f x) (keeps x) h

release_keeps {ℓ} :
    {N : Type ℓ} (x : Subscription N) (id : ℕ) → (release x id).node_ids ≡ x.node_ids
unfolding release
release_keeps x id = elim (Bool-cases (is_current x.subscription_id id)) [
  | inl own ↦ rw own
  | inr foreign ↦ rw foreign
]

changed-IsClient {ℓ κ} :
    {N : Type ℓ} {W : Type κ} ⦃e : Eq N⦄ ⦃d : Double W⦄ (c : Client N W) (node : N)
    (values : List W) (capacity : ℕ)
    → IsClient capacity c
    → IsClient capacity (on_subscription_data_received c node values).0
unfolding on_subscription_data_received
changed-IsClient c node [] capacity h = h
changed-IsClient c node (value ∷ values) capacity (channels, receiver, same) = (
  channels,
  add_back-IsReceiver c.frame_receiver node _ receiver,
  add_back-capacity c.frame_receiver node _ ∙ same,
)

module _ {ℓ κ} {R N C : Type ℓ} {W : Type κ} (api : References R N C) (objects_folder : N)
    (to_string : N → String) ⦃ec : Eq C⦄ ⦃en : Eq N⦄ ⦃d : Double W⦄ where
  act-IsAlive :
      (action : Action R N W) (s : Session N W) (capacity : ℕ)
      → IsSession capacity s
      → IsAlive capacity (act api objects_folder to_string action s)
  unfolding act initialize_monitored_items
  act-IsAlive (activated refuses results t) s capacity h =
      finish_discovery-IsAlive s capacity _ t h (
        discover_folders-IsMap api (browse_async (λ n. exception_of (refuses n)) results)
          objects_folder (browse_async-Completes refuses results))
  act-IsAlive (subscribed refuses on_error answer) s capacity h =
      on_subscription-IsAlive W _ s capacity (λ x. subscribed_keeps W refuses on_error x answer) h
  act-IsAlive (item_created node on_info on_error answer) s capacity h =
      on_subscription-IsAlive W _ s capacity
        (λ x. created_keeps W to_string on_info on_error node x answer) h
  act-IsAlive (item_deleted node on_info) s capacity h =
      on_subscription-IsAlive W _ s capacity
        (λ x. unfold on_item_deleted in unless_thrown-KeepsNodes x on_info _ refl) h
  act-IsAlive (subscription_deleted id) s capacity h =
      on_subscription-IsAlive W (λ x. some (release x id, [], [])) s capacity
        (λ x. release_keeps x id) h
  act-IsAlive (changed node values) s capacity (client, nodes) =
      (changed-IsClient s.client node values capacity client, nodes)

  step-IsAlive :
      (action : Action R N W) (s : Option (Session N W)) (capacity : ℕ)
      → IsAlive capacity s
      → IsAlive capacity (step api objects_folder to_string action s)
  step-IsAlive action none capacity h = tt
  step-IsAlive action (some s) capacity h = act-IsAlive action s capacity h

  pub run-IsAlive :
      (actions : List (Action R N W)) (s : Option (Session N W)) (capacity : ℕ)
      → IsAlive capacity s
      → IsAlive capacity (run api objects_folder to_string actions s)
  unfolding run
  run-IsAlive [] s capacity h = h
  run-IsAlive (action ∷ actions) s capacity h =
      run-IsAlive actions (step api objects_folder to_string action s) capacity
        (step-IsAlive action s capacity h)
