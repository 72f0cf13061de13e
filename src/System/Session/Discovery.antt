-- ===== src/System/Session/Discovery.antt =====
-- What a session has after the discovery of the channels.
use tpc_api.Prelude.{
  String, ◌≡◌, refl, ◌≢◌, ◌⊎◌, inl, inr, Option, none, some, List, [], ◌∷◌, Option-cases, Eq,
  Exception, std_exception, other, Outcome, returned, thrown, failed, undefined,
}
use tpc_api.Prelude.Defined.{Completes}
use tpc_api.Prelude.UnorderedMap.{UnorderedMap, IsMap}
use tpc_api.System.Subscription
use tpc_api.System.Subscription.{Subscription, Request, ask_subscription}
use tpc_api.System.Discovery.{References, browse_async, start, discover_folders}
use tpc_api.System.Subscription.Lifecycle.{exception_of}
use tpc_api.System.Discovery.Names.{discover_folders-IsMap}
use tpc_api.System.Session.{
  Event, error_occurred, initialization_data_received, client_error, tagged, keys_of, Session,
  create_subscription, on_discovered, finish_discovery, initialize_monitored_items,
}

module _ {ℓ κ} {N : Type ℓ} {W : Type κ} ⦃e : Eq N⦄ where
  -- The session knows the channels, each once, and has asked for a subscription to all of them, in
  -- their order.
  abbrev pub IsSubscribed :
      Session N W → Subscription N → Session N W × List (Request N) × List (Event N) → Type (ℓ ⊔ κ)
  IsSubscribed s subscription (s', requests, events) =
      (discovery : UnorderedMap N String) × IsMap discovery
      × (s' ≡ record s {
        client = record s.client { channels_info = discovery };
        subscription = some (record subscription { node_ids = keys_of discovery });
      })
      × (requests ≡ ask_subscription ∷ [])
      × (events ≡ initialization_data_received discovery ∷ [])

  -- One error is reported, as the last event, and no subscription is asked for; at most the channels and the
  -- nodes of the subscription are new.
  abbrev pub HasFailed :
      Session N W → Subscription N → Session N W × List (Request N) × List (Event N) → Type (ℓ ⊔ κ)
  HasFailed s subscription (s', requests, events) =
      (what : String) × (requests ≡ [])
      × (((s' ≡ s) × (events ≡ error_occurred (tagged client_error what) ∷ []))
          ⊎ ((discovery : UnorderedMap N String) × IsMap discovery
              × ((s' ≡ record s { client = record s.client { channels_info = discovery } })
                  ⊎ (s' ≡ record s {
                    client = record s.client { channels_info = discovery };
                    subscription = some (record subscription { node_ids = keys_of discovery });
                  }))
              × (events
                  ≡ initialization_data_received discovery
                    ∷ error_occurred (tagged client_error what)
                    ∷ [])))

  abbrev pub Answered :
      Session N W
      → Subscription N
      → Option (Session N W × List (Request N) × List (Event N))
      → Type (ℓ ⊔ κ)
  Answered s subscription none = ⊥ × Unit
  Answered s subscription (some after) =
      IsSubscribed s subscription after ⊎ HasFailed s subscription after

  -- With a subscription, the outcome of the discovery's continuation is that of the call of the library.
  on_discovered-subscribed :
      (s : Session N W) (subscription : Subscription N) (discovery : UnorderedMap N String)
      (by_library : Option Exception)
      → s.subscription ≡ some subscription
      → on_discovered s discovery none by_library ≡ (
        record s {
          client = record s.client { channels_info = discovery };
          subscription = some (record subscription { node_ids = keys_of discovery });
        },
        (Subscription.create_subscription by_library subscription (keys_of discovery)).1,
        by_library,
      )
  unfolding on_discovered create_subscription Subscription.create_subscription
  on_discovered-subscribed s subscription discovery none has = rw has
  on_discovered-subscribed s subscription discovery (some x) has = rw has

  finish_discovery-Answered :
      (s : Session N W) (subscription : Subscription N) (outcome : Outcome (UnorderedMap N String))
      (discovered asked : Option Exception)
      → s.subscription ≡ some subscription
      → discovered ≢ some other
      → asked ≢ some other
      → Completes IsMap outcome
      → Answered s subscription (
          finish_discovery s outcome (record {
            by_discovery_handlers = discovered;
            by_library = asked;
            by_error_handlers = none;
          }))
  unfolding finish_discovery Subscription.create_subscription
  finish_discovery-Answered s subscription (returned discovery) none none has calm quiet h =
      rw (on_discovered-subscribed s subscription discovery none has)
        (inl (discovery, h, refl, refl, refl))
  finish_discovery-Answered s subscription (returned discovery) none (some (std_exception what)) has
        calm quiet h =
      rw (on_discovered-subscribed s subscription discovery (some (std_exception what)) has)
        (inr (what, refl, inr (discovery, h, inr refl, refl)))
  finish_discovery-Answered s subscription (returned discovery) none (some other) has calm quiet h =
      absurd (quiet refl)
  finish_discovery-Answered s subscription (returned discovery) (some (std_exception what)) asked
        has calm quiet h =
      unfold on_discovered in inr (what, refl, inr (discovery, h, inl refl, refl))
  finish_discovery-Answered s subscription (returned discovery) (some other) asked has calm quiet
        h =
      absurd (calm refl)
  finish_discovery-Answered s subscription (thrown (std_exception what)) discovered asked has calm
        quiet h =
      inr (what, refl, inl (refl, refl))
  finish_discovery-Answered s subscription (thrown other) discovered asked has calm quiet h =
      absurd h.0
  finish_discovery-Answered s subscription (failed error) discovered asked has calm quiet h =
      absurd h.0
  finish_discovery-Answered s subscription undefined discovered asked has calm quiet h = absurd h.0

-- If browsing a node gives an answer or throws a std::exception, the handlers of
-- `initialization_data_received_` and the call of the library for a subscription throw nothing else, and
-- the handlers of `error_occurred_` throw nothing, then the task of a client with a subscription ends
-- without std::terminate, in one of two ways. Either the client knows the channels of a discovery, each
-- once, has reported them, and has asked for a subscription to just these. Or it reports one error, as its
-- last event, and no subscription was asked for; then all is as before, or the channels are new and were
-- reported before the error, and the nodes of the subscription are as before or those channels.
pub initialize_monitored_items-Answered {ℓ κ} :
    {R N C : Type ℓ} {W : Type κ} (api : References R N C) ⦃ec : Eq C⦄ ⦃en : Eq N⦄
    (browse : N → Outcome (List R)) (objects_folder : N) (s : Session N W)
    (subscription : Subscription N) (discovered asked : Option Exception)
    → s.subscription ≡ some subscription
    → discovered ≢ some other
    → asked ≢ some other
    → ((node : N) → Completes (λ _. Unit {0}) (browse node))
    → Answered s subscription (
        initialize_monitored_items api browse objects_folder s (record {
          by_discovery_handlers = discovered;
          by_library = asked;
          by_error_handlers = none;
        }))
unfolding initialize_monitored_items
initialize_monitored_items-Answered api browse objects_folder s subscription discovered asked has
      calm quiet answers =
    finish_discovery-Answered s subscription (discover_folders api browse objects_folder) discovered
      asked has calm quiet (discover_folders-IsMap api browse objects_folder answers)

-- Browsing completes if the library throws std::exceptions only.
pub browse_async-Completes {ℓ} :
    {R N : Type ℓ} (refuses : N → Option String) (results : N → List R) (node : N)
    → Completes (λ _. Unit {0}) (browse_async (λ n. exception_of (refuses n)) results node)
unfolding browse_async start
browse_async-Completes refuses results node = elim (Option-cases (refuses node)) [
  | inl calm ↦ rw calm tt
  | inr (what, thrown_) ↦ rw thrown_ tt
]
