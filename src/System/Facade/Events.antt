-- ===== src/System/Facade/Events.antt =====
-- Which handlers of the facade's users an event of its client reaches.
use tpc_api.Prelude.{
  String, ◌≡◌, refl, ap, ◌∙◌, subst, Option, none, some, List, [], ◌∷◌, Exception, returned, Effect,
  before,
}
use tpc_api.Prelude.UnorderedMap
use tpc_api.Double.{Double}
use tpc_api.Utilities.EventHandler
use tpc_api.Utilities.EventHandler.{EventHandler}
use tpc_api.System.Session.{
  Event, error_occurred, warning_occurred, info_occurred, connection_state_changed,
  initialization_data_received, client_error, client_info, tagged, on_subscription_error_occurred,
  on_subscription_info_occurred,
}
use tpc_api.System.Subscription
use tpc_api.System.Facade.Factory.{Facade, create}
use tpc_api.System.Facade.Creation.{new_facade, create-new_facade}
use tpc_api.System.Facade.Handlers.{
  Captured, Handlers, subscription_handlers, no_handlers, initialize_start_handlers,
  on_client_error, on_client_info, on_client_connection_state_changed,
  on_client_initialization_data_received, emit, emit_subscription,
}

-- The handlers of the users for an event of the client; its warnings have none.
abbrev pub handlers_of {ℓ κ} :
    {N : Type ℓ} {U : Type κ} → Handlers U → Event N → Option (EventHandler U)
handlers_of facade (error_occurred err) = some facade.error_occurred
handlers_of facade (warning_occurred warning) = none
handlers_of facade (info_occurred info) = some facade.info_occurred
handlers_of facade (connection_state_changed state) = some facade.connection_state_changed
handlers_of facade (initialization_data_received discovery) =
    some facade.initialization_data_received

module _ {ℓ κ ρ} {N : Type ℓ} {U : Type κ} {S : Type ρ} (call : U → Event N → Effect S)
    (facade : Handlers U) where
  abbrev pub deliver_to : Option (EventHandler U) → Event N → Effect S
  deliver_to none event s = (s, none)
  deliver_to (some handlers) event s = EventHandler.invoke call handlers event s

  -- Events one after the other, each at the handlers of the users; an exception ends it.
  abbrev pub deliver_each : List (Event N) → Effect S
  deliver_each [] s = (s, none)
  deliver_each (event ∷ events) s =
      before (deliver_to (handlers_of facade event) event s) (deliver_each events)

  -- The same, by the client.
  unfoldable pub emit_each : Handlers Captured → List (Event N) → Effect S
  emit_each client [] s = (s, none)
  emit_each client (event ∷ events) s =
      before (emit call facade client event s) (emit_each client events)

  before-none : (r : S × Option Exception) → before r (λ s. (s, none)) ≡ r
  before-none (s, none) = refl
  before-none (s, some x) = refl

  before_ext :
      (r : S × Option Exception) (f g : Effect S) → ((s : S) → f s ≡ g s) → before r f ≡ before r g
  before_ext (s, none) f g h = h s
  before_ext (s, some x) f g h = refl

  emit-deliver :
      (event : Event N) (s : S)
      → emit call facade (initialize_start_handlers no_handlers) event s
        ≡ deliver_to (handlers_of facade event) event s
  unfolding emit initialize_start_handlers no_handlers EventHandler.subscribe EventHandler.initial
      EventHandler.invoke EventHandler.snapshot EventHandler.call_each UnorderedMap.emplace
      UnorderedMap.contains UnorderedMap.insert_or_assign on_client_error on_client_info
      on_client_connection_state_changed on_client_initialization_data_received
  emit-deliver (error_occurred err) s = before-none _
  emit-deliver (warning_occurred warning) s = refl
  emit-deliver (info_occurred info) s = before-none _
  emit-deliver (connection_state_changed state) s = before-none _
  emit-deliver (initialization_data_received discovery) s = before-none _

  emit_each-deliver_each :
      (events : List (Event N)) (s : S)
      → emit_each (initialize_start_handlers no_handlers) events s ≡ deliver_each events s
  unfolding emit_each
  emit_each-deliver_each [] s = refl
  emit_each-deliver_each (event ∷ events) s =
      ap (λ r. before r (emit_each (initialize_start_handlers no_handlers) events))
        (emit-deliver event s)
      ∙ before_ext (deliver_to (handlers_of facade event) event s) _ _
          (emit_each-deliver_each events)

  module _ {σ} {A : Type σ} (receive : N → A → Effect S) where
    -- The clauses of the handlers that the client has for the subscription.
    abbrev pub Reported : Subscription.Event N A → S × Option Exception → S → Type ρ
    Reported (Subscription.error_occurred message) r s =
        r
        ≡ EventHandler.invoke call facade.error_occurred
            (error_occurred (tagged client_error message)) s
    Reported (Subscription.info_occurred message) r s =
        r
        ≡ EventHandler.invoke call facade.info_occurred (info_occurred (tagged client_info message))
            s
    Reported (Subscription.data_received node value) r s = r ≡ receive node value s

    emit_subscription-Reported :
        (event : Subscription.Event N A) (s : S)
        → Reported event
            (emit_subscription call facade receive subscription_handlers
              (initialize_start_handlers no_handlers)
              event
              s)
            s
    unfolding emit_subscription subscription_handlers on_subscription_error_occurred
        on_subscription_info_occurred EventHandler.subscribe EventHandler.initial
        EventHandler.invoke EventHandler.snapshot EventHandler.call_each UnorderedMap.emplace
        UnorderedMap.contains UnorderedMap.insert_or_assign
    emit_subscription-Reported (Subscription.error_occurred message) s =
        before-none _ ∙ emit-deliver (error_occurred (tagged client_error message)) s
    emit_subscription-Reported (Subscription.info_occurred message) s =
        before-none _ ∙ emit-deliver (info_occurred (tagged client_info message)) s
    emit_subscription-Reported (Subscription.data_received node value) s = before-none _

-- For a facade that was created, whatever handlers its users have subscribed since: events of its
-- client, in any order, reach just the handlers of the users for them, each event those of its own kind,
-- and an exception of a handler ends it; warnings of the client reach nobody. An error or an information of
-- the subscription reaches the handlers of the users with the tag of the client, and its data the client.
pub emit_each-deliver {ℓ κ ρ σ τ} :
    {N : Type ℓ} {U : Type κ} {S : Type ρ} {W : Type σ} {A : Type τ} ⦃d : Double W⦄
    (endpoint : String) (made : Facade U N W) (call : U → Event N → Effect S) (users : Handlers U)
    (receive : N → A → Effect S) (events : List (Event N)) (event : Subscription.Event N A) (s : S)
    → create none none endpoint ≡ returned made
    → (emit_each call users made.client.handlers events s ≡ deliver_each call users events s)
      × Reported call users receive event
          (emit_subscription call users receive made.client.subscription_handlers
            made.client.handlers event s)
          s
emit_each-deliver {N = N} {U = U} {W = W} endpoint made call users receive events event s created =
    let same : new_facade U N W endpoint ≡ made = cc (create-new_facade U N W endpoint, created) in
    subst
      (λ (f : Facade U N W).
        (emit_each call users f.client.handlers events s ≡ deliver_each call users events s)
        × Reported call users receive event
            (emit_subscription call users receive f.client.subscription_handlers f.client.handlers
              event s)
            s)
      same
      (
        emit_each-deliver_each call users events s,
        emit_subscription-Reported call users receive event s,
      )
