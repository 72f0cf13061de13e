-- ===== src/System/Facade/Lifetime.antt =====
-- The client of a facade over its whole life, and the frames that it then gives.
use tpc_api.Prelude.{ℕ, String, ◌≡◌, refl, subst, Option, none, some, List, [], arith, Eq, returned}
use tpc_api.Prelude.{string_eq}
use tpc_api.Double.{Double}
use tpc_api.Prelude.UnorderedMap.{UnorderedMap}
use tpc_api.System.Client.Bounds.{IsFrame}
use tpc_api.System.Calibration.{get_frame_request}
use tpc_api.System.Calibration.Bounds.{get_frame_request-IsFrame}
use tpc_api.System.Discovery.{References}
use tpc_api.System.Session.{Session}
use tpc_api.System.Session.Histories.{Action, run}
use tpc_api.System.Session.Invariant.{IsSession, IsAlive, run-IsAlive}
use tpc_api.System.Facade.Factory.{Facade, create}
use tpc_api.System.Facade.Creation.{new_facade, create-new_facade}

-- A frame, if there is one, has each name once, and no more names than that.
abbrev pub IsBounded {ℓ} : {W : Type ℓ} → ℕ → Option (UnorderedMap String W) → Type 0
IsBounded n none = Unit
IsBounded n (some frame) = IsFrame n frame

module _ {ℓ κ} {N : Type ℓ} {W : Type κ} ⦃en : Eq N⦄ ⦃d : Double W⦄ where
  new_facade-IsSession {ρ} :
      {U : Type ρ} (endpoint : String) (made : Facade U N W)
      → create none none endpoint ≡ returned made
      → IsSession 36 made.client.session
  new_facade-IsSession {U} endpoint made created =
      let same : new_facade U N W endpoint ≡ made =
        cc (created, create-new_facade U N W endpoint) in
      subst (λ f. IsSession 36 f.client.session) same
        ((tt, (tt, omega arith, omega arith), refl), ([], tt, refl))

  IsSession-IsBounded :
      (s : Session N W) (requested : Option (UnorderedMap String W))
      → IsSession 36 s
      → get_frame_request s.client ≡ requested
      → IsBounded 36 requested
  IsSession-IsBounded s none valid got = tt
  IsSession-IsBounded s (some frame) (((_, (_, few, _), same), _)) got =
      let (h, less) = get_frame_request-IsFrame s.client frame got in (h, omega arith)

  -- For a client that `TPC::create` made, after any history of activated sessions (whatever browsing
  -- throws and gives, and whatever the library and the handlers throw in their tasks), answers of the
  -- server (whatever the handlers of their events throw), ends of subscriptions and data changes: if the
  -- program was not ended, the channels are one for each node, the samples are one for each node and at
  -- most 36, and a subscription is to nodes that are the keys of some map; and a frame that
  -- `get_frame_request` gives has each name once and at most 36 names.
  pub run-IsBounded {ρ} :
      {U : Type ρ} {R C : Type ℓ} ⦃ec : Eq C⦄ (api : References R N C) (objects_folder : N)
      (to_string : N → String) (endpoint : String) (made : Facade U N W)
      (actions : List (Action R N W)) (s : Session N W)
      → create none none endpoint ≡ returned made
      → run api objects_folder to_string actions (some made.client.session) ≡ some s
      → IsSession 36 s × IsBounded 36 (get_frame_request s.client)
  run-IsBounded api objects_folder to_string endpoint made actions s created reached =
      let valid : IsSession 36 s = subst (IsAlive 36) reached (
        run-IsAlive api objects_folder to_string actions (some made.client.session) 36
          (new_facade-IsSession endpoint made created)) in
      (valid, IsSession-IsBounded s (get_frame_request s.client) valid refl)
