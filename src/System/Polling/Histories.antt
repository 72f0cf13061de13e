-- ===== src/System/Polling/Histories.antt =====
-- The polling worker after any history of calls and steps.
use tpc_api.Prelude.{
  ℕ, String, Bool, true, false, Option, none, some, List, [], ◌∷◌, ◌++◌, Eq, get_elem?, set,
}
use tpc_api.Double.{Double}
use tpc_api.Prelude.UnorderedMap.{UnorderedMap}
use tpc_api.System.Connection.{Connection}
use tpc_api.System.Connection.Histories as Client
use tpc_api.System.Polling.{
  ended, PollingWorker, Polling, Round, start_async, stop_async, start_polling_async, poll,
}

-- `leaving` is a step of a stopped worker that a call waits for, by its place.
pub data Action {ℓ κ} (N : Type ℓ) (W : Type κ) : Type (ℓ ⊔ κ) where
  connecting : Action N W
  client_acting : Client.Action → Action N W
  starting : ℕ → Action N W
  stopping : Action N W
  working : Round N W → Action N W
  leaving : ℕ → Round N W → Action N W

-- As the constructor of the facade leaves it.
abbrev pub idle {ℓ} : {F : Type ℓ} → Polling F
idle = record {
  polling_worker = none;
  polling_interval_ms = 0;
  polling_interval_revision = 0;
  stopped_workers = [];
  events = [];
}

-- The same step, at which the interval of a wait is not over.
abbrev pub early {ℓ κ} : {N : Type ℓ} {W : Type κ} → Round N W → Round N W
early round = record round { elapsed = false }

abbrev pub has_ended : Option PollingWorker → Bool
has_ended none = true
has_ended (some worker) = elim worker.phase [ ended ↦ true | _ ↦ false ]

module _ {ℓ κ} {N : Type ℓ} {W : Type κ} ⦃e : Eq N⦄ ⦃d : Double W⦄
    (bad_optional_access : String) where
  abbrev pub work_on :
      Polling (UnorderedMap String W)
      → Option PollingWorker
      → Round N W
      → Polling (UnorderedMap String W)
  work_on p none round = p
  work_on p (some worker) round =
      let (worker', events) = poll bad_optional_access p worker round in
      record p { polling_worker = some worker'; events = p.events ++ events }

  abbrev pub leave_on :
      Polling (UnorderedMap String W)
      → ℕ
      → Option PollingWorker
      → Round N W
      → Polling (UnorderedMap String W)
  leave_on p i none round = p
  leave_on p i (some worker) round =
      let (worker', events) = poll bad_optional_access p worker round in
      record p { stopped_workers = set p.stopped_workers i worker'; events = p.events ++ events }

  unfoldable pub act :
      Action N W
      → Polling (UnorderedMap String W)
      → Connection
      → Polling (UnorderedMap String W) × Connection
  act connecting p c = start_async p c
  act (client_acting action) p c = (p, Client.act action c)
  act (starting polling_interval_ms) p c = (start_polling_async p polling_interval_ms, c)
  act stopping p c = stop_async p c
  act (working round) p c = (work_on p p.polling_worker round, c)
  act (leaving i round) p c = (leave_on p i (get_elem? p.stopped_workers i) round, c)

  unfoldable pub run :
      List (Action N W)
      → Polling (UnorderedMap String W)
      → Connection
      → Polling (UnorderedMap String W) × Connection
  run [] p c = (p, c)
  run (action ∷ actions) p c = let (p', c') = act action p c in run actions p' c'
