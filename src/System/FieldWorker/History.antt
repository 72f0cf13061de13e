-- ===== src/System/FieldWorker/History.antt =====
-- Histories of the field worker: its steps and the calls of `calculate_field_async` in any order.
use tpc_api.Prelude.{
  String, ◌≡◌, Bool, true, false, not, ◌&&◌, Option, none, some, List, [], ◌∷◌, ◌++◌, if◌then◌else◌,
  is_empty,
}
use tpc_api.System.FieldWorker.{
  CalculationData, Event, field_was_calculated, Phase, not_started, calculating, finished,
  announcing, notifying, Worker, error_events, succeeded, calculate_field_async, worker_step,
}

-- What the threads do: a call of `calculate_field_async`, a step of the worker, a stop request.
pub data Action {ℓ} (W : Type ℓ) : Type ℓ where
  request : CalculationData W → Action W
  work : Action W
  stop : Action W

-- Both events of a calculation.
abbrev pub announced : Option String → List Event
announced error = error_events error ++ (field_was_calculated (succeeded error) ∷ [])

-- The events of a calculation that is over that the worker has still to invoke.
abbrev pub unreported {ℓ} : {D : Type ℓ} → Phase D → List Event
unreported (finished error) = announced error
unreported (announcing error) = announced error
unreported (notifying success) = field_was_calculated success ∷ []
unreported _ = []

abbrev pub at_work {ℓ} : {D : Type ℓ} → Phase D → List D
at_work (calculating calculation) = calculation ∷ []
at_work _ = []

abbrev pub queued {ℓ} : {D : Type ℓ} → Option D → List D
queued none = []
queued (some calculation) = calculation ∷ []

abbrev pub is_some {ℓ} : {D : Type ℓ} → Option D → Bool
is_some none = false
is_some (some calculation) = true

-- `field_calculation_in_progress_` is set just from the acceptance of a request to the end of its
-- calculation.
abbrev pub IsConsistent {ℓ} : {D : Type ℓ} → Phase D → Option D → Bool → Type 0
IsConsistent not_started pending in_progress = (is_some pending ≡ false) × (in_progress ≡ false)
IsConsistent (calculating calculation) pending in_progress =
    (is_some pending ≡ false) × (in_progress ≡ true)
IsConsistent (finished error) pending in_progress = (is_some pending ≡ false) × (in_progress ≡ true)
IsConsistent {D} phase pending in_progress = is_some pending ≡ in_progress

module _ {ℓ κ} {M : Type ℓ} {W : Type κ}
    (process : M → CalculationData W → Option (M × Option String)) where
  -- One calculation after the other, each on the manager that the one before left, with its events.
  abbrev pub serve : M → List Event → List (CalculationData W) → Option (M × List Event)
  serve m events [] = some (m, events)
  serve m events (x ∷ xs) = elim (process m x) [
    | none ↦ none
    | some (m', error) ↦ serve m' (events ++ announced error) xs
  ]

  abbrev pub accepts : Worker M (CalculationData W) → CalculationData W → Bool
  accepts s calculation = not (is_empty calculation.measurements) && not s.in_progress

  -- An action on the worker, and on the list of the requests accepted so far.
  unfoldable pub act :
      Action W
      → List (CalculationData W) × Worker M (CalculationData W)
      → List (CalculationData W) × Worker M (CalculationData W)
  act (request calculation) (accepted, s) = (
    if accepts s calculation then accepted ++ (calculation ∷ []) else accepted,
    (calculate_field_async s calculation.measurements calculation.grid calculation.radius
        calculation.length).0,
  )
  act work (accepted, s) = elim (worker_step process s.phase s) [
    | none ↦ (accepted, s)
    | some t ↦ (accepted, t)
  ]
  act stop (accepted, s) = (accepted, record s { stop_requested = true })

  unfoldable pub run :
      List (Action W)
      → List (CalculationData W) × Worker M (CalculationData W)
      → List (CalculationData W) × Worker M (CalculationData W)
  run [] h = h
  run (action ∷ actions) h = run actions (act action h)

  -- The manager and the events are those of the requests `served`; at most one request is left.
  abbrev pub InOrder : M → List (CalculationData W) × Worker M (CalculationData W) → Type (ℓ ⊔ κ)
  InOrder m (accepted, s) =
      IsConsistent s.phase s.pending s.in_progress
      × ((served : List (CalculationData W)) × (accepted
            ≡ served ++ (at_work s.phase ++ queued s.pending))
          × (serve m [] served ≡ some (s.manager, s.events ++ unreported s.phase)))
