-- ===== src/System/FieldWorker/Managers.antt =====
-- What a history of the field worker does to the analytics manager.
use tpc_api.Prelude.{
  String, ◌≡◌, refl, sym, subst, inl, inr, Bool, true, false, Option, none, some, List, [], ◌∷◌,
  Bool-cases, Option-cases, is_empty,
}
use tpc_api.System.FieldWorker.{
  CalculationData, Event, Phase, not_started, looping, waiting, calculating, finished, announcing,
  notifying, stopped, Worker, calculate_field_async, worker_step,
}
use tpc_api.System.FieldWorker.History.{Action, request, work, stop, act, run}
use tpc_api.System.FieldWorker.Steps.{worker_of}

calculate_field_async-manager {ℓ κ} :
    {M : Type ℓ} {W : Type κ} (s : Worker M (CalculationData W)) (x : CalculationData W)
    → (calculate_field_async s x.measurements x.grid x.radius x.length).0.manager ≡ s.manager
unfolding calculate_field_async
calculate_field_async-manager s x = elim (Bool-cases (is_empty x.measurements)) [
  | inl nothing ↦ rw nothing refl
  | inr some_ ↦ elim (Bool-cases s.in_progress) [
    | inl busy ↦ rw (some_, busy) refl
    | inr free ↦ rw (some_, free) refl
  ]
]

module _ {ℓ κ ρ} {M : Type ℓ} {W : Type κ}
    (process : M → CalculationData W → Option (M × Option String)) (P : M → Type ρ)
    (keeps : (m : M) (x : CalculationData W) (m' : M) (error : Option String)
      → process m x ≡ some (m', error)
      → P m
      → P m') where
  work-keeps :
      (accepted : List (CalculationData W)) (phase : Phase (CalculationData W))
      (pending : Option (CalculationData W)) (in_progress stop_requested : Bool) (n : M)
      (events : List Event)
      → P n
      → P
          (act process work
            (accepted, worker_of phase pending in_progress stop_requested n events)).1.manager
  unfolding act worker_step
  work-keeps accepted not_started pending in_progress stop_requested n events h = h
  work-keeps accepted looping pending in_progress true n events h = h
  work-keeps accepted looping pending in_progress false n events h = h
  work-keeps accepted waiting none in_progress true n events h = h
  work-keeps accepted waiting none in_progress false n events h = h
  work-keeps accepted waiting (some x) in_progress stop_requested n events h = h
  work-keeps accepted (calculating x) pending in_progress stop_requested n events h =
      elim (Option-cases (process n x)) [
        | inl no_result ↦ rw no_result h
        | inr ((n', error), q) ↦ rw q (keeps n x n' error q h)
      ]
  work-keeps accepted (finished error) pending in_progress stop_requested n events h = h
  work-keeps accepted (announcing error) pending in_progress stop_requested n events h = h
  work-keeps accepted (notifying success) pending in_progress stop_requested n events h = h
  work-keeps accepted stopped pending in_progress stop_requested n events h = h

  act-keeps :
      (action : Action W) (h : List (CalculationData W) × Worker M (CalculationData W))
      → P h.1.manager
      → P (act process action h).1.manager
  unfolding act
  act-keeps work (accepted, s) v =
      work-keeps accepted s.phase s.pending s.in_progress s.stop_requested s.manager s.events v
  act-keeps stop (accepted, s) v = v
  act-keeps (request x) (accepted, s) v = subst P (sym (calculate_field_async-manager s x)) v

  -- What each calculation keeps, every history keeps.
  pub run-keeps :
      (actions : List (Action W)) (h : List (CalculationData W) × Worker M (CalculationData W))
      → P h.1.manager
      → P (run process actions h).1.manager
  unfolding run
  run-keeps [] h v = v
  run-keeps (action ∷ actions) h v = run-keeps actions (act process action h) (act-keeps action h v)
