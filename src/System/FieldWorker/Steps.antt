-- ===== src/System/FieldWorker/Steps.antt =====
-- What each step of the field worker does to the order in which requests are served.
use tpc_api.Prelude.{
  String, ◌≡◌, refl, sym, ap, ◌∙◌, inl, inr, Bool, true, false, Option, none, some, List, [], ◌∷◌,
  ◌++◌, arith, Bool-cases, Option-cases, is_empty,
}
use tpc_api.System.FieldWorker.{
  CalculationData, Event, field_was_calculated, Phase, not_started, looping, waiting, calculating,
  finished, announcing, notifying, stopped, Worker, started, error_events, succeeded,
  calculate_field_async, worker_step,
}
use tpc_api.System.FieldWorker.History.{
  request, work, announced, unreported, at_work, queued, IsConsistent, serve, act, InOrder,
}
use mathlib.Core.List.{append-nil, append_assoc}

-- A worker by its parts.
abbrev pub worker_of {ℓ κ} :
    {M : Type ℓ} {D : Type κ} → Phase D → Option D → Bool → Bool → M → List Event → Worker M D
worker_of phase pending in_progress stop_requested manager events = record {
  manager = manager;
  pending = pending;
  in_progress = in_progress;
  phase = phase;
  stop_requested = stop_requested;
  events = events;
}

-- Accepting a request, from the worker's point of view.
accept_lem {ℓ} :
    {D : Type ℓ} (x : D) (phase : Phase D) (pending : Option D)
    → IsConsistent phase pending false
    → IsConsistent (started phase) (some x) true
      × (at_work (started phase) ++ (x ∷ []) ≡ (at_work phase ++ queued pending) ++ (x ∷ []))
      × (unreported (started phase) ≡ unreported phase)
accept_lem x not_started none c = (refl, refl, refl)
accept_lem x not_started (some z) c = cc
accept_lem x looping none c = (refl, refl, refl)
accept_lem x looping (some z) c = cc
accept_lem x waiting none c = (refl, refl, refl)
accept_lem x waiting (some z) c = cc
accept_lem x (calculating y) none c = cc
accept_lem x (calculating y) (some z) c = cc
accept_lem x (finished error) none c = cc
accept_lem x (finished error) (some z) c = cc
accept_lem x (announcing error) none c = (refl, refl, refl)
accept_lem x (announcing error) (some z) c = cc
accept_lem x (notifying success) none c = (refl, refl, refl)
accept_lem x (notifying success) (some z) c = cc
accept_lem x stopped none c = (refl, refl, refl)
accept_lem x stopped (some z) c = cc

module _ {ℓ κ} {M : Type ℓ} {W : Type κ}
    (process : M → CalculationData W → Option (M × Option String)) where
  serve-snoc :
      (m : M) (events : List Event) (xs : List (CalculationData W)) (x : CalculationData W)
      (m' m'' : M) (events' : List Event) (error : Option String)
      → serve process m events xs ≡ some (m', events')
      → process m' x ≡ some (m'', error)
      → serve process m events (xs ++ (x ∷ [])) ≡ some (m'', events' ++ announced error)
  serve-snoc m events [] x m' m'' events' error h p = ground arith
  serve-snoc m events (y ∷ xs) x m' m'' events' error h p = elim (Option-cases (process m y)) [
    | inl no_result ↦ ground arith
    | inr ((n, e), q) ↦
        ground (arith, serve-snoc n (events ++ announced e) xs x m' m'' events' error)
  ]

  -- The end of a calculation serves its request; without a result the worker does not move.
  calculate-InOrder :
      (m : M) (accepted : List (CalculationData W)) (x : CalculationData W)
      (in_progress stop_requested : Bool) (n : M) (events : List Event)
      → InOrder process m
          (accepted, worker_of (calculating x) none in_progress stop_requested n events)
      → InOrder process m (
          act process work
            (accepted, worker_of (calculating x) none in_progress stop_requested n events))
  unfolding act worker_step
  calculate-InOrder m accepted x in_progress stop_requested n events (c, (served, a, e)) =
      elim (Option-cases (process n x)) [
        | inl no_result ↦ rw no_result (c, (served, a, e))
        | inr ((n', error), q) ↦
            let served_too = serve-snoc m [] served x n n' (events ++ []) error e q in
            let its_events = ap (λ l. some (n', l ++ announced error)) (append-nil events) in
            rw q (
              c,
              (
                served ++ (x ∷ []),
                a ∙ sym (append-nil (served ++ (x ∷ []))),
                served_too ∙ its_events,
              ),
            )
      ]

  pub work-InOrder :
      (m : M) (accepted : List (CalculationData W)) (phase : Phase (CalculationData W))
      (pending : Option (CalculationData W)) (in_progress stop_requested : Bool) (n : M)
      (events : List Event)
      → InOrder process m (accepted, worker_of phase pending in_progress stop_requested n events)
      → InOrder process m
          (act process work (accepted, worker_of phase pending in_progress stop_requested n events))
  unfolding act worker_step
  work-InOrder m accepted not_started pending in_progress stop_requested n events h = h
  work-InOrder m accepted looping pending in_progress true n events h = h
  work-InOrder m accepted looping pending in_progress false n events h = h
  work-InOrder m accepted waiting none in_progress true n events h = h
  work-InOrder m accepted waiting none in_progress false n events h = h
  work-InOrder m accepted waiting (some x) in_progress stop_requested n events (c, order) =
      ((refl, sym c), order)
  work-InOrder m accepted (calculating x) none in_progress stop_requested n events h =
      calculate-InOrder m accepted x in_progress stop_requested n events h
  work-InOrder m accepted (calculating x) (some y) in_progress stop_requested n events h =
      ground arith
  work-InOrder m accepted (finished error) none in_progress stop_requested n events (c, order) =
      (refl, order)
  work-InOrder m accepted (finished error) (some y) in_progress stop_requested n events h =
      ground arith
  work-InOrder m accepted (announcing error) pending in_progress stop_requested n events
        (c, (served, a, e)) =
      let its_events =
        append_assoc events (error_events error) (field_was_calculated (succeeded error) ∷ []) in
      (c, (served, a, e ∙ ap (λ l. some (n, l)) (sym its_events)))
  work-InOrder m accepted (notifying success) pending in_progress stop_requested n events
        (c, (served, a, e)) =
      let its_event = append-nil (events ++ (field_was_calculated success ∷ [])) in
      (c, (served, a, e ∙ ap (λ l. some (n, l)) (sym its_event)))
  work-InOrder m accepted stopped pending in_progress stop_requested n events h = h

  pub request-InOrder :
      (m : M) (accepted : List (CalculationData W)) (x : CalculationData W)
      (phase : Phase (CalculationData W)) (pending : Option (CalculationData W))
      (in_progress stop_requested : Bool) (n : M) (events : List Event)
      → InOrder process m (accepted, worker_of phase pending in_progress stop_requested n events)
      → InOrder process m (
          act process
            (request x)
            (accepted, worker_of phase pending in_progress stop_requested n events))
  unfolding act calculate_field_async
  request-InOrder m accepted x phase pending true stop_requested n events h =
      elim (Bool-cases (is_empty x.measurements)) [
        | inl q ↦ rw (q, act, calculate_field_async) h
        | inr q ↦ rw (q, act, calculate_field_async) h
      ]
  request-InOrder m accepted x phase pending false stop_requested n events (c, (served, a, e)) =
      elim (Bool-cases (is_empty x.measurements)) [
        | inl q ↦ rw (q, act, calculate_field_async) (c, (served, a, e))
        | inr q ↦
            let (c', its_work, its_events) = accept_lem x phase pending c in
            let its_place = append_assoc served (at_work phase ++ queued pending) (x ∷ []) in
            let all_accepted : accepted ++ (x ∷ [])
                ≡ served ++ (at_work (started phase) ++ (x ∷ [])) =
              rw (a, its_place) (ap (λ l. served ++ l) (sym its_work)) in
            rw (q, act, calculate_field_async)
              (c', (served, all_accepted, e ∙ ap (λ l. some (n, events ++ l)) (sym its_events)))
      ]
