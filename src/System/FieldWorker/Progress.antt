-- ===== src/System/FieldWorker/Progress.antt =====
-- An accepted request is calculated and reported.
use tpc_api.Prelude.{
  String, ◌≡◌, ap, ◌∙◌, Bool, true, false, Option, none, some, List, [], ◌∷◌, ◌++◌, is_empty,
}
use tpc_api.System.FieldWorker.{
  CalculationData, Event, field_was_calculated, waiting, looping, calculating, finished, Worker,
  error_events, succeeded, calculate_field_async, worker_step,
}
use tpc_api.System.FieldWorker.Steps.{worker_of}
use tpc_api.System.FieldWorker.History.{request, work, act, run}

module _ {ℓ κ} {M : Type ℓ} {W : Type κ}
    (process : M → CalculationData W → Option (M × Option String)) where
  -- A request with measurements that comes while the worker waits and no calculation is in progress
  -- is accepted. If its calculation has a result, five steps of the worker calculate it, whether or
  -- not a stop was requested: then the manager is the new one, the flag is reset, the error, if there
  -- is one, and then the end of the calculation are reported, and the next request can come.
  pub run-request :
      (x : CalculationData W) (n n' : M) (error : Option String) (stop_requested : Bool)
      (accepted : List (CalculationData W)) (events : List Event)
      → is_empty x.measurements ≡ false
      → process n x ≡ some (n', error)
      → run process
          (request x ∷ work ∷ work ∷ work ∷ work ∷ work ∷ [])
          (accepted, worker_of waiting none false stop_requested n events)
        ≡ (
          accepted ++ (x ∷ []),
          worker_of looping none false stop_requested n'
              (events ++ error_events error ++ (field_was_calculated (succeeded error) ∷ [])),
        )
  unfolding run act calculate_field_async worker_step
  run-request x n n' error stop_requested accepted events measured has_result =
      let Step : Type (ℓ ⊔ κ) = List (CalculationData W) × Worker M (CalculationData W) in
      let idle : Worker M (CalculationData W) =
        worker_of waiting none false stop_requested n events in
      let asked : Worker M (CalculationData W) =
        worker_of waiting (some x) true stop_requested n events in
      let busy : Worker M (CalculationData W) =
        worker_of (calculating x) none true stop_requested n events in
      let over : Worker M (CalculationData W) =
        worker_of (finished error) none true stop_requested n' events in
      let accepts_it : act process (request x) (accepted, idle) ≡ (accepted ++ (x ∷ []), asked) =
        rw (measured, act, calculate_field_async) in
      let calculates_it : act process work (accepted ++ (x ∷ []), busy)
          ≡ (accepted ++ (x ∷ []), over) =
        rw (has_result, act) in
      ap (λ (h : Step). run process (work ∷ work ∷ work ∷ work ∷ work ∷ []) h) accepts_it
      ∙ ap (λ (h : Step). run process (work ∷ work ∷ work ∷ []) h) calculates_it
