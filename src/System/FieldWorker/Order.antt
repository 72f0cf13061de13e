-- ===== src/System/FieldWorker/Order.antt =====
-- The field worker serves the accepted requests one after the other, whatever the interleaving of
-- its steps with the calls of `calculate_field_async`.
use tpc_api.Prelude.{String, refl, false, Option, none, List, [], ◌∷◌}
use tpc_api.System.FieldWorker.{CalculationData, not_started, Worker, calculate_field_async}
use tpc_api.System.FieldWorker.History.{Action, request, work, stop, act, run, InOrder}
use tpc_api.System.FieldWorker.Steps.{work-InOrder, request-InOrder}

module _ {ℓ κ} {M : Type ℓ} {W : Type κ}
    (process : M → CalculationData W → Option (M × Option String)) where
  act-InOrder :
      (m : M) (action : Action W) (h : List (CalculationData W) × Worker M (CalculationData W))
      → InOrder process m h
      → InOrder process m (act process action h)
  unfolding act calculate_field_async
  act-InOrder m work (accepted, s) h =
      work-InOrder process m accepted s.phase s.pending s.in_progress s.stop_requested s.manager
        s.events h
  act-InOrder m stop (accepted, s) h = h
  act-InOrder m (request calculation) (accepted, s) h =
      request-InOrder process m accepted calculation s.phase s.pending s.in_progress
        s.stop_requested s.manager s.events h

  -- From a new facade, after any interleaving of requests, steps of the worker and stop requests:
  -- the accepted requests but the last one at most have been served in the order of their
  -- acceptance, and the manager and the events, with those still to be invoked for the calculation
  -- that is just over, are those of serving them one after the other. The request left is the one in
  -- calculation or pending, and `field_calculation_in_progress_` agrees with it.
  pub run-InOrder :
      (m : M) (actions : List (Action W))
      → InOrder process m (
          run process actions (
            [],
            record {
              manager = m;
              pending = none;
              in_progress = false;
              phase = not_started;
              stop_requested = false;
              events = [];
            },
          ))
  unfolding run
  run-InOrder m actions = run-InOrder_from actions _ ((refl, refl), ([], refl, refl))
    where
      run-InOrder_from :
          (actions : List (Action W)) (h : List (CalculationData W) × Worker M (CalculationData W))
          → InOrder process m h
          → InOrder process m (run process actions h)
      run-InOrder_from [] h p = p
      run-InOrder_from (action ∷ actions) h p =
          run-InOrder_from actions (act process action h) (act-InOrder m action h p)
