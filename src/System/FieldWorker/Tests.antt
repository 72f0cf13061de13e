-- ===== src/System/FieldWorker/Tests.antt =====
-- Histories of a worker whose calculation adds the radius to a number, and fails on the radius 0.
use tpc_api.Prelude.{
  ℕ, ◌+◌, String, ◌≡◌, refl, true, false, Option, none, some, List, [], ◌∷◌, ◌==◌, if◌then◌else◌,
}
use tpc_api.Analytics.Models.{Measurement, cartesian}
use tpc_api.System.FieldWorker.{
  CalculationData, error_occurred, field_was_calculated, not_started, waiting, looping, Worker,
  calculate_field_async, worker_step,
}
use tpc_api.System.FieldWorker.History.{Action, request, work, stop, act, run, InOrder}
use tpc_api.System.FieldWorker.Order.{run-InOrder}
use tpc_api.System.FieldWorker.Progress.{run-request}

abbrev adding : ℕ → CalculationData ℕ → Option (ℕ × Option String)
adding m calculation =
    if calculation.radius == 0 then some (m, some "zero") else some (m + calculation.radius, none)

abbrev measured : Measurement ℕ
measured = record {
  point_components = record { components = (1, 2, 3); coordinate_type = cartesian };
  field_components = record { components = (1, 2, 3); coordinate_type = cartesian };
}

abbrev asking : ℕ → CalculationData ℕ
asking r = record { grid = (2, 2, 2); measurements = measured ∷ []; radius = r; length = 7 }

-- The second request comes too early; the third one before the events of the first one.
abbrev busy_day : List (Action ℕ)
busy_day =
    request (asking 4)
    ∷ work
    ∷ work
    ∷ request (asking 5)
    ∷ work
    ∷ work
    ∷ request (asking 0)
    ∷ work
    ∷ work
    ∷ work
    ∷ work
    ∷ work
    ∷ work
    ∷ work
    ∷ work
    ∷ stop
    ∷ work
    ∷ []

abbrev new_worker : Worker ℕ (CalculationData ℕ)
new_worker = record {
  manager = 1;
  pending = none;
  in_progress = false;
  phase = not_started;
  stop_requested = false;
  events = [];
}

reported :
    (run adding busy_day ([], new_worker)).1.events
    ≡ field_was_calculated true
      ∷ error_occurred "Field calculation failed: zero"
      ∷ field_was_calculated false
      ∷ []
unfolding run act calculate_field_async worker_step
reported = refl

run-InOrder_example : InOrder adding 1 (run adding busy_day ([], new_worker))
run-InOrder_example = run-InOrder adding 1 busy_day

abbrev waiting_worker : Worker ℕ (CalculationData ℕ)
waiting_worker = record new_worker { phase = waiting }

run-request_example :
    run adding (request (asking 4) ∷ work ∷ work ∷ work ∷ work ∷ work ∷ []) ([], waiting_worker) ≡ (
      asking 4 ∷ [],
      record new_worker { manager = 5; phase = looping; events = field_was_calculated true ∷ [] },
    )
run-request_example = run-request adding (asking 4) 1 5 none false [] [] refl refl
