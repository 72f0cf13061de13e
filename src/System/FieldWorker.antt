-- ===== src/System/FieldWorker.antt =====
-- src/system/tpc.cpp: `calculate_field_async` and `field_worker_loop` of the facade TPC. A section
-- under `field_worker_mutex_` is one step, and so is the calculation, which no other thread writes
-- to. The events of the worker are a log; what a user's callback throws is swallowed by the code.
pub mod History
pub mod Steps
pub mod Order
pub mod Managers
pub mod Progress
mod Tests
use tpc_api.Double.{Double}
use tpc_api.Prelude.{
  ℕ, String, Bool, true, false, Option, none, some, List, [], ◌∷◌, ◌++◌, if◌then◌else◌,
  std_exception, other, Outcome, returned, thrown, failed, undefined, is_empty,
}
use tpc_api.Analytics.Models.{Measurement}
use tpc_api.Analytics.SvdSolver.{Eigen}
use tpc_api.Analytics.Manager.{Manager, calculate_svd_coefficients, calculate_field}
use Prim.Native.String.{◌++◌ as concat}

pub record CalculationData {ℓ} (W : Type ℓ) : Type ℓ where
  pub grid : ℕ × ℕ × ℕ
  pub measurements : List (Measurement W)
  pub radius : W
  pub length : W

pub data Event : Type 0 where
  error_occurred : String → Event
  field_was_calculated : Bool → Event

-- Where the worker is: before the start of the thread; at the test of the loop; in the wait; in the
-- calculation; after it, with the error if it failed; after the reset of
-- `field_calculation_in_progress_`; before the last event; at the end.
pub data Phase {ℓ} (D : Type ℓ) : Type ℓ where
  not_started : Phase D
  looping : Phase D
  waiting : Phase D
  calculating : D → Phase D
  finished : Option String → Phase D
  announcing : Option String → Phase D
  notifying : Bool → Phase D
  stopped : Phase D

pub record Worker {ℓ κ} (M : Type ℓ) (D : Type κ) : Type (ℓ ⊔ κ) where
  pub manager : M
  pub pending : Option D
  pub in_progress : Bool
  pub phase : Phase D
  pub stop_requested : Bool
  pub events : List Event

-- The thread starts with the first request.
abbrev pub started {ℓ} : {D : Type ℓ} → Phase D → Phase D
started not_started = looping
started phase = phase

-- The error that the worker invokes `error_occurred_` with, if the calculation failed.
abbrev pub error_events : Option String → List Event
error_events none = []
error_events (some error) = error_occurred (concat "Field calculation failed: " error) ∷ []

abbrev pub succeeded : Option String → Bool
succeeded none = true
succeeded (some error) = false

-- The second component is the warning, if there is one.
unfoldable pub calculate_field_async {ℓ κ} :
    {M : Type ℓ} {W : Type κ}
    → Worker M (CalculationData W)
    → List (Measurement W)
    → ℕ × ℕ × ℕ
    → W
    → W
    → Worker M (CalculationData W) × Option String
calculate_field_async s measurements grid radius length =
    if is_empty measurements
    then (s, none)
    else if s.in_progress
    then (s, some "Field calculation is already in progress")
    else (
      record s {
        phase = started s.phase;
        pending =
            some (record {
              grid = grid;
              measurements = measurements;
              radius = radius;
              length = length;
            });
        in_progress = true;
      },
      none,
    )

-- The calculation of one request, by the manager: the new manager, and the error if it failed.
-- There is none where the behaviour is undefined. `threshold` is 5.2e-4F, widened.
abbrev pub error_of {ℓ} : {M : Type ℓ} → M → Outcome (Unit {0}) → Option (M × Option String)
error_of m (returned u) = some (m, none)
error_of m (failed error) = some (m, some error)
error_of m (thrown (std_exception what)) = some (m, some what)
error_of m (thrown other) = some (m, some "Unknown error during field calculation")
error_of m undefined = none

abbrev pub after_fit {ℓ} :
    {M : Type ℓ}
    → M
    → Outcome (Unit {0})
    → (M → M × Outcome (Unit {0}))
    → Option (M × Option String)
after_fit m (returned u) rest = error_of (rest m).0 (rest m).1
after_fit m outcome rest = error_of m outcome

unfoldable pub calculate {ℓ} :
    {W : Type ℓ} ⦃d : Double W⦄
    → Eigen W
    → ℕ
    → W
    → Manager W
    → CalculationData W
    → Option (Manager W × Option String)
calculate eigen fuel threshold m request =
    let ((fitted, points), outcome) =
      calculate_svd_coefficients eigen (m, request.measurements) threshold in
    after_fit fitted outcome
      λ fitted'. calculate_field fuel fitted' request.grid request.radius request.length

module _ {ℓ κ} {M : Type ℓ} {D : Type κ} (process : M → D → Option (M × Option String)) where
  -- One step of `field_worker_loop`; none while it waits, or after its end.
  unfoldable pub worker_step : Phase D → Worker M D → Option (Worker M D)
  worker_step not_started s = none
  worker_step looping s =
      if s.stop_requested
      then some (record s { phase = stopped })
      else some (record s { phase = waiting })
  worker_step waiting s = elim s.pending [
    | some calculation ↦ some (record s { phase = calculating calculation; pending = none })
    | none ↦ if s.stop_requested then some (record s { phase = stopped }) else none
  ]
  worker_step (calculating calculation) s = elim (process s.manager calculation) [
    | none ↦ none
    | some (m, error) ↦ some (record s { manager = m; phase = finished error })
  ]
  worker_step (finished error) s = some (record s { in_progress = false; phase = announcing error })
  worker_step (announcing error) s =
      some
        (record s { events = s.events ++ error_events error; phase = notifying (succeeded error) })
  worker_step (notifying success) s =
      some (record s { events = s.events ++ (field_was_calculated success ∷ []); phase = looping })
  worker_step stopped s = none
