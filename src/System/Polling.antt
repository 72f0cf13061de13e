-- ===== src/System/Polling.antt =====
-- src/system/tpc.cpp: `start_async`, `stop_async`, `start_polling_async` and `polling_worker_loop` of
-- the facade TPC. A section under `polling_worker_mutex_` is one step. The events are a log.
pub mod Histories
pub mod Invariant
pub mod Waking
mod Tests
use tpc_api.Prelude.{
  ℕ, ◌+◌, ◌-◌, ◌%◌, ◌^◌, String, Bool, true, false, not, ◌||◌, Option, none, some, List, [], ◌∷◌,
  ◌++◌, ltb, ◌==◌, if◌then◌else◌, Eq, Expected, expected, unexpected, Exception, std_exception,
  other,
}
use tpc_api.Prelude.{nat_eq}
use tpc_api.Double.{Double}
use tpc_api.Prelude.Int.{ℤ, pos, negsuc}
use tpc_api.Prelude.UnorderedMap.{UnorderedMap}
use tpc_api.System.Client.{Client}
use tpc_api.System.Calibration.{get_frame_request}
use tpc_api.System.Connection.{Connection, connect_async, stop}
use Prim.Native.String.{◌++◌ as concat}

-- Where a polling worker is: at the test of the loop; before the frame; before the wait; in the wait
-- with the interval and the revision that it has read; at the end.
pub data Phase : Type 0 where
  testing : Phase
  reading : Phase
  locking : Phase
  waiting : ℤ → ℕ → Phase
  ended : Phase

-- A worker thread with its stop token.
pub record PollingWorker : Type 0 where
  pub phase : Phase
  pub token_stopped : Bool

pub data Event {ℓ} (F : Type ℓ) : Type ℓ where
  frame_received : F → Event F
  error_occurred : String → Event F
  warning_occurred : String → Event F

-- `polling_worker` is none for a thread that is not joinable. The calls of `start_polling_async`
-- that wait in the destructor of `stopped_worker` hold the threads of `stopped_workers`.
pub record Polling {ℓ} (F : Type ℓ) : Type ℓ where
  pub polling_worker : Option PollingWorker
  pub polling_interval_ms : ℕ
  pub polling_interval_revision : ℕ
  pub stopped_workers : List PollingWorker
  pub events : List (Event F)

-- What a step of a worker meets: the client, what a handler of the frame throws, and whether the
-- interval of the wait, if it is not negative, is over.
pub record Round {ℓ κ} (N : Type ℓ) (W : Type κ) : Type (ℓ ⊔ κ) where
  pub client : Client N W
  pub thrown_ : Option Exception
  pub elapsed : Bool

abbrev pub fresh_worker : PollingWorker
fresh_worker = record { phase = testing; token_stopped = false }

abbrev pub request_stop : Option PollingWorker → Option PollingWorker
request_stop none = none
request_stop (some worker) = some (record worker { token_stopped = true })

-- The thread that is left, and the one that is moved away.
abbrev pub replace_stopped :
    Option PollingWorker → List PollingWorker → Option PollingWorker × List PollingWorker
replace_stopped none stopped_workers = (some fresh_worker, stopped_workers)
replace_stopped (some worker) stopped_workers =
    if worker.token_stopped
    then (some fresh_worker, worker ∷ stopped_workers)
    else (some worker, stopped_workers)

-- `std::chrono::milliseconds{polling_interval_ms_}`: the unsigned number of 64 bits as a signed one.
unfoldable pub milliseconds : ℕ → ℤ
milliseconds n = if ltb n (2 ^ 63) then pos n else negsuc (2 ^ 64 - 1 - n)

-- Whether the interval of a wait is over; a negative one is over at once.
abbrev pub is_over : ℤ → Bool → Bool
is_over (pos n) elapsed = elapsed
is_over (negsuc n) elapsed = true

-- The wait ends with a stop, another revision, or the interval.
abbrev pub next_phase : ℕ → ℕ → Bool → Bool → Phase → Phase
next_phase interval revision token_stopped elapsed testing =
    if token_stopped then ended else reading
next_phase interval revision token_stopped elapsed reading = locking
next_phase interval revision token_stopped elapsed locking =
    waiting (milliseconds interval) revision
next_phase interval revision token_stopped elapsed (waiting read_interval read_revision) =
    if token_stopped || not (revision == read_revision) || is_over read_interval elapsed
    then testing
    else waiting read_interval read_revision
next_phase interval revision token_stopped elapsed ended = ended

-- The `try` of the loop. `value()` throws on an empty frame, with the text of that exception. What
-- the handlers of `error_occurred_` throw is swallowed by the code.
abbrev pub frame_events {ℓ} : {F : Type ℓ} → String → Option F → Option Exception → List (Event F)
frame_events bad_optional_access none thrown_ =
    error_occurred (concat "Frame polling failed: " bad_optional_access) ∷ []
frame_events bad_optional_access (some frame) none = frame_received frame ∷ []
frame_events bad_optional_access (some frame) (some (std_exception what)) =
    frame_received frame ∷ error_occurred (concat "Frame polling failed: " what) ∷ []
frame_events bad_optional_access (some frame) (some other) =
    frame_received frame ∷ error_occurred "Frame polling failed: unknown error" ∷ []

module _ {ℓ} {F : Type ℓ} where
  -- The result of `connect_async`: an error, or whether the client was not running yet.
  abbrev pub report_connect : Polling F → Expected Bool → Polling F
  report_connect p (unexpected error) = record p {
    events = p.events ++ (error_occurred error ∷ []);
  }
  report_connect p (expected true) = p
  report_connect p (expected false) = record p {
    events = p.events ++ (warning_occurred "TPC client is already running" ∷ []);
  }

  unfoldable pub start_async : Polling F → Connection → Polling F × Connection
  start_async p connection =
      let (connection', result) = connect_async connection in (report_connect p result, connection')

  unfoldable pub stop_async : Polling F → Connection → Polling F × Connection
  stop_async p connection =
      (record p { polling_worker = request_stop p.polling_worker }, stop connection)

  unfoldable pub start_polling_async : Polling F → ℕ → Polling F
  start_polling_async p polling_interval_ms =
      let (worker, stopped_workers) = replace_stopped p.polling_worker p.stopped_workers in
      if polling_interval_ms == 0
      then record p {
        events = p.events ++ (warning_occurred "Polling interval must be greater than zero" ∷ []);
      }
      else record p {
        polling_worker = worker;
        polling_interval_ms = polling_interval_ms;
        polling_interval_revision = (p.polling_interval_revision + 1) % 2 ^ 64;
        stopped_workers = stopped_workers;
      }

module _ {ℓ κ} {N : Type ℓ} {W : Type κ} ⦃e : Eq N⦄ ⦃d : Double W⦄
    (bad_optional_access : String) where
  unfoldable pub poll_events : Phase → Round N W → List (Event (UnorderedMap String W))
  poll_events reading round =
      frame_events bad_optional_access (get_frame_request round.client) round.thrown_
  poll_events phase round = []

  -- One step of a worker.
  unfoldable pub poll :
      Polling (UnorderedMap String W)
      → PollingWorker
      → Round N W
      → PollingWorker × List (Event (UnorderedMap String W))
  poll p worker round = (
    record worker {
      phase =
          next_phase p.polling_interval_ms p.polling_interval_revision worker.token_stopped
            round.elapsed worker.phase;
    },
    poll_events worker.phase round,
  )
