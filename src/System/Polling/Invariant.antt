-- ===== src/System/Polling/Invariant.antt =====
-- What holds of the polling worker after any history.
use tpc_api.Prelude.{
  ℕ, suc, ◌+◌, ◌%◌, ◌^◌, ◌≤◌, ◌<◌, String, ◌≡◌, refl, inl, inr, Bool, true, false, not, ◌||◌,
  Option, none, some, List, [], ◌∷◌, arith, ◌==◌, Bool-cases, Eq, length, get_elem?, Expected,
  expected, unexpected,
}
use tpc_api.Prelude.{nat_eq}
use tpc_api.Double.{Double}
use tpc_api.Prelude.UnorderedMap.{UnorderedMap}
use tpc_api.System.Connection.{Connection, connect_async}
use tpc_api.System.Polling.{
  is_over, Phase, testing, reading, locking, waiting, ended, PollingWorker, Polling, Round,
  report_connect, start_async, stop_async, request_stop, replace_stopped, start_polling_async,
  next_phase, poll,
}
use tpc_api.System.Polling.Histories.{
  Action, connecting, client_acting, starting, stopping, working, leaving, work_on, leave_on, act,
  run,
}

-- What is so of a worker: it has ended by its stop token only, and it waits with a revision that was
-- the current one.
abbrev pub IsPhase : ℕ → Bool → Phase → Type 0
IsPhase revision token_stopped ended = token_stopped ≡ true
IsPhase revision token_stopped (waiting interval read_revision) = read_revision ≤ revision
IsPhase revision token_stopped _ = Unit {0}

abbrev pub IsWorker : ℕ → Option PollingWorker → Type 0
IsWorker revision none = Unit {0}
IsWorker revision (some worker) = IsPhase revision worker.token_stopped worker.phase

abbrev pub IsPolling {ℓ} : {F : Type ℓ} → ℕ → Polling F → Type 0
IsPolling n p =
    (p.polling_interval_revision ≤ n) × IsWorker p.polling_interval_revision p.polling_worker

next_phase-IsPhase :
    (phase : Phase) (interval revision : ℕ) (token_stopped elapsed : Bool)
    → IsPhase revision token_stopped phase
    → IsPhase revision token_stopped (next_phase interval revision token_stopped elapsed phase)
next_phase-IsPhase testing interval revision true elapsed h = refl
next_phase-IsPhase testing interval revision false elapsed h = tt
next_phase-IsPhase reading interval revision token_stopped elapsed h = tt
next_phase-IsPhase locking interval revision token_stopped elapsed h = ground arith
next_phase-IsPhase (waiting i r) interval revision token_stopped elapsed h =
    elim (Bool-cases (token_stopped || not (revision == r) || is_over i elapsed)) [
      | inl over ↦ rw over tt
      | inr not_over ↦ rw not_over h
    ]
next_phase-IsPhase ended interval revision token_stopped elapsed h = h

stopped-IsPhase :
    (phase : Phase) (revision : ℕ) (token_stopped : Bool)
    → IsPhase revision token_stopped phase
    → IsPhase revision true phase
stopped-IsPhase testing revision token_stopped h = tt
stopped-IsPhase reading revision token_stopped h = tt
stopped-IsPhase locking revision token_stopped h = tt
stopped-IsPhase (waiting i r) revision token_stopped h = h
stopped-IsPhase ended revision token_stopped h = refl

later-IsPhase :
    (phase : Phase) (revision later : ℕ) (token_stopped : Bool)
    → revision ≤ later
    → IsPhase revision token_stopped phase
    → IsPhase later token_stopped phase
later-IsPhase testing revision later token_stopped h is_phase = tt
later-IsPhase reading revision later token_stopped h is_phase = tt
later-IsPhase locking revision later token_stopped h is_phase = tt
later-IsPhase (waiting i r) revision later token_stopped h is_phase = omega arith
later-IsPhase ended revision later token_stopped h is_phase = is_phase

replace_stopped-some :
    (phase : Phase) (token_stopped : Bool) (stopped_workers : List PollingWorker) (revision : ℕ)
    → IsPhase revision token_stopped phase
    → (phase' : Phase) × IsPhase revision false phase'
      × ((replace_stopped
            (some (record { phase = phase; token_stopped = token_stopped }))
            stopped_workers).0
          ≡ some (record { phase = phase'; token_stopped = false }))
replace_stopped-some phase true stopped_workers revision h = (testing, tt, refl)
replace_stopped-some phase false stopped_workers revision h = (phase, h, refl)

-- A call of `start_polling_async` leaves a worker that is not stopped.
pub replace_stopped_lem :
    (worker : Option PollingWorker) (stopped_workers : List PollingWorker) (revision : ℕ)
    → IsWorker revision worker
    → (phase : Phase) × IsPhase revision false phase
      × ((replace_stopped worker stopped_workers).0
          ≡ some (record { phase = phase; token_stopped = false }))
replace_stopped_lem none stopped_workers revision h = (testing, tt, refl)
replace_stopped_lem (some worker) stopped_workers revision h =
    replace_stopped-some worker.phase worker.token_stopped stopped_workers revision h

report_connect-IsPolling {ℓ} :
    {F : Type ℓ} (p : Polling F) (result : Expected Bool) (n : ℕ)
    → IsPolling n p
    → IsPolling n (report_connect p result)
report_connect-IsPolling p (unexpected error) n h = h
report_connect-IsPolling p (expected true) n h = h
report_connect-IsPolling p (expected false) n h = h

start_polling_async-IsPolling {ℓ} :
    {F : Type ℓ} (p : Polling F) (polling_interval_ms n : ℕ)
    → IsPolling n p
    → suc n < 2 ^ 64
    → IsPolling (suc n) (start_polling_async p polling_interval_ms)
unfolding start_polling_async
start_polling_async-IsPolling p polling_interval_ms n (below, is_worker) small =
    let next_one : (p.polling_interval_revision + 1) % 2 ^ 64 ≡ suc p.polling_interval_revision =
      omega arith in
    let (phase, is_phase, at) =
      replace_stopped_lem p.polling_worker p.stopped_workers p.polling_interval_revision
        is_worker in
    elim (Bool-cases (polling_interval_ms == 0)) [
      | inl none_ ↦ rw none_ (omega arith, is_worker)
      | inr some_ ↦
          rw (some_, next_one, at)
            (
              omega arith,
              later-IsPhase phase p.polling_interval_revision (suc p.polling_interval_revision)
                  false (omega arith) is_phase,
            )
    ]

request_stop-IsWorker :
    (worker : Option PollingWorker) (revision : ℕ)
    → IsWorker revision worker
    → IsWorker revision (request_stop worker)
request_stop-IsWorker none revision h = tt
request_stop-IsWorker (some worker) revision h =
    stopped-IsPhase worker.phase revision worker.token_stopped h

module _ {ℓ κ} {N : Type ℓ} {W : Type κ} ⦃e : Eq N⦄ ⦃d : Double W⦄
    (bad_optional_access : String) where
  work_on-IsPolling :
      (p : Polling (UnorderedMap String W)) (worker : Option PollingWorker) (round : Round N W)
      (n : ℕ)
      → IsWorker p.polling_interval_revision worker
      → IsPolling n p
      → IsPolling n (work_on bad_optional_access p worker round)
  unfolding poll
  work_on-IsPolling p none round n is_worker h = h
  work_on-IsPolling p (some worker) round n is_worker (below, _) = (
    below,
    next_phase-IsPhase worker.phase p.polling_interval_ms p.polling_interval_revision
        worker.token_stopped round.elapsed is_worker,
  )

  leave_on-IsPolling :
      (p : Polling (UnorderedMap String W)) (i : ℕ) (worker : Option PollingWorker)
      (round : Round N W) (n : ℕ)
      → IsPolling n p
      → IsPolling n (leave_on bad_optional_access p i worker round)
  leave_on-IsPolling p i none round n h = h
  leave_on-IsPolling p i (some worker) round n h = h

  act-IsPolling :
      (action : Action N W) (p : Polling (UnorderedMap String W)) (c : Connection) (n : ℕ)
      → IsPolling n p
      → suc n < 2 ^ 64
      → IsPolling (suc n) (act bad_optional_access action p c).0
  unfolding act start_async stop_async
  act-IsPolling connecting p c n (below, is_worker) small =
      report_connect-IsPolling p (connect_async c).1 (suc n) (omega arith, is_worker)
  act-IsPolling (client_acting action) p c n (below, is_worker) small = (omega arith, is_worker)
  act-IsPolling (starting polling_interval_ms) p c n h small =
      start_polling_async-IsPolling p polling_interval_ms n h small
  act-IsPolling stopping p c n (below, is_worker) small =
      (omega arith, request_stop-IsWorker p.polling_worker p.polling_interval_revision is_worker)
  act-IsPolling (working round) p c n (below, is_worker) small =
      work_on-IsPolling p p.polling_worker round (suc n) is_worker (omega arith, is_worker)
  act-IsPolling (leaving i round) p c n (below, is_worker) small =
      leave_on-IsPolling p i (get_elem? p.stopped_workers i) round (suc n) (omega arith, is_worker)

  pub run-IsPolling :
      (actions : List (Action N W)) (p : Polling (UnorderedMap String W)) (c : Connection) (n : ℕ)
      → IsPolling n p
      → n + length actions < 2 ^ 64
      → IsPolling (n + length actions) (run bad_optional_access actions p c).0
  unfolding run
  run-IsPolling [] p c n (below, is_worker) small = (omega arith, is_worker)
  run-IsPolling (action ∷ actions) p c n h small =
      let (p', c') : Polling (UnorderedMap String W) × Connection =
        act bad_optional_access action p c in
      let (below, is_worker) =
        run-IsPolling actions p' c' (suc n) (act-IsPolling action p c n h (omega arith))
          (omega arith) in
      (omega arith, is_worker)
