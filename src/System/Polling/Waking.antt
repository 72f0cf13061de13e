-- ===== src/System/Polling/Waking.antt =====
-- How the polling worker takes up a new interval, and how it ends.
use tpc_api.Prelude.{
  ℕ, suc, ◌+◌, ◌%◌, ◌^◌, ◌<◌, String, ◌≡◌, refl, sym, ap, ◌∙◌, subst, Bool, true, false, Option,
  none, some, List, [], ◌∷◌, map, arith, ◌==◌, Eq, length, before,
}
use tpc_api.Prelude.{nat_eq}
use tpc_api.Double.{Double}
use tpc_api.Prelude.Int.{pos}
use tpc_api.Prelude.UnorderedMap.{UnorderedMap}
use tpc_api.System.Connection.{Connection}
use tpc_api.System.Polling.{
  Phase, testing, reading, locking, waiting, ended, PollingWorker, Polling, Round, stop_async,
  request_stop, start_polling_async, milliseconds, next_phase, poll,
}
use tpc_api.System.Polling.Histories.{
  Action, starting, stopping, working, act, run, idle, early, has_ended, work_on,
}
use tpc_api.System.Polling.Invariant.{IsPhase, IsPolling, run-IsPolling, replace_stopped_lem}

module _ {ℓ κ} {N : Type ℓ} {W : Type κ} where
  -- The phase after some steps, while no call is made.
  abbrev phases : ℕ → ℕ → Bool → List (Round N W) → Phase → Phase
  phases interval revision token_stopped [] phase = phase
  phases interval revision token_stopped (round ∷ rounds) phase =
      phases interval revision token_stopped rounds
        (next_phase interval revision token_stopped round.elapsed phase)

  phases-early :
      (phase : Phase) (interval before revision : ℕ) (a b c d : Round N W)
      → milliseconds interval ≡ pos interval
      → before < revision
      → IsPhase before false phase
      → phases interval revision false (early a ∷ early b ∷ early c ∷ early d ∷ []) phase
        ≡ waiting (pos interval) revision
  phases-early testing interval before revision a b c d fits later h = rw fits (ground arith)
  phases-early reading interval before revision a b c d fits later h = rw fits (ground arith)
  phases-early locking interval before revision a b c d fits later h = rw fits (ground arith)
  phases-early (waiting i r) interval before revision a b c d fits later h =
      let other_one : (revision == r) ≡ false = ground arith in rw (other_one, fits) refl
  phases-early ended interval before revision a b c d fits later h = ground arith

  phases-stopped :
      (phase : Phase) (interval revision : ℕ) (a b c d : Round N W)
      → phases interval revision true (a ∷ b ∷ c ∷ d ∷ []) phase ≡ ended
  phases-stopped testing interval revision a b c d = refl
  phases-stopped reading interval revision a b c d = refl
  phases-stopped locking interval revision a b c d = refl
  phases-stopped (waiting i r) interval revision a b c d = refl
  phases-stopped ended interval revision a b c d = refl

milliseconds-small : (n : ℕ) → n < 2 ^ 63 → milliseconds n ≡ pos n
unfolding milliseconds
milliseconds-small n small = ground arith

start_polling_async_lem {ℓ} :
    {F : Type ℓ} (p : Polling F) (interval n : ℕ)
    → 0 < interval
    → IsPolling n p
    → suc n < 2 ^ 64
    → let p' = start_polling_async p interval in
      (phase : Phase) × IsPhase p.polling_interval_revision false phase
      × (p'.polling_worker ≡ some (record { phase = phase; token_stopped = false }))
      × (p'.polling_interval_ms ≡ interval)
      × (p'.polling_interval_revision ≡ suc p.polling_interval_revision)
unfolding start_polling_async
start_polling_async_lem p interval n positive (below, is_worker) small =
    let next_one : (p.polling_interval_revision + 1) % 2 ^ 64 ≡ suc p.polling_interval_revision =
      omega arith in
    let some_ : (interval == 0) ≡ false = ground (arith, positive) in
    let (phase, is_phase, at) =
      replace_stopped_lem p.polling_worker p.stopped_workers p.polling_interval_revision
        is_worker in
    (phase, is_phase, rw some_ at, rw some_ refl, rw (some_, next_one) refl)

module _ {ℓ κ} {N : Type ℓ} {W : Type κ} ⦃e : Eq N⦄ ⦃d : Double W⦄
    (bad_optional_access : String) where
  run-working :
      (rounds : List (Round N W)) (p : Polling (UnorderedMap String W)) (c : Connection)
      (phase : Phase) (token_stopped : Bool)
      → p.polling_worker ≡ some (record { phase = phase; token_stopped = token_stopped })
      → let p' = (run bad_optional_access (map working rounds) p c).0 in
        (p'.polling_worker
          ≡ some (record {
            phase =
                phases p.polling_interval_ms p.polling_interval_revision token_stopped rounds phase;
            token_stopped = token_stopped;
          }))
        × (p'.polling_interval_ms ≡ p.polling_interval_ms)
        × (p'.polling_interval_revision ≡ p.polling_interval_revision)
  unfolding run act poll
  run-working [] p c phase token_stopped h = (h, refl, refl)
  run-working (round ∷ rounds) p c phase token_stopped h =
      let worker : PollingWorker = record { phase = phase; token_stopped = token_stopped } in
      let phase' : Phase =
        next_phase p.polling_interval_ms p.polling_interval_revision token_stopped round.elapsed
          phase in
      let reached =
        run-working rounds (work_on bad_optional_access p (some worker) round) c phase'
          token_stopped refl in
      subst
        (λ q.
          let p' =
            (run bad_optional_access (map working rounds) (work_on bad_optional_access p q round)
              c).0 in
          (p'.polling_worker
            ≡ some (record {
              phase =
                  phases p.polling_interval_ms p.polling_interval_revision token_stopped rounds
                    phase';
              token_stopped = token_stopped;
            }))
          × (p'.polling_interval_ms ≡ p.polling_interval_ms)
          × (p'.polling_interval_revision ≡ p.polling_interval_revision))
        (sym h) reached

  run-working_idle :
      (rounds : List (Round N W)) (p : Polling (UnorderedMap String W)) (c : Connection)
      → p.polling_worker ≡ none
      → (run bad_optional_access (map working rounds) p c).0.polling_worker ≡ none
  unfolding run act
  run-working_idle [] p c h = h
  run-working_idle (round ∷ rounds) p c h =
      subst
        (λ q.
          (run bad_optional_access (map working rounds) (work_on bad_optional_access p q round)
            c).0.polling_worker
          ≡ none)
        (sym h) (run-working_idle rounds p c h)

  run-working_stopped :
      (worker : Option PollingWorker) (p : Polling (UnorderedMap String W)) (c : Connection)
      (r s t u : Round N W)
      → p.polling_worker ≡ request_stop worker
      → has_ended (run bad_optional_access (map working (r ∷ s ∷ t ∷ u ∷ [])) p c).0.polling_worker
        ≡ true
  run-working_stopped none p c r s t u h =
      ap has_ended (run-working_idle (r ∷ s ∷ t ∷ u ∷ []) p c h)
  run-working_stopped (some worker) p c r s t u h =
      let (reached, _, _) = run-working (r ∷ s ∷ t ∷ u ∷ []) p c worker.phase true h in
      ap has_ended reached
      ∙ ap (λ phase. has_ended (some (record { phase = phase; token_stopped = true })))
          (phases-stopped worker.phase p.polling_interval_ms p.polling_interval_revision r s t u)

  run-working_started :
      (p : Polling (UnorderedMap String W)) (c : Connection) (interval before : ℕ) (phase : Phase)
      (r s t u : Round N W)
      → milliseconds p.polling_interval_ms ≡ pos p.polling_interval_ms
      → before < p.polling_interval_revision
      → IsPhase before false phase
      → p.polling_worker ≡ some (record { phase = phase; token_stopped = false })
      → p.polling_interval_ms ≡ interval
      → let p' =
          (run bad_optional_access
            (map working (early r ∷ early s ∷ early t ∷ early u ∷ []))
            p
            c).0 in
        (p'.polling_worker
          ≡ some (record {
            phase = waiting (pos interval) p'.polling_interval_revision;
            token_stopped = false;
          }))
        × (p'.polling_interval_ms ≡ interval)
  run-working_started p c interval before phase r s t u fits later is_phase at kept =
      let (reached, interval_kept, revision_kept) =
        run-working (early r ∷ early s ∷ early t ∷ early u ∷ []) p c phase false at in
      let settled =
        phases-early phase p.polling_interval_ms before p.polling_interval_revision r s t u fits
          later is_phase in
      let as_waiting : Phase → Option PollingWorker =
        λ phase'. some (record { phase = phase'; token_stopped = false }) in
      (
        reached
            ∙ ap as_waiting settled
            ∙ ap (λ i. as_waiting (waiting (pos i) p.polling_interval_revision)) kept
            ∙ ap (λ i. as_waiting (waiting (pos interval) i)) (sym revision_kept),
        interval_kept ∙ kept,
      )

  -- After any history of fewer than 2^64 - 1 calls and steps: if polling is started with a positive
  -- interval of less than 2^63 milliseconds, then after four steps of the worker, at each of which the interval of a wait is not
  -- over, the worker waits with that interval and the current revision and is not stopped. If instead
  -- a stop is requested, then after four steps the worker has ended, or there is none.
  pub run-starting :
      (actions : List (Action N W)) (endpoint_state : Connection) (interval : ℕ)
      (r s t u : Round N W)
      → 0 < interval
      → interval < 2 ^ 63
      → length actions + 1 < 2 ^ 64
      → let (p, c) = run bad_optional_access actions idle endpoint_state in
        let restarted =
          (run bad_optional_access
            (starting interval
              ∷ working (early r)
              ∷ working (early s)
              ∷ working (early t)
              ∷ working (early u)
              ∷ [])
            p
            c).0 in
        let stopped =
          (run bad_optional_access
            (stopping ∷ working r ∷ working s ∷ working t ∷ working u ∷ [])
            p
            c).0 in
        (restarted.polling_worker
          ≡ some (record {
            phase = waiting (pos interval) restarted.polling_interval_revision;
            token_stopped = false;
          }))
        × (restarted.polling_interval_ms ≡ interval)
        × (has_ended stopped.polling_worker ≡ true)
  unfolding run act stop_async
  run-starting actions endpoint_state interval r s t u positive fits small =
      let (p, c) : Polling (UnorderedMap String W) × Connection =
        run bad_optional_access actions idle endpoint_state in
      let is_polling =
        run-IsPolling bad_optional_access actions idle endpoint_state 0 (omega arith, tt)
          (omega arith) in
      let (phase, is_phase, at, interval_at, next_one) =
        start_polling_async_lem p interval (0 + length actions) positive is_polling (omega arith) in
      let as_signed = milliseconds-small interval fits in
      let (waits, kept) =
        run-working_started (start_polling_async p interval) c interval p.polling_interval_revision
          phase r s t u (subst (λ i. milliseconds i ≡ pos i) (sym interval_at) as_signed)
          (omega arith) is_phase at interval_at in
      let (stopped_p, stopped_c) : Polling (UnorderedMap String W) × Connection = stop_async p c in
      (waits, kept, run-working_stopped p.polling_worker stopped_p stopped_c r s t u refl)
