-- ===== src/System/Connection/Stopping.antt =====
-- How a stop ends the worker of the connection, in whatever phase it comes.
use tpc_api.Prelude.{
  String, ◌≡◌, refl, sym, ◌∙◌, ◌≢◌, inl, inr, Bool, true, false, none, List, [], ◌∷◌, Bool-cases,
}
use tpc_api.Prelude.{string_eq}
use tpc_api.System.Connection.{
  Phase, absent, starting, testing, iterating, leaving, finishing, Connection, stop, start, work,
}
use tpc_api.System.Connection.Histories.{
  Action, stopping, working, act, run, disconnected, is_active, run-IsConsistent_from,
  run-has_client, run-endpoint,
}

named_endpoint : (endpoint : String) → endpoint ≢ "" → string_eq.beq endpoint "" ≡ false
named_endpoint endpoint named = elim (Bool-cases (string_eq.beq endpoint "")) [
  | inl none_ ↦ absurd (named ((string_eq.beq_iff endpoint "").0 none_))
  | inr some_ ↦ some_
]

-- By the phase in which the stop comes.
ends :
    (phase : Phase) (endpoint : String) (running has_client stop_requested token_stopped : Bool)
    (errors : List String)
    → has_client ≡ true
    → running ≡ is_active phase
    → endpoint ≢ ""
    → let after =
        run (stopping ∷ working none ∷ working none ∷ working none ∷ working none ∷ []) (record {
          endpoint = endpoint;
          has_client = has_client;
          running = running;
          stop_requested = stop_requested;
          token_stopped = token_stopped;
          phase = phase;
          errors = errors;
        }) in
      (after.running ≡ false) × (after.phase ≡ absent) × (after.errors ≡ errors)
unfolding run act stop work start
ends absent endpoint running has_client stop_requested token_stopped errors kept h named =
    (h, refl, refl)
ends starting endpoint running has_client stop_requested token_stopped errors kept h named =
    rw (kept, named_endpoint endpoint named, run, act) (refl, refl, refl)
ends testing endpoint running has_client stop_requested token_stopped errors kept h named =
    (refl, refl, refl)
ends iterating endpoint running has_client stop_requested token_stopped errors kept h named =
    (refl, refl, refl)
ends leaving endpoint running has_client stop_requested token_stopped errors kept h named =
    (refl, refl, refl)
ends finishing endpoint running has_client stop_requested token_stopped errors kept h named =
    (refl, refl, refl)

-- After any history of a client with an endpoint, in whatever phase its worker is: once a stop is
-- requested and the library throws nothing more, four steps of the worker end it, with no further
-- error, and the client is not running.
pub run-stopping :
    (endpoint : String) (actions : List Action)
    → endpoint ≢ ""
    → let c = run actions (disconnected endpoint) in
      let after =
        run (stopping ∷ working none ∷ working none ∷ working none ∷ working none ∷ []) c in
      (after.running ≡ false) × (after.phase ≡ absent) × (after.errors ≡ c.errors)
run-stopping endpoint actions named =
    let c : Connection = run actions (disconnected endpoint) in
    let consistent = run-IsConsistent_from actions (disconnected endpoint) refl in
    let same : c.endpoint ≡ endpoint = run-endpoint actions (disconnected endpoint) in
    let named' : c.endpoint ≢ "" = λ e. named (sym same ∙ e) in
    let kept : c.has_client ≡ true = run-has_client actions (disconnected endpoint) refl in
    ends c.phase c.endpoint c.running c.has_client c.stop_requested c.token_stopped c.errors kept
      consistent named'
