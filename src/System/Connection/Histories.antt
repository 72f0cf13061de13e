-- ===== src/System/Connection/Histories.antt =====
-- The connection after any history of calls and steps of its worker.
use tpc_api.Prelude.{
  String, ◌≡◌, refl, ap, ◌∙◌, Bool, true, false, Option, List, [], ◌∷◌, arith, if◌then◌else◌,
  expected, Exception,
}
use tpc_api.Prelude.{string_eq}
use tpc_api.System.Connection.{
  Phase, absent, starting, testing, iterating, leaving, finishing, Connection,
  initialize_opcua_handlers, connect_async, stop, start, work,
}

pub data Action : Type 0 where
  connecting : Action
  stopping : Action
  working : Option Exception → Action

unfoldable pub act : Action → Connection → Connection
unfolding connect_async stop
act connecting c = (connect_async c).0
act stopping c = stop c
act (working thrown_) c = work c.phase c thrown_

unfoldable pub run : List Action → Connection → Connection
run [] c = c
run (action ∷ actions) c = run actions (act action c)

-- A client as its constructor makes it.
abbrev pub disconnected : String → Connection
disconnected endpoint = record {
  endpoint = endpoint;
  has_client = true;
  running = false;
  stop_requested = false;
  token_stopped = false;
  phase = absent;
  errors = [];
}

abbrev pub is_active : Phase → Bool
is_active absent = false
is_active _ = true

-- `running_` is set just while there is a worker that has not ended.
abbrev pub IsConsistent : Connection → Type 0
IsConsistent c = c.running ≡ is_active c.phase

work-IsConsistent :
    (phase : Phase) (c : Connection) (thrown_ : Option Exception)
    → c.running ≡ is_active phase
    → c.phase ≡ phase
    → IsConsistent (work phase c thrown_)
unfolding work start
work-IsConsistent absent c thrown_ h e = ground arith
work-IsConsistent starting c thrown_ h e = ground arith
work-IsConsistent testing c thrown_ h e = ground arith
work-IsConsistent iterating c thrown_ h e = ground arith
work-IsConsistent leaving c thrown_ h e = ground arith
work-IsConsistent finishing c thrown_ h e = ground arith

act-IsConsistent : (action : Action) (c : Connection) → IsConsistent c → IsConsistent (act action c)
unfolding act connect_async stop initialize_opcua_handlers
act-IsConsistent connecting c h = ground arith
act-IsConsistent stopping c h = h
act-IsConsistent (working thrown_) c h = work-IsConsistent c.phase c thrown_ h refl

pub run-IsConsistent_from :
    (actions : List Action) (c : Connection) → IsConsistent c → IsConsistent (run actions c)
unfolding run
run-IsConsistent_from [] c h = h
run-IsConsistent_from (action ∷ actions) c h =
    run-IsConsistent_from actions (act action c) (act-IsConsistent action c h)

work-has_client :
    (phase : Phase) (c : Connection) (thrown_ : Option Exception)
    → (work phase c thrown_).has_client ≡ c.has_client
unfolding work start
work-has_client absent c thrown_ = refl
work-has_client starting c thrown_ = ground arith
work-has_client testing c thrown_ = ground arith
work-has_client iterating c thrown_ = ground arith
work-has_client leaving c thrown_ = ground arith
work-has_client finishing c thrown_ = refl

act-has_client : (action : Action) (c : Connection) → (act action c).has_client ≡ c.has_client
unfolding act connect_async stop initialize_opcua_handlers
act-has_client connecting c = ground arith
act-has_client stopping c = refl
act-has_client (working thrown_) c = work-has_client c.phase c thrown_

pub run-has_client :
    (actions : List Action) (c : Connection)
    → c.has_client ≡ true
    → (run actions c).has_client ≡ true
unfolding run act
run-has_client [] c h = h
run-has_client (action ∷ actions) c h =
    run-has_client actions (act action c) (act-has_client action c ∙ h)

work-endpoint :
    (phase : Phase) (c : Connection) (thrown_ : Option Exception)
    → (work phase c thrown_).endpoint ≡ c.endpoint
unfolding work start
work-endpoint absent c thrown_ = refl
work-endpoint starting c thrown_ = ground arith
work-endpoint testing c thrown_ = ground arith
work-endpoint iterating c thrown_ = ground arith
work-endpoint leaving c thrown_ = ground arith
work-endpoint finishing c thrown_ = refl

act-endpoint : (action : Action) (c : Connection) → (act action c).endpoint ≡ c.endpoint
unfolding act connect_async stop initialize_opcua_handlers
act-endpoint connecting c = ground arith
act-endpoint stopping c = refl
act-endpoint (working thrown_) c = work-endpoint c.phase c thrown_

pub run-endpoint : (actions : List Action) (c : Connection) → (run actions c).endpoint ≡ c.endpoint
unfolding run
run-endpoint [] c = refl
run-endpoint (action ∷ actions) c = run-endpoint actions (act action c) ∙ act-endpoint action c

-- A new worker, with no stop requested.
abbrev pub restarted : Connection → Connection
restarted c = record c {
  running = true;
  stop_requested = false;
  token_stopped = false;
  phase = starting;
}

-- Whether the worker runs is given apart from the state, so that it can be decided.
connects :
    (endpoint : String) (running has_client stop_requested token_stopped : Bool) (phase : Phase)
    (errors : List String)
    → has_client ≡ true
    → let c : Connection = record {
      endpoint = endpoint;
      has_client = has_client;
      running = running;
      stop_requested = stop_requested;
      token_stopped = token_stopped;
      phase = phase;
      errors = errors;
    } in
      connect_async c ≡ (if running then (c, expected false) else (restarted c, expected true))
unfolding connect_async initialize_opcua_handlers
connects endpoint true true stop_requested token_stopped phase errors kept = refl
connects endpoint false true stop_requested token_stopped phase errors kept = refl
connects endpoint running false stop_requested token_stopped phase errors kept = ground arith

-- After any history of a client: it is running just while it has a worker that has not ended, so
-- that there is one at most; `connect_async` answers true just if there is none, and then starts one
-- with no stop requested, and else it changes nothing.
pub connect_async-run :
    (endpoint : String) (actions : List Action)
    → let c = run actions (disconnected endpoint) in
      (c.running ≡ is_active c.phase)
      × (connect_async c
          ≡ (if is_active c.phase then (c, expected false) else (restarted c, expected true)))
connect_async-run endpoint actions =
    let c : Connection = run actions (disconnected endpoint) in
    let consistent : c.running ≡ is_active c.phase =
      run-IsConsistent_from actions (disconnected endpoint) refl in
    let kept = run-has_client actions (disconnected endpoint) refl in
    let connects_c =
      connects c.endpoint c.running c.has_client c.stop_requested c.token_stopped c.phase c.errors
        kept in
    (
      consistent,
      connects_c
          ∙ ap (λ b. if b then (c, expected false) else (restarted c, expected true)) consistent,
    )
