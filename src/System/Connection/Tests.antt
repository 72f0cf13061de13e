-- ===== src/System/Connection/Tests.antt =====
-- A client that connects, fails, connects again, and is stopped.
use tpc_api.Prelude.{
  String, ◌≡◌, ◌≢◌, true, false, none, some, List, [], ◌∷◌, arith, if◌then◌else◌, expected, other,
}
use tpc_api.Prelude.{string_eq}
use tpc_api.System.Connection.{absent, connect_async}
use tpc_api.System.Connection.Stopping.{run-stopping}
use tpc_api.System.Connection.Histories.{
  Action, connecting, stopping, working, run, disconnected, is_active, restarted, connect_async-run,
}

abbrev url : String
url = "opc.tcp://x"

url_named : url ≢ ""
url_named same = ground (arith, same, (string_eq.beq_iff url "").1 same)

-- The worker fails in its loop, and is in the loop of the second connection.
abbrev reconnected : List Action
reconnected =
    connecting
    ∷ working none
    ∷ working none
    ∷ working (some other)
    ∷ working none
    ∷ connecting
    ∷ working none
    ∷ []

connect_async-run_example :
    let c = run reconnected (disconnected url) in
    (c.running ≡ is_active c.phase)
    × (connect_async c
        ≡ (if is_active c.phase then (c, expected false) else (restarted c, expected true)))
connect_async-run_example = connect_async-run url reconnected

run-stopping_example :
    let c = run reconnected (disconnected url) in
    let after = run (stopping ∷ working none ∷ working none ∷ working none ∷ working none ∷ []) c in
    (after.running ≡ false) × (after.phase ≡ absent) × (after.errors ≡ c.errors)
run-stopping_example = run-stopping url reconnected url_named
