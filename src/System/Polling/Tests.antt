-- ===== src/System/Polling/Tests.antt =====
-- A worker whose client has no sample: it reports that, waits, and takes up a new interval.
use tpc_api.Prelude.{ℕ, ◌-◌, ◌^◌, ◌≡◌, refl, true, false, none, some, List, [], ◌∷◌, arith}
use tpc_api.Prelude.{nat_eq}
use tpc_api.Double.Fixed.{fixed}
use tpc_api.Prelude.Int.{ℤ, pos, negsuc}
use tpc_api.System.Client.{Client}
use tpc_api.System.Connection.Histories.{disconnected}
use tpc_api.System.Polling.{Round, waiting, milliseconds}
use tpc_api.System.Polling.Histories.{
  Action, starting, stopping, working, run, idle, early, has_ended,
}
use tpc_api.System.Polling.Waking.{run-starting}

abbrev nothing_received : Client ℕ ℤ
nothing_received = record {
  channels_info = (4, "W1R") ∷ [];
  frame_receiver = record { received = []; capacity = 2 };
}

abbrev quiet : Round ℕ ℤ
quiet = record { client = nothing_received; thrown_ = none; elapsed = true }

-- The worker waits with an interval of 50.
abbrev polled : List (Action ℕ ℤ)
polled = starting 0 ∷ starting 50 ∷ working quiet ∷ working quiet ∷ working quiet ∷ []

-- The greatest size_t is no long interval but a negative one, which is over at once.
negative_interval : milliseconds (2 ^ 64 - 1) ≡ negsuc 0
unfolding milliseconds
negative_interval = refl

run-starting_example :
    let (p, c) = run "bad optional access" polled idle (disconnected "opc.tcp://x") in
    let restarted =
      (run "bad optional access"
        (starting 20
          ∷ working (early quiet)
          ∷ working (early quiet)
          ∷ working (early quiet)
          ∷ working (early quiet)
          ∷ [])
        p
        c).0 in
    let stopped =
      (run "bad optional access"
        (stopping ∷ working quiet ∷ working quiet ∷ working quiet ∷ working quiet ∷ [])
        p
        c).0 in
    (restarted.polling_worker
      ≡ some (record {
        phase = waiting (pos 20) restarted.polling_interval_revision;
        token_stopped = false;
      }))
    × (restarted.polling_interval_ms ≡ 20)
    × (has_ended stopped.polling_worker ≡ true)
run-starting_example =
    run-starting "bad optional access" polled (disconnected "opc.tcp://x") 20 quiet quiet quiet
      quiet (ground arith) (ground arith) (ground arith)
