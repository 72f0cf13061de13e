-- ===== src/System/Connection.antt =====
-- src/system/client/client.cpp: `connect_async`, `stop`, `is_running` and the worker thread of
-- `Client`. A call of a public method is one step; the worker makes one step for each call of the
-- OPC UA library and for the reset of `running_`. What the library throws is given with the step.
pub mod Histories
pub mod Stopping
mod Tests
use tpc_api.Prelude.{
  String, Bool, true, false, not, ◌&&◌, Option, none, some, List, [], ◌∷◌, ◌++◌, if◌then◌else◌,
  Expected, expected, unexpected, Exception, std_exception, other,
}
use tpc_api.Prelude.{string_eq}

-- Where the worker is: no thread, or one that has ended; before `connectAsync`; at the test of the
-- loop; in `runIterate`; after the loop; before the reset of `running_`.
pub data Phase : Type 0 where
  absent starting testing iterating leaving finishing : Phase

-- `token_stopped` is the stop token of the thread; `errors` are the events of `error_occurred_`.
pub record Connection : Type 0 where
  pub endpoint : String
  pub has_client : Bool
  pub running : Bool
  pub stop_requested : Bool
  pub token_stopped : Bool
  pub phase : Phase
  pub errors : List String

-- As the constructor of the client leaves it.
abbrev pub create : String → Connection
create endpoint = record {
  endpoint = endpoint;
  has_client = true;
  running = false;
  stop_requested = false;
  token_stopped = false;
  phase = absent;
  errors = [];
}

abbrev pub is_running : Connection → Bool
is_running c = c.running

unfoldable pub initialize_opcua_handlers : Connection → Expected (Unit {0})
initialize_opcua_handlers c =
    if c.has_client then expected tt else unexpected "Client is not initialized"

-- The new thread replaces the old one, which has ended, and has a stop token of its own. The call is one
-- step: `running_` keeps another call out, and a `stop` comes before or after it. The thread can be made.
unfoldable pub connect_async : Connection → Connection × Expected Bool
connect_async c = if c.running then (c, expected false) else elim (initialize_opcua_handlers c) [
  | unexpected error ↦ (record c { running = false; stop_requested = false }, unexpected error)
  | expected u ↦ (
    record c { running = true; stop_requested = false; token_stopped = false; phase = starting },
    expected true,
  )
]

unfoldable pub stop : Connection → Connection
stop c = record c { stop_requested = true; token_stopped = true }

-- The two `catch` clauses of the worker.
abbrev pub caught : Exception → String
caught (std_exception what) = what
caught other = "Unknown error in the OPC UA worker"

abbrev pub failing : Connection → Exception → Connection
failing c x = record c { errors = c.errors ++ (caught x ∷ []); phase = finishing }

-- A call of the library, which goes on to the phase if it does not throw.
abbrev pub calling : Connection → Option Exception → Phase → Connection
calling c none next = record c { phase = next }
calling c (some x) next = failing c x

unfoldable pub start : Connection → Option Exception → Connection
start c thrown_ =
    if not c.has_client
    then failing c (std_exception "OPC UA client is not initialized")
    else if string_eq.beq c.endpoint ""
    then failing c (std_exception "OPC UA endpoint is empty")
    else calling c thrown_ testing

-- One step of the worker.
unfoldable pub work : Phase → Connection → Option Exception → Connection
work absent c thrown_ = c
work starting c thrown_ = start c thrown_
work testing c thrown_ =
    if not c.token_stopped && not c.stop_requested
    then record c { phase = iterating }
    else record c { phase = leaving }
work iterating c thrown_ = calling c thrown_ testing
work leaving c thrown_ = calling c thrown_ finishing
work finishing c thrown_ = record c { running = false; phase = absent }
