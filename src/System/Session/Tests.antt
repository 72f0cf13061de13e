-- ===== src/System/Session/Tests.antt =====
-- A session over the address space of two browsed folders, and one in which nothing is found.
use tpc_api.Prelude.{
  ℕ, String, ◌≡◌, refl, false, Option, none, some, List, [], ◌∷◌, arith, ==_iff, Exception,
  std_exception, other, Outcome,
}
use tpc_api.Prelude.{nat_eq}
use tpc_api.Prelude.{string_eq}
use tpc_api.Prelude.Int.{ℤ, pos}
use tpc_api.Prelude.UnorderedMap.{UnorderedMap}
use tpc_api.System.Discovery.{browse_async}
use tpc_api.System.Subscription.Lifecycle.{unsubscribed, exception_of}
use tpc_api.Double.Fixed.{fixed}
use tpc_api.Prelude.UnorderedMap
use tpc_api.System.Session.AddressSpace.{plain_api, answers, refuses}
use tpc_api.System.Client.{average}
use tpc_api.System.Client.Frame.{HasUniqueNames}
use tpc_api.System.Polling.{frame_received, reading, poll_events}
use tpc_api.System.Session.Samples.{last_of}
use tpc_api.System.Session.Readings.{
  receive_changes, averages, empties, AreChannels, started_client, reading_of,
  poll_events-receive_changes,
}
use tpc_api.System.Session.{Session, initialize_monitored_items}
use tpc_api.System.Session.Discovery.{
  browse_async-Completes, Answered, initialize_monitored_items-Answered,
}

abbrev browsed : ℕ → Outcome (List (ℕ × ℕ × String))
browsed = browse_async (λ n. exception_of (refuses n)) answers

abbrev new_session : Session ℕ ℤ
new_session = record {
  client = record { channels_info = []; frame_receiver = record { received = []; capacity = 36 } };
  subscription = some unsubscribed;
}

none-ne-other : ◌≡◌ {A = Option Exception} none (some other) → ⊥
none-ne-other h = cc

library-ne-other :
    ◌≡◌ {A = Option Exception} (some (std_exception "BadOutOfMemory")) (some other) → ⊥
library-ne-other h = cc

initialize_monitored_items-Answered_example : Answered new_session unsubscribed (
    initialize_monitored_items plain_api browsed 0 new_session (record {
      by_discovery_handlers = none;
      by_library = some (std_exception "BadOutOfMemory");
      by_error_handlers = none;
    }))
initialize_monitored_items-Answered_example =
    initialize_monitored_items-Answered plain_api browsed 0 new_session unsubscribed none
      (some (std_exception "BadOutOfMemory")) refl none-ne-other library-ne-other
      (browse_async-Completes refuses answers)

abbrev two_channels : UnorderedMap ℕ String
two_channels = (4, "W1R") ∷ (5, "E1R") ∷ []

two_channels-HasUniqueNames : HasUniqueNames two_channels
unfolding UnorderedMap.find
two_channels-HasUniqueNames n n' name p q =
    ground (arith, string_eq.beq_iff "W1R" "E1R", ==_iff 4 n, ==_iff 5 n, ==_iff 4 n', ==_iff 5 n')

-- Two changes of a channel, the second of which has no value, and one of the other channel.
abbrev three_changes : List (ℕ × List ℤ)
three_changes = (4, pos 9000 ∷ pos 11000 ∷ []) ∷ (4, []) ∷ (5, pos 3000 ∷ []) ∷ []

three_changes-AreChannels : AreChannels two_channels three_changes
unfolding UnorderedMap.contains
three_changes-AreChannels = (refl, (refl, (refl, tt)))

named_channel : UnorderedMap.find two_channels 4 ≡ some "W1R"
unfolding UnorderedMap.find
named_channel = refl

poll_events-receive_changes_example :
    let (c, warnings) = receive_changes (started_client two_channels 36) three_changes in
    (warnings ≡ empties three_changes)
    × ((frame : UnorderedMap String ℤ) × (poll_events "bad optional access" reading
            (record { client = c; thrown_ = none; elapsed = false })
          ≡ frame_received frame ∷ [])
        × (UnorderedMap.find frame "W1R" ≡ reading_of "W1R" (last_of (averages three_changes) 4)))
poll_events-receive_changes_example =
    poll_events-receive_changes "bad optional access" false two_channels 36 three_changes
      (4, average (pos 9000 ∷ pos 11000 ∷ [])) ((5, average (pos 3000 ∷ [])) ∷ []) 4 "W1R"
      two_channels-HasUniqueNames (omega arith) (omega arith) three_changes-AreChannels refl
      named_channel
