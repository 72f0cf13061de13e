-- ===== src/System/FrameReceiver/Tests.antt =====
-- Concrete histories of samples.
use tpc_api.Prelude.{ℕ, ◌≡◌, refl, some, List, [], ◌∷◌}
use tpc_api.Prelude.{nat_eq}
use tpc_api.Prelude.UnorderedMap
use tpc_api.System.FrameReceiver.{FrameReceiver, add_back}
use tpc_api.System.FrameReceiver.History.{receive_all, latest, receive_all-latest}

-- Two nodes at most: the third one is refused, and the first one goes on.
abbrev two : FrameReceiver ℕ ℕ
two = record { received = []; capacity = 2 }

abbrev arriving : List (ℕ × ℕ)
arriving = (1, 10) ∷ (2, 20) ∷ (3, 30) ∷ (1, 11) ∷ []

third_refused : (receive_all two arriving).received ≡ (1, 11) ∷ (2, 20) ∷ []
unfolding receive_all add_back UnorderedMap.insert_or_assign UnorderedMap.contains
third_refused = refl

abbrev one_node : FrameReceiver ℕ ℕ
one_node = record { received = (1, 9) ∷ []; capacity = 2 }

found_one : UnorderedMap.find one_node.received 1 ≡ some 9
unfolding UnorderedMap.find
found_one = refl

receive_all-latest_example :
    UnorderedMap.find (receive_all one_node arriving).received 1 ≡ some (latest arriving 1 9)
receive_all-latest_example = receive_all-latest one_node arriving 1 9 found_one
