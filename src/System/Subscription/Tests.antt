-- ===== src/System/Subscription/Tests.antt =====
-- Three channels, of which the server refuses the second.
use tpc_api.Prelude.{ℕ, String, none, some, List, [], ◌∷◌}
use tpc_api.Prelude.{nat_eq}
use tpc_api.System.Subscription.{Subscription, good, bad}
use tpc_api.System.Subscription.Lifecycle.{Answered}

abbrev name_of : ℕ → String
name_of node = "node"

-- A handler throws at the information on the third item.
abbrev three_answers : List (Answered ℕ)
three_answers =
    (4, good 11, none) ∷ (5, bad "BadNodeIdUnknown", none) ∷ (6, good 12, some "full") ∷ []
