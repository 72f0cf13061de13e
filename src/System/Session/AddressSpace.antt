-- ===== src/System/Session/AddressSpace.antt =====
-- A small address space for the tests of sessions, and what browsing it gives.
use tpc_api.Prelude.{ℕ, String, true, Option, none, some, List, [], ◌∷◌, ltb, ◌==◌, if◌then◌else◌}
use tpc_api.Prelude.{nat_eq}
use tpc_api.System.Discovery.{References}

-- A reference: the class (1 for an object, 2 for a variable), the node, and its name.
abbrev pub plain_api : References (ℕ × ℕ × String) ℕ ℕ
plain_api = record {
  is_forward = λ reference. true;
  node_class = λ reference. reference.0;
  is_local = λ reference. true;
  node_id = λ reference. reference.1;
  browse_name = λ reference. reference.2;
  object = 1;
  variable = 2;
}

-- The objects folder 0 has the folder 1, which has the slot 2, whose channels are 4 and 5; the browsing
-- of another node fails.
abbrev pub answers : ℕ → List (ℕ × ℕ × String)
answers node =
    if node == 0
    then (1, 1, "ADC Channels") ∷ []
    else if node == 1
    then (1, 2, "Slot 1") ∷ []
    else (2, 4, "W1R") ∷ (2, 5, "E1R") ∷ []

abbrev pub refuses : ℕ → Option String
refuses node = if ltb node 3 then none else some "BadNodeIdUnknown"
