-- ===== src/System/Discovery/Tests.antt =====
-- A small address space: the objects folder 0 has the folder 1, which has the slots 2 and 3.
use tpc_api.Prelude.{
  ℕ, String, ◌≡◌, refl, true, some, List, [], ◌∷◌, ◌==◌, if◌then◌else◌, Outcome, returned,
}
use tpc_api.Prelude.{nat_eq}
use tpc_api.Prelude.{string_eq}
use tpc_api.Prelude.UnorderedMap
use tpc_api.Prelude.UnorderedMap.{UnorderedMap, IsMap}
use tpc_api.System.Discovery.{References, is_wanted, find_child, find_slot_ids, discover_folders}
use tpc_api.System.Discovery.Names.{channels_in, all_references, discover_folders_lem}

-- A reference: the class (1 for an object, 2 for a variable), the node, and its name.
abbrev small_api : References (ℕ × (ℕ × String)) ℕ ℕ
small_api = record {
  is_forward = λ reference. true;
  node_class = λ reference. reference.0;
  is_local = λ reference. true;
  node_id = λ reference. reference.1.0;
  browse_name = λ reference. reference.1.1;
  object = 1;
  variable = 2;
}

-- Node 5 is in both slots, and keeps its first name.
abbrev references_at : ℕ → List (ℕ × (ℕ × String))
references_at node =
    if node == 0
    then (2, (1, "ADC Channels")) ∷ (1, (1, "ADC Channels")) ∷ []
    else if node == 1
    then (1, (2, "Slot 1")) ∷ (1, (9, "Info")) ∷ (1, (3, "Slot 2")) ∷ []
    else if node == 2
    then (2, (4, "W1R")) ∷ (1, (8, "Help")) ∷ (2, (5, "W1F")) ∷ []
    else if node == 3
    then (2, (5, "again")) ∷ (2, (6, "W1Z")) ∷ []
    else []

abbrev browse_small : ℕ → Outcome (List (ℕ × (ℕ × String)))
browse_small node = returned (references_at node)

found_target : find_child small_api (references_at 0) "ADC Channels" 1 ≡ some 1
unfolding find_child is_wanted
found_target = refl

found_slots : find_slot_ids small_api (references_at 1) ≡ 2 ∷ 3 ∷ []
unfolding find_slot_ids is_wanted
found_slots = refl

discover_folders_lem_example :
    (m : UnorderedMap ℕ String) × (discover_folders small_api browse_small 0 ≡ returned m)
    × IsMap m
    × ((k : ℕ)
        → UnorderedMap.find m k
          ≡ UnorderedMap.find
              (channels_in small_api
                (all_references small_api browse_small references_at (2 ∷ 3 ∷ [])))
              k)
discover_folders_lem_example =
    discover_folders_lem small_api browse_small references_at 0 1 2 (3 ∷ []) (λ node. refl)
      found_target found_slots
