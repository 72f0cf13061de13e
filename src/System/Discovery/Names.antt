-- ===== src/System/Discovery/Names.antt =====
-- The names that a discovery gives to the channels.
use tpc_api.Prelude.{
  String, ◌≡◌, refl, Option, none, some, List, [], ◌∷◌, ◌++◌, arith, if◌then◌else◌, Eq, Outcome,
  returned,
}
use tpc_api.Prelude.Defined.{Completes, Completes->>=}
use tpc_api.Prelude.UnorderedMap
use tpc_api.Prelude.UnorderedMap.{
  UnorderedMap, IsMap, contains-find, find-contains, emplace-IsMap, find-emplace,
}
use tpc_api.System.Discovery.{
  References, is_wanted, find_child, find_slot_ids, append_channels, browse_slots, discover_slots,
  discover_target, discover_folders,
}

module _ {ℓ} {R N C : Type ℓ} (api : References R N C) ⦃ec : Eq C⦄ ⦃en : Eq N⦄ where
  -- The channels that the references name, with repetitions, in their order.
  abbrev pub channels_in : List R → List (N × String)
  channels_in [] = []
  channels_in (reference ∷ references) =
      if is_wanted api reference api.variable
      then (api.node_id reference, api.browse_name reference) ∷ channels_in references
      else channels_in references

  find-append_channels :
      (result : UnorderedMap N String) (references : List R) (k : N)
      → UnorderedMap.find (append_channels api result references) k
        ≡ elim (UnorderedMap.find result k) [
          | none ↦ UnorderedMap.find (channels_in references) k
          | some v ↦ some v
        ]
  unfolding append_channels UnorderedMap.find
  find-append_channels result [] k = ground arith
  find-append_channels result (reference ∷ references) k =
      let id = api.node_id reference in
      let name = api.browse_name reference in
      ground (
        arith,
        find-append_channels result references k,
        find-append_channels (UnorderedMap.emplace result id name) references k,
        find-emplace result id k name,
        contains-find result id,
        find-contains result id,
        en.beq_iff id k,
      )

  append_channels-IsMap :
      (result : UnorderedMap N String) (references : List R)
      → IsMap result
      → IsMap (append_channels api result references)
  unfolding append_channels
  append_channels-IsMap result [] h = h
  append_channels-IsMap result (reference ∷ references) h =
      let id = api.node_id reference in
      let name = api.browse_name reference in
      ground (
        arith,
        append_channels-IsMap result references h,
        append_channels-IsMap (UnorderedMap.emplace result id name) references
            (emplace-IsMap result id name h),
      )

  append_channels-append :
      (result : UnorderedMap N String) (xs ys : List R)
      → append_channels api result (xs ++ ys)
        ≡ append_channels api (append_channels api result xs) ys
  unfolding append_channels
  append_channels-append result [] ys = refl
  append_channels-append result (x ∷ xs) ys = ground (
    arith,
    append_channels-append result xs ys,
    append_channels-append (UnorderedMap.emplace result (api.node_id x) (api.browse_name x)) xs ys,
  )

  -- Whatever browsing gives, a discovery that ends with a value has each node once.
  module _ (browse : N → Outcome (List R)) where
    browse_slots-IsMap :
        (slot_ids : List N) (result : UnorderedMap N String)
        → IsMap result
        → ((node : N) → Completes (λ _. Unit {0}) (browse node))
        → Completes IsMap (browse_slots api browse slot_ids result)
    unfolding browse_slots
    browse_slots-IsMap [] result h answers = h
    browse_slots-IsMap (slot_id ∷ slot_ids) result h answers =
        Completes->>= (λ _. Unit {0}) IsMap (browse slot_id) _ (answers slot_id)
          λ slot_result _.
            browse_slots-IsMap slot_ids (append_channels api result slot_result)
              (append_channels-IsMap result slot_result h) answers

    discover_slots-IsMap :
        (slot_ids : List N)
        → ((node : N) → Completes (λ _. Unit {0}) (browse node))
        → Completes IsMap (discover_slots api browse slot_ids)
    unfolding discover_slots
    discover_slots-IsMap [] answers = tt
    discover_slots-IsMap (slot_id ∷ slot_ids) answers =
        browse_slots-IsMap (slot_id ∷ slot_ids) [] tt answers

    discover_target-IsMap :
        (target : Option N)
        → ((node : N) → Completes (λ _. Unit {0}) (browse node))
        → Completes IsMap (discover_target api browse target)
    unfolding discover_target
    discover_target-IsMap none answers = tt
    discover_target-IsMap (some target) answers =
        Completes->>= (λ _. Unit {0}) IsMap (browse target) _ (answers target)
          λ slots_result _. discover_slots-IsMap (find_slot_ids api slots_result) answers

    pub discover_folders-IsMap :
        (objects_folder : N)
        → ((node : N) → Completes (λ _. Unit {0}) (browse node))
        → Completes IsMap (discover_folders api browse objects_folder)
    unfolding discover_folders
    discover_folders-IsMap objects_folder answers =
        Completes->>= (λ _. Unit {0}) IsMap (browse objects_folder) _ (answers objects_folder)
          λ root _. discover_target-IsMap (find_child api root "ADC Channels" api.object) answers

  module _ (browse : N → Outcome (List R)) (references_of : N → List R) where
    -- The references that browsing the slots gives, one slot after the other.
    abbrev pub all_references : List N → List R
    all_references [] = []
    all_references (slot_id ∷ slot_ids) = references_of slot_id ++ all_references slot_ids

    browse_slots_lem :
        (slot_ids : List N) (result : UnorderedMap N String)
        → ((slot_id : N) → browse slot_id ≡ returned (references_of slot_id))
        → browse_slots api browse slot_ids result
          ≡ returned (append_channels api result (all_references slot_ids))
    unfolding browse_slots append_channels
    browse_slots_lem [] result answers = refl
    browse_slots_lem (slot_id ∷ slot_ids) result answers = rw (
      answers slot_id,
      browse_slots_lem slot_ids (append_channels api result (references_of slot_id)) answers,
      append_channels-append result (references_of slot_id) (all_references slot_ids),
    )

    -- If browsing answers, the folder "ADC Channels" is found and it has a slot, the discovery
    -- succeeds: it has each local variable of the slots under the first browse name that the slots,
    -- in their order, give it, each node once, and no other node.
    pub discover_folders_lem :
        (objects_folder target : N) (slot : N) (slots : List N)
        → ((node : N) → browse node ≡ returned (references_of node))
        → find_child api (references_of objects_folder) "ADC Channels" api.object ≡ some target
        → find_slot_ids api (references_of target) ≡ slot ∷ slots
        → (m : UnorderedMap N String) × (discover_folders api browse objects_folder ≡ returned m)
          × IsMap m
          × ((k : N)
              → UnorderedMap.find m k
                ≡ UnorderedMap.find (channels_in (all_references (slot ∷ slots))) k)
    unfolding discover_folders discover_target discover_slots UnorderedMap.find
    discover_folders_lem objects_folder target slot slots answers found has_slots = (
      append_channels api [] (all_references (slot ∷ slots)),
      rw (
        answers objects_folder,
        found,
        answers target,
        has_slots,
        browse_slots_lem (slot ∷ slots) [] answers,
      ),
      append_channels-IsMap [] (all_references (slot ∷ slots)) tt,
      λ k. find-append_channels [] (all_references (slot ∷ slots)) k,
    )
