-- ===== src/System/Discovery.antt =====
-- src/system/client/client.cpp, include/tpc/system/client/client.hpp and
-- include/tpc/system/client/helpers/opcua_browse_adapter.hpp: how the client finds the
-- channels of the hardware. The OPC UA library is no code of the repository: a reference of a
-- browse result is a value `R` that its accessors read, and `browse` is what browsing a node gives.
pub mod Names
mod Tests
use tpc_api.Prelude.{
  String, Bool, not, ◌&&◌, Option, none, some, List, [], ◌∷◌, if◌then◌else◌, Eq, ◌>>=◌, Exception,
  std_exception, Outcome, returned, thrown,
}
use tpc_api.Prelude.{string_eq}
use tpc_api.Prelude.UnorderedMap
use tpc_api.Prelude.UnorderedMap.{UnorderedMap}
use text.Mathlib.Text.{starts_with}

-- The accessors of `opcua::ReferenceDescription`, and two values of `opcua::NodeClass`.
pub record References {ℓ} (R : Type ℓ) (N : Type ℓ) (C : Type ℓ) : Type ℓ where
  pub is_forward : R → Bool
  pub node_class : R → C
  pub is_local : R → Bool
  pub node_id : R → N
  pub browse_name : R → String
  pub object : C
  pub variable : C

-- `browse_operation::start`: the receiver gets the result of the call, or what the call throws.
unfoldable pub start {ℓ} : {R : Type ℓ} → Option Exception → List R → Outcome (List R)
start none result = returned result
start (some x) result = thrown x

-- `browse_async`, by what the call of the library throws for a node, and what it gives.
unfoldable pub browse_async {ℓ} :
    {R N : Type ℓ} → (N → Option Exception) → (N → List R) → N → Outcome (List R)
browse_async refuses results node_id = start (refuses node_id) (results node_id)

module _ {ℓ} {R N C : Type ℓ} (api : References R N C) ⦃ec : Eq C⦄ where
  -- A local node of the class, by a forward reference; the others are passed over.
  unfoldable pub is_wanted : R → C → Bool
  is_wanted reference expected_class =
      api.is_forward reference
      && ec.beq (api.node_class reference) expected_class
      && api.is_local reference

  unfoldable pub find_child : List R → String → C → Option N
  find_child [] name expected_class = none
  find_child (reference ∷ references) name expected_class =
      if not (is_wanted reference expected_class)
      then find_child references name expected_class
      else if string_eq.beq (api.browse_name reference) name
      then some (api.node_id reference)
      else find_child references name expected_class

  unfoldable pub find_slot_ids : List R → List N
  unfolding is_wanted
  find_slot_ids [] = []
  find_slot_ids (reference ∷ references) =
      if not (is_wanted reference api.object)
      then find_slot_ids references
      else if starts_with (api.browse_name reference) "Slot "
      then api.node_id reference ∷ find_slot_ids references
      else find_slot_ids references

  unfoldable pub append_channels :
      ⦃en : Eq N⦄ → UnorderedMap N String → List R → UnorderedMap N String
  unfolding is_wanted
  append_channels result [] = result
  append_channels result (reference ∷ references) =
      if not (is_wanted reference api.variable)
      then append_channels result references
      else append_channels
          (UnorderedMap.emplace result (api.node_id reference) (api.browse_name reference))
          references

  module _ (browse : N → Outcome (List R)) where
    unfoldable pub browse_slots :
        ⦃en : Eq N⦄ → List N → UnorderedMap N String → Outcome (UnorderedMap N String)
    browse_slots [] result = returned result
    browse_slots (slot_id ∷ slot_ids) result =
        browse slot_id >>= λ slot_result. browse_slots slot_ids (append_channels result slot_result)

    unfoldable pub discover_slots : ⦃en : Eq N⦄ → List N → Outcome (UnorderedMap N String)
    unfolding browse_slots
    discover_slots [] = thrown (std_exception "No slots found")
    discover_slots (slot_id ∷ slot_ids) = browse_slots (slot_id ∷ slot_ids) []

    unfoldable pub discover_target : ⦃en : Eq N⦄ → Option N → Outcome (UnorderedMap N String)
    unfolding find_slot_ids discover_slots
    discover_target none = thrown (std_exception "Cannot find target channel ID")
    discover_target (some target_channel_id) =
        browse target_channel_id >>= λ slots_result. discover_slots (find_slot_ids slots_result)

    unfoldable pub discover_folders : ⦃en : Eq N⦄ → N → Outcome (UnorderedMap N String)
    unfolding find_child discover_target
    discover_folders objects_folder = browse objects_folder >>= λ root.
        discover_target (find_child root "ADC Channels" api.object)
