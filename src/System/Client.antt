-- ===== src/System/Client.antt =====
-- src/system/client/client.cpp: the samples and the frames of `Client`. A locked section is one
-- step. `opcua::NodeId` is a type `N` with an equality, and the array of a sample is a list.
pub mod Frame
pub mod Order
pub mod Bounds
use tpc_api.Double.{Double, ◌⊕◌, ◌⊘◌, nought}
use tpc_api.Prelude.{String, Option, none, some, List, [], ◌∷◌, Eq, length, expected, unexpected}
use tpc_api.Prelude.{string_eq}
use tpc_api.Prelude.UnorderedMap
use tpc_api.Prelude.UnorderedMap.{UnorderedMap}
use tpc_api.System.FrameReceiver
use tpc_api.System.FrameReceiver.{FrameReceiver}

-- `channels_info` is `DiscoveryResult::nodes`.
pub record Client {ℓ κ} (N : Type ℓ) (W : Type κ) : Type (ℓ ⊔ κ) where
  pub channels_info : UnorderedMap N String
  pub frame_receiver : FrameReceiver N W

module _ {κ} {W : Type κ} ⦃d : Double W⦄ where
  sum_from : W → List W → W
  sum_from acc [] = acc
  sum_from acc (value ∷ values) = sum_from (acc ⊕ value) values

  -- `std::accumulate` over the values, divided by their number.
  pub average : List W → W
  unfolding sum_from
  average values = sum_from nought values ⊘ d.of_size (length values)

-- The names in the order in which the map is walked.
names_of {ℓ} : {N : Type ℓ} → UnorderedMap N String → List String
names_of [] = []
names_of ((node_id, name) ∷ nodes) = name ∷ names_of nodes

module _ {ℓ κ} {N : Type ℓ} {W : Type κ} ⦃e : Eq N⦄ where
  pub get_sensors_names : Client N W → List String
  unfolding names_of
  get_sensors_names c = names_of c.channels_info

  pub name_frame :
      UnorderedMap N String → UnorderedMap N W → UnorderedMap String W → UnorderedMap String W
  name_frame channels [] frame = frame
  name_frame channels ((node_id, value) ∷ received_frame) frame =
      name_frame channels received_frame (elim (UnorderedMap.find channels node_id) [
        | none ↦ frame
        | some name ↦ UnorderedMap.insert_or_assign frame name value
      ])

  pub get_frame : Client N W → Option (UnorderedMap String W)
  unfolding name_frame
  get_frame c = elim (FrameReceiver.get_frame c.frame_receiver) [
    | unexpected error ↦ none
    | expected received_frame ↦ some (name_frame c.channels_info received_frame [])
  ]

  module _ ⦃d : Double W⦄ where
    -- The second component is what `warning_occurred_` is invoked with, if it is.
    unfoldable pub on_subscription_data_received :
        Client N W → N → List W → Client N W × Option String
    unfolding average
    on_subscription_data_received c node [] = (c, some "Received an empty sensor sample")
    on_subscription_data_received c node (value ∷ values) =
        let (receiver, result) =
          FrameReceiver.add_back c.frame_receiver node (average (value ∷ values)) in
        (
          record c { frame_receiver = receiver },
          elim result [ expected u ↦ none | unexpected error ↦ some error ],
        )
