-- ===== src/System/FrameReceiver.antt =====
-- src/system/client/frame_receiver.cpp: the latest sample of each node, up to a capacity. The mutex
-- makes each operation one step. `opcua::NodeId` is a type `N` with an equality.
pub mod History
mod Tests
use tpc_api.Prelude.{
  ℕ, not, ◌&&◌, [], leb, ◌==◌, if◌then◌else◌, Eq, length, Expected, expected, unexpected,
}
use tpc_api.Prelude.{nat_eq}
use tpc_api.Prelude.UnorderedMap
use tpc_api.Prelude.UnorderedMap.{UnorderedMap}

-- `capacity` is a `std::uint16_t`.
pub record FrameReceiver {ℓ κ} (N : Type ℓ) (W : Type κ) : Type (ℓ ⊔ κ) where
  pub received : UnorderedMap N W
  pub capacity : ℕ

module _ {ℓ κ} {N : Type ℓ} {W : Type κ} where
  unfoldable pub create : ℕ → Expected (FrameReceiver N W)
  create receive_count =
      if receive_count == 0
      then unexpected "Received queue capacity must be greater than zero"
      else expected (record { received = []; capacity = receive_count })

  unfoldable pub add_back :
      ⦃e : Eq N⦄ → FrameReceiver N W → N → W → FrameReceiver N W × Expected (Unit {0})
  add_back r node value =
      if not (UnorderedMap.contains r.received node) && leb r.capacity (length r.received)
      then (r, unexpected "Received queue capacity was exceeded")
      else (
        record r { received = UnorderedMap.insert_or_assign r.received node value },
        expected tt,
      )

  unfoldable pub get_frame : FrameReceiver N W → Expected (UnorderedMap N W)
  get_frame r = elim r.received [
    | [] ↦ unexpected "Frame received queue is empty"
    | _ ↦ expected r.received
  ]
