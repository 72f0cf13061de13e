-- ===== src/System/Session/Samples.antt =====
-- The frame receiver, when no more nodes are sampled than it has room for.
use tpc_api.Prelude.{
  ◌≤◌, ◌≡◌, refl, inl, inr, true, false, Option, none, some, List, [], ◌∷◌, arith, leb,
  if◌then◌else◌, Bool-cases, Eq, length, All, expected,
}
use tpc_api.Prelude.UnorderedMap
use tpc_api.Prelude.UnorderedMap.{UnorderedMap, find-insert_or_assign, contains-insert_or_assign}
use tpc_api.Prelude.UnorderedMap.Keys.{Includes, length-le}
use tpc_api.System.FrameReceiver.{FrameReceiver, add_back}
use tpc_api.System.FrameReceiver.History.{IsReceiver, receive_all, add_back-IsReceiver}

module _ {ℓ κ} {N : Type ℓ} {W : Type κ} ⦃e : Eq N⦄ where
  -- The last value of the node in the samples.
  abbrev pub last_of : List (N × W) → N → Option W
  last_of [] node = none
  last_of ((node', value) ∷ samples) node = elim (last_of samples node) [
    | none ↦ if e.beq node' node then some value else none
    | some later ↦ some later
  ]

  -- The receiver has no other nodes than those of the map, and room for all of them.
  abbrev pub HasRoom {ρ} : {V : Type ρ} → FrameReceiver N W → UnorderedMap N V → Type ℓ
  HasRoom r m = IsReceiver r × Includes r.received m × (length m ≤ r.capacity)

  abbrev pub AllIn {ρ} : {V : Type ρ} → List (N × W) → UnorderedMap N V → Type 0
  AllIn samples m = All (λ sample. UnorderedMap.contains m sample.0 ≡ true) samples

  module _ {ρ} {V : Type ρ} (m : UnorderedMap N V) where
    pub add_back-accepts :
        (r : FrameReceiver N W) (node : N) (value : W)
        → HasRoom r m
        → UnorderedMap.contains m node ≡ true
        → add_back r node value ≡ (
          record r { received = UnorderedMap.insert_or_assign r.received node value },
          expected tt,
        )
    unfolding add_back UnorderedMap.contains
    add_back-accepts r node value ((distinct, _, _), within, room) known =
        elim (Bool-cases (UnorderedMap.contains r.received node)) [
          | inl old ↦ rw old
          | inr fresh ↦
              let more : Includes ((node, value) ∷ r.received) m =
                λ j has. ground (arith, e.beq_iff node j, within j, known, has) in
              let bound = length-le ((node, value) ∷ r.received) m (fresh, distinct) more in
              let free : leb r.capacity (length r.received) ≡ false = ground (arith, bound, room) in
              rw (fresh, free)
        ]

    pub add_back-HasRoom :
        (r : FrameReceiver N W) (node : N) (value : W)
        → HasRoom r m
        → UnorderedMap.contains m node ≡ true
        → HasRoom (add_back r node value).0 m
    add_back-HasRoom r node value h known =
        let accepted = add_back-accepts r node value h known in
        let (is_receiver, within, room) = h in
        (
          add_back-IsReceiver r node value is_receiver,
          rw accepted (λ j has. ground (
            arith,
            e.beq_iff node j,
            contains-insert_or_assign r.received node j value,
            within j,
            known,
            has,
          )),
          rw accepted room,
        )

    pub find-receive_all :
        (r : FrameReceiver N W) (samples : List (N × W)) (node : N)
        → HasRoom r m
        → AllIn samples m
        → UnorderedMap.find (receive_all r samples).received node ≡ elim (last_of samples node) [
          | none ↦ UnorderedMap.find r.received node
          | some value ↦ some value
        ]
    unfolding receive_all
    find-receive_all r [] node h known = refl
    find-receive_all r ((node', value) ∷ samples) node h (here, known) =
        let accepted = add_back-accepts r node' value h here in
        let rest =
          find-receive_all (add_back r node' value).0 samples node
            (add_back-HasRoom r node' value h here) known in
        let first : UnorderedMap.find (add_back r node' value).0.received node
            ≡ (if e.beq node' node then some value else UnorderedMap.find r.received node) =
          rw accepted (find-insert_or_assign r.received node' node value) in
        ground (arith, rest, first)
