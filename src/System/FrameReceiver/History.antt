-- ===== src/System/FrameReceiver/History.antt =====
-- What the frame receiver holds after a history of samples.
use tpc_api.Prelude.{
  ℕ, ◌≤◌, ◌≡◌, refl, inl, inr, some, List, [], ◌∷◌, arith, if◌then◌else◌, Bool-cases, Eq, length,
  expected,
}
use tpc_api.Prelude.UnorderedMap
use tpc_api.Prelude.UnorderedMap.{
  UnorderedMap, IsMap, contains-find, find-insert_or_assign, length-insert_or_assign,
  insert_or_assign-IsMap,
}
use tpc_api.System.FrameReceiver.{FrameReceiver, create, add_back, get_frame}

module _ {ℓ κ} {N : Type ℓ} {W : Type κ} ⦃e : Eq N⦄ where
  -- One value for each node, and never more nodes than the capacity, which is positive.
  abbrev pub IsReceiver : FrameReceiver N W → Type 0
  IsReceiver r = IsMap r.received × (length r.received ≤ r.capacity) × (1 ≤ r.capacity)

  -- The samples of a history arrive one after the other.
  unfoldable pub receive_all : FrameReceiver N W → List (N × W) → FrameReceiver N W
  receive_all r [] = r
  receive_all r ((node, value) ∷ samples) = receive_all (add_back r node value).0 samples

  -- The last value of the node in the samples, or the value given where they have none.
  abbrev pub latest : List (N × W) → N → W → W
  latest [] node value = value
  latest ((node', value') ∷ samples) node value =
      if e.beq node' node then latest samples node value' else latest samples node value

  pub add_back-IsReceiver :
      (r : FrameReceiver N W) (node : N) (value : W)
      → IsReceiver r
      → IsReceiver (add_back r node value).0
  unfolding add_back
  add_back-IsReceiver r node value h = ground (
    arith,
    length-insert_or_assign r.received node value,
    insert_or_assign-IsMap r.received node value,
  )

  pub add_back-capacity :
      (r : FrameReceiver N W) (node : N) (value : W)
      → (add_back r node value).0.capacity ≡ r.capacity
  unfolding add_back
  add_back-capacity r node value = ground arith

  pub receive_all-IsReceiver_from :
      (r : FrameReceiver N W) (samples : List (N × W))
      → IsReceiver r
      → IsReceiver (receive_all r samples)
  unfolding receive_all
  receive_all-IsReceiver_from r [] h = h
  receive_all-IsReceiver_from r ((node, value) ∷ samples) h =
      receive_all-IsReceiver_from (add_back r node value).0 samples
        (add_back-IsReceiver r node value h)

  -- A receiver that create returns holds, after any history of samples, at most one value for each
  -- node and no more nodes than its capacity.
  receive_all-IsReceiver :
      (count : ℕ) (r : FrameReceiver N W) (samples : List (N × W))
      → create count ≡ expected r
      → IsReceiver (receive_all r samples)
  unfolding create
  receive_all-IsReceiver count r samples made = receive_all-IsReceiver_from r samples (ground arith)

  find-add_back :
      (r : FrameReceiver N W) (node k : N) (value old : W)
      → UnorderedMap.find r.received k ≡ some old
      → UnorderedMap.find (add_back r node value).0.received k
        ≡ some (if e.beq node k then value else old)
  unfolding add_back
  find-add_back r node k value old h = ground (
    arith,
    e.beq_iff node k,
    contains-find r.received node,
    find-insert_or_assign r.received node k value,
  )

  -- A node that the receiver holds stays there whatever samples follow, also when the receiver is
  -- full, and its value is that of its last sample.
  pub receive_all-latest :
      (r : FrameReceiver N W) (samples : List (N × W)) (k : N) (old : W)
      → UnorderedMap.find r.received k ≡ some old
      → UnorderedMap.find (receive_all r samples).received k ≡ some (latest samples k old)
  unfolding receive_all
  receive_all-latest r [] k old h = h
  receive_all-latest r ((node, value) ∷ samples) k old h =
      let step =
        receive_all-latest (add_back r node value).0 samples k (if e.beq node k then value else old)
          (find-add_back r node k value old h) in
      elim (Bool-cases (e.beq node k)) [
        | inl same ↦ ground (arith, step)
        | inr differs ↦ ground (arith, step)
      ]

  -- A receiver that holds a node gives all it holds.
  pub get_frame_found :
      (r : FrameReceiver N W) (node : N) (value : W)
      → UnorderedMap.find r.received node ≡ some value
      → get_frame r ≡ expected r.received
  unfolding get_frame UnorderedMap.find
  get_frame_found r node value = held r.received r.capacity
    where
      held :
          (m : UnorderedMap N W) (capacity : ℕ)
          → UnorderedMap.find m node ≡ some value
          → get_frame (record { received = m; capacity = capacity }) ≡ expected m
      held [] capacity h = cc
      held (x ∷ m) capacity h = refl
