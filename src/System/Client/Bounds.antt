-- ===== src/System/Client/Bounds.antt =====
-- How large a frame is.
use tpc_api.Prelude.{
  ℕ, suc, ◌+◌, ◌≤◌, String, ◌≡◌, subst, inl, inr, some, [], ◌∷◌, arith, Option-cases, Eq, length,
}
use tpc_api.Prelude.{string_eq}
use tpc_api.Prelude.UnorderedMap
use tpc_api.Prelude.UnorderedMap.{
  UnorderedMap, IsMap, length-insert_or_assign, insert_or_assign-IsMap,
}
use tpc_api.System.FrameReceiver
use tpc_api.System.FrameReceiver.{FrameReceiver}
use tpc_api.System.Client.{Client, name_frame, get_frame}

-- The names differ, and there are no more than that.
abbrev pub IsFrame {ℓ} : {W : Type ℓ} → ℕ → UnorderedMap String W → Type 0
IsFrame n frame = IsMap frame × (length frame ≤ n)

module _ {ℓ κ} {N : Type ℓ} {W : Type κ} ⦃e : Eq N⦄ where
  name_frame-IsFrame :
      (channels : UnorderedMap N String) (received : UnorderedMap N W)
      (frame : UnorderedMap String W) (n : ℕ)
      → IsFrame n frame
      → IsFrame (n + length received) (name_frame channels received frame)
  unfolding name_frame
  name_frame-IsFrame channels [] frame n (h, few) = (h, omega arith)
  name_frame-IsFrame channels ((j, u) ∷ rest) frame n (h, few) =
      elim (Option-cases (UnorderedMap.find channels j)) [
        | inl nameless ↦
            let (h', few') = name_frame-IsFrame channels rest frame n (h, few) in
            rw nameless (h', omega arith)
        | inr (name, named) ↦
            let inserted : length (UnorderedMap.insert_or_assign frame name u) ≤ suc n =
              ground (arith, length-insert_or_assign frame name u) in
            let (h', few') =
              name_frame-IsFrame channels rest (UnorderedMap.insert_or_assign frame name u) (suc n)
                (insert_or_assign-IsMap frame name u h, inserted) in
            rw named (h', omega arith)
      ]

  get_frame-IsFrame :
      (channels : UnorderedMap N String) (received : UnorderedMap N W) (capacity : ℕ)
      (frame : UnorderedMap String W)
      → get_frame (record {
        channels_info = channels;
        frame_receiver = record { received = received; capacity = capacity };
      })
        ≡ some frame
      → IsFrame (length received) frame
  unfolding get_frame FrameReceiver.get_frame
  get_frame-IsFrame channels [] capacity frame got = cc
  get_frame-IsFrame channels (x ∷ received) capacity frame got =
      let same : name_frame channels (x ∷ received) [] ≡ frame = cc in
      let (h, few) = name_frame-IsFrame channels (x ∷ received) [] 0 (tt, omega arith) in
      subst (IsFrame (length (x ∷ received))) same (h, omega arith)

  -- The frame of a client has no more names than there are samples.
  pub client-IsFrame :
      (c : Client N W) (frame : UnorderedMap String W)
      → get_frame c ≡ some frame
      → IsFrame (length c.frame_receiver.received) frame
  client-IsFrame c frame got =
      get_frame-IsFrame c.channels_info c.frame_receiver.received c.frame_receiver.capacity frame
        got
