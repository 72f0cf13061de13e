-- ===== src/System/Client/Frame.antt =====
-- The frame by names that the client builds from the samples of the nodes.
use tpc_api.Prelude.{
  String, ◌≡◌, refl, sym, ap, ◌∙◌, inl, inr, false, some, [], ◌∷◌, arith, Bool-cases, Option-cases,
  Eq, beq_refl,
}
use tpc_api.Prelude.{string_eq}
use tpc_api.Prelude.UnorderedMap
use tpc_api.Prelude.UnorderedMap.{
  UnorderedMap, IsMap, find-insert_or_assign, contains-find, find-contains,
}
use tpc_api.System.FrameReceiver.History.{get_frame_found}
use tpc_api.System.Client.{Client, name_frame, get_frame}

-- No two nodes have the same name.
abbrev pub HasUniqueNames {ℓ} : {N : Type ℓ} ⦃e : Eq N⦄ → UnorderedMap N String → Type ℓ
HasUniqueNames {N} channels =
    (n n' : N) (name : String)
    → UnorderedMap.find channels n ≡ some name
    → UnorderedMap.find channels n' ≡ some name
    → n ≡ n'

module _ {ℓ κ} {N : Type ℓ} {W : Type κ} ⦃e : Eq N⦄ where
  module _ (channels : UnorderedMap N String) (unique : HasUniqueNames channels) where
    -- A node that is not among the samples leaves its name's entry as it is.
    pub name_frame_unsampled :
        (received_frame : UnorderedMap N W) (frame : UnorderedMap String W) (n : N) (name : String)
        → UnorderedMap.find channels n ≡ some name
        → UnorderedMap.contains received_frame n ≡ false
        → UnorderedMap.find (name_frame channels received_frame frame) name
          ≡ UnorderedMap.find frame name
    unfolding name_frame UnorderedMap.contains
    name_frame_unsampled [] frame n name named h = refl
    name_frame_unsampled ((j, v) ∷ rest) frame n name named h =
        elim (Option-cases (UnorderedMap.find channels j)) [
          | inl nameless ↦ ground (arith, name_frame_unsampled rest frame n name named)
          | inr (other_name, q) ↦
              rw
                (
                  q,
                  name_frame_unsampled rest (UnorderedMap.insert_or_assign frame other_name v) n
                      name named (ground arith),
                  find-insert_or_assign frame other_name name v,
                )
                (ground (arith, string_eq.beq_iff other_name name, e.beq_iff j n, unique j n name))
        ]

    pub name_frame_sampled :
        (received_frame : UnorderedMap N W) (frame : UnorderedMap String W) (n : N) (name : String)
        (value : W)
        → IsMap received_frame
        → UnorderedMap.find channels n ≡ some name
        → UnorderedMap.find received_frame n ≡ some value
        → UnorderedMap.find (name_frame channels received_frame frame) name ≡ some value
    unfolding name_frame UnorderedMap.find
    name_frame_sampled [] frame n name value h named sampled = cc
    name_frame_sampled ((j, v) ∷ rest) frame n name value h named sampled =
        elim (Bool-cases (e.beq j n)) [
          | inl same ↦
              let is_j : j ≡ n = (e.beq_iff j n).0 same in
              let here : UnorderedMap.find channels j ≡ some name = ground (arith, is_j, named) in
              let last : v ≡ value = ground (arith, same, sampled) in
              rw
                (
                  here,
                  name_frame_unsampled rest (UnorderedMap.insert_or_assign frame name v) n name
                      named (ground (arith, is_j, h)),
                  find-insert_or_assign frame name name v,
                  beq_refl name,
                )
                (ap some last)
          | inr differs ↦
              name_frame_sampled rest _ n name value h.1 named (ground (arith, differs, sampled))
        ]

    -- If no two nodes have the same name, the frame has at a node's name the node's value in the
    -- receiver, and so it is the same in whatever order the two maps are walked.
    pub get_frame_lem :
        (c : Client N W) (n : N) (name : String) (value : W)
        → c.channels_info ≡ channels
        → IsMap c.frame_receiver.received
        → UnorderedMap.find channels n ≡ some name
        → UnorderedMap.find c.frame_receiver.received n ≡ some value
        → (frame : UnorderedMap String W) × (get_frame c ≡ some frame)
          × (UnorderedMap.find frame name ≡ some value)
    unfolding get_frame
    get_frame_lem c n name value is_channels h named sampled = (
      name_frame channels c.frame_receiver.received [],
      rw (get_frame_found c.frame_receiver n value sampled, is_channels, get_frame),
      name_frame_sampled c.frame_receiver.received [] n name value h named sampled,
    )

  -- The value of a named node, or that it has none.
  pub find-name_frame :
      (channels : UnorderedMap N String) (received : UnorderedMap N W) (n : N) (name : String)
      → HasUniqueNames channels
      → IsMap received
      → UnorderedMap.find channels n ≡ some name
      → UnorderedMap.find (name_frame channels received []) name ≡ UnorderedMap.find received n
  unfolding UnorderedMap.find
  find-name_frame channels received n name unique h named =
      elim (Bool-cases (UnorderedMap.contains received n)) [
        | inl sampled ↦
            let (value, found) = find-contains received n sampled in
            name_frame_sampled channels unique received [] n name value h named found ∙ sym found
        | inr unsampled ↦
            name_frame_unsampled channels unique received [] n name named unsampled
            ∙ sym (contains-find received n unsampled)
      ]

  pub get_frame-name_frame :
      (c : Client N W) (node : N) (value : W)
      → UnorderedMap.find c.frame_receiver.received node ≡ some value
      → get_frame c ≡ some (name_frame c.channels_info c.frame_receiver.received [])
  unfolding get_frame
  get_frame-name_frame c node value sampled =
      rw (get_frame_found c.frame_receiver node value sampled, get_frame)
