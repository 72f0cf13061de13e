-- ===== src/System/Client/Order.antt =====
-- That a frame does not hang on the order in which the maps of the client are walked.
use tpc_api.Prelude.{
  ℕ, String, ◌≡◌, refl, sym, ap, ◌∙◌, ◌⊎◌, inl, inr, true, false, Option, none, some, [], ◌∷◌,
  arith, if◌then◌else◌, Bool-cases, Option-cases, Eq, beq_refl,
}
use tpc_api.Prelude.{string_eq}
use tpc_api.Prelude.UnorderedMap
use tpc_api.Prelude.UnorderedMap.{UnorderedMap, IsMap, find-insert_or_assign, contains-find}
use tpc_api.Prelude.UnorderedMap.View.{SameEntries, View, view}
use tpc_api.System.FrameReceiver
use mathlib.Core.Quot
use tpc_api.System.Client.{Client, name_frame, get_frame}
use tpc_api.System.Client.Frame.{HasUniqueNames, find-name_frame}

moved-HasUniqueNames {ℓ} :
    {N : Type ℓ} ⦃e : Eq N⦄ (channels channels' : UnorderedMap N String)
    → HasUniqueNames channels
    → SameEntries channels channels'
    → HasUniqueNames channels'
moved-HasUniqueNames channels channels' unique same n n' name p q =
    unique n n' name (same n ∙ p) (same n' ∙ q)

module _ {ℓ κ} {N : Type ℓ} {W : Type κ} ⦃e : Eq N⦄ where
  later_entry :
      (rest : UnorderedMap N W) (j n : N) (u value : W)
      → UnorderedMap.contains rest j ≡ false
      → UnorderedMap.find rest n ≡ some value
      → UnorderedMap.find ((j, u) ∷ rest) n ≡ some value
  unfolding UnorderedMap.find
  later_entry rest j n u value fresh found =
      ground (arith, e.beq_iff j n, contains-find rest j, fresh, found)

  abbrev HasSource : UnorderedMap N String → UnorderedMap N W → String → W → Type (ℓ ⊔ κ)
  HasSource channels received name value =
      (n : N) × (UnorderedMap.find channels n ≡ some name)
      × (UnorderedMap.find received n ≡ some value)

  -- Where a value of the frame comes from.
  name_frame_source :
      (channels : UnorderedMap N String) (received : UnorderedMap N W)
      (frame : UnorderedMap String W) (name : String) (value : W)
      → IsMap received
      → UnorderedMap.find (name_frame channels received frame) name ≡ some value
      → HasSource channels received name value ⊎ (UnorderedMap.find frame name ≡ some value)
  unfolding name_frame UnorderedMap.find
  name_frame_source channels [] frame name value h found = inr found
  name_frame_source channels ((j, u) ∷ rest) frame name value (fresh, h) found =
      elim (Option-cases (UnorderedMap.find channels j)) [
        | inl nameless ↦
            later (name_frame_source channels rest frame name value h (rw nameless at found))
        | inr (other_name, named) ↦
            elim (name_frame_source channels rest (UnorderedMap.insert_or_assign frame other_name u)
              name value h (rw named at found)) [
                | inl source ↦ later (inl source)
                | inr here ↦
                    head other_name named (Bool-cases (string_eq.beq other_name name))
                      (rw (find-insert_or_assign frame other_name name u) at here)
              ]
      ]
    where
      later :
          HasSource channels rest name value ⊎ (UnorderedMap.find frame name ≡ some value)
          → HasSource channels ((j, u) ∷ rest) name value
            ⊎ (UnorderedMap.find frame name ≡ some value)
      later (inl (n, named, sampled)) = inl (n, named, later_entry rest j n u value fresh sampled)
      later (inr old) = inr old

      head :
          (other_name : String)
          → UnorderedMap.find channels j ≡ some other_name
          → (string_eq.beq other_name name ≡ true) ⊎ (string_eq.beq other_name name ≡ false)
          → (if string_eq.beq other_name name then some u else UnorderedMap.find frame name)
            ≡ some value
          → HasSource channels ((j, u) ∷ rest) name value
            ⊎ (UnorderedMap.find frame name ≡ some value)
      head other_name named (inl same) here =
          let is_name : other_name ≡ name = (string_eq.beq_iff other_name name).0 same in
          let here' : some u ≡ some value = rw same at here in
          inl (j, named ∙ ap some is_name, rw (beq_refl j) here')
      head other_name named (inr differs) here = inr (rw differs at here)

  carried :
      (channels channels' : UnorderedMap N String) (received received' : UnorderedMap N W)
      (name : String) (value : W)
      → HasUniqueNames channels'
      → IsMap received
      → IsMap received'
      → SameEntries channels channels'
      → SameEntries received received'
      → UnorderedMap.find (name_frame channels received []) name ≡ some value
      → UnorderedMap.find (name_frame channels' received' []) name ≡ some value
  unfolding UnorderedMap.find
  carried channels channels' received received' name value unique' h h' same same_values found =
      elim (name_frame_source channels received [] name value h found) [
        | inl (n, named, sampled) ↦
            find-name_frame channels' received' n name unique' h' (sym (same n) ∙ named)
            ∙ sym (same_values n)
            ∙ sampled
        | inr nowhere ↦ cc
      ]

  name_frame-SameEntries :
      (channels channels' : UnorderedMap N String) (received received' : UnorderedMap N W)
      → HasUniqueNames channels
      → IsMap received
      → IsMap received'
      → SameEntries channels channels'
      → SameEntries received received'
      → SameEntries (name_frame channels received []) (name_frame channels' received' [])
  name_frame-SameEntries channels channels' received received' unique h h' same same_values name =
      elim (Option-cases (UnorderedMap.find (name_frame channels received []) name)) [
        | inr (value, found) ↦
            found
            ∙ sym (
                carried channels channels' received received' name value
                  (moved-HasUniqueNames channels channels' unique same) h h' same same_values found)
        | inl nothing ↦
            elim (Option-cases (UnorderedMap.find (name_frame channels' received' []) name)) [
              | inl nothing' ↦ nothing ∙ sym nothing'
              | inr (value, found) ↦
                  let back =
                    carried channels' channels received' received name value unique h' h
                      (λ k. sym (same k)) (λ k. sym (same_values k)) found in
                  cc
            ]
      ]

-- What the users of a frame see of it.
abbrev pub view_of {ℓ} : {W : Type ℓ} → Option (UnorderedMap String W) → Option (View String W)
view_of none = none
view_of (some frame) = some (view frame)

module _ {ℓ κ} {N : Type ℓ} {W : Type κ} ⦃e : Eq N⦄ where
  empty_other : (k : N) (v : W) (rest : UnorderedMap N W) → SameEntries [] ((k, v) ∷ rest) → ⊥
  unfolding UnorderedMap.find
  empty_other k v rest same = ground (arith, same k, beq_refl k)

  get_frame_from :
      (channels channels' : UnorderedMap N String) (received received' : UnorderedMap N W)
      (capacity capacity' : ℕ)
      → HasUniqueNames channels
      → IsMap received
      → IsMap received'
      → SameEntries channels channels'
      → SameEntries received received'
      → view_of (
          get_frame (record {
            channels_info = channels;
            frame_receiver = record { received = received; capacity = capacity };
          }))
        ≡ view_of (
            get_frame (record {
              channels_info = channels';
              frame_receiver = record { received = received'; capacity = capacity' };
            }))
  unfolding get_frame FrameReceiver.get_frame
  get_frame_from channels channels' [] [] capacity capacity' unique h h' same same_values = refl
  get_frame_from channels channels' [] ((k, v) ∷ rest) capacity capacity' unique h h' same
        same_values =
      absurd (empty_other k v rest same_values)
  get_frame_from channels channels' ((k, v) ∷ rest) [] capacity capacity' unique h h' same
        same_values =
      absurd (empty_other k v rest λ j. sym (same_values j))
  get_frame_from channels channels' ((k, v) ∷ rest) ((k', v') ∷ rest') capacity capacity' unique h
        h' same same_values =
      ap some (
        Quot.sound (
          name_frame-SameEntries channels channels' ((k, v) ∷ rest) ((k', v') ∷ rest') unique h h'
            same same_values))

  pub get_frame-view :
      (c c' : Client N W)
      → HasUniqueNames c.channels_info
      → IsMap c.frame_receiver.received
      → IsMap c'.frame_receiver.received
      → SameEntries c.channels_info c'.channels_info
      → SameEntries c.frame_receiver.received c'.frame_receiver.received
      → view_of (get_frame c) ≡ view_of (get_frame c')
  get_frame-view c c' =
      get_frame_from c.channels_info c'.channels_info c.frame_receiver.received
        c'.frame_receiver.received c.frame_receiver.capacity c'.frame_receiver.capacity
