-- ===== src/System/TestFrame/Names.antt =====
-- The sensors of the test frame.
use tpc_api.Prelude.{
  ℕ, zero, suc, ◌+◌, ◌<◌, String, ◌≡◌, refl, sym, ap, ◌∙◌, subst, ◌⊎◌, inl, inr, some, [], ◌∷◌, map,
  arith, length, get_or,
}
use tpc_api.Prelude.{string_eq}
use tpc_api.Double.{Double}
use tpc_api.Prelude.UnorderedMap
use tpc_api.Prelude.UnorderedMap.{UnorderedMap, IsMap, emplace-IsMap}
use tpc_api.System.TestFrame.{
  sensors_per_base, base_z, phase_of, radial_field, azimuthal_field, axial_field, sensor_name,
  emplace_sensor, emplace_base, create_test_frame,
}
use Prim.Native.String.{◌++◌ as concat}

-- What `std::to_string` gives for the numbers of the sensors.
abbrev pub digit : ℕ → String
digit n = get_or ("0" ∷ "1" ∷ "2" ∷ "3" ∷ "4" ∷ "5" ∷ "6" ∷ []) n ""

length-create_test_frame {ℓ} :
    (W : Type ℓ) ⦃d : Double W⦄ → length (create_test_frame {W = W} digit) ≡ 36
unfolding create_test_frame emplace_base emplace_sensor UnorderedMap.emplace
    UnorderedMap.insert_or_assign UnorderedMap.contains
length-create_test_frame W = refl

shown :
    (to_string : ℕ → String) (index : ℕ)
    → index < sensors_per_base
    → map to_string (1 ∷ 2 ∷ 3 ∷ 4 ∷ 5 ∷ 6 ∷ []) ≡ "1" ∷ "2" ∷ "3" ∷ "4" ∷ "5" ∷ "6" ∷ []
    → to_string (index + 1) ≡ digit (index + 1)
shown to_string zero small h = ap (λ l. get_or l 0 "") h
shown to_string (suc zero) small h = ap (λ l. get_or l 1 "") h
shown to_string (suc (suc zero)) small h = ap (λ l. get_or l 2 "") h
shown to_string (suc (suc (suc zero))) small h = ap (λ l. get_or l 3 "") h
shown to_string (suc (suc (suc (suc zero)))) small h = ap (λ l. get_or l 4 "") h
shown to_string (suc (suc (suc (suc (suc zero))))) small h = ap (λ l. get_or l 5 "") h
shown to_string (suc (suc (suc (suc (suc (suc n)))))) small h = ground (arith, small)

module _ {ℓ} {W : Type ℓ} ⦃d : Double W⦄ where
  create_test_frame-digit :
      (to_string : ℕ → String)
      → map to_string (1 ∷ 2 ∷ 3 ∷ 4 ∷ 5 ∷ 6 ∷ []) ≡ map digit (1 ∷ 2 ∷ 3 ∷ 4 ∷ 5 ∷ 6 ∷ [])
      → create_test_frame {W = W} to_string ≡ create_test_frame digit
  unfolding create_test_frame emplace_base emplace_sensor
  create_test_frame-digit to_string h =
      let at : (i : ℕ)
          → get_or (map to_string (1 ∷ 2 ∷ 3 ∷ 4 ∷ 5 ∷ 6 ∷ [])) i ""
            ≡ get_or (map digit (1 ∷ 2 ∷ 3 ∷ 4 ∷ 5 ∷ 6 ∷ [])) i "" =
        λ i. ap (λ l. get_or l i "") h in
      rw (at 0, at 1, at 2, at 3, at 4, at 5) refl

  -- What the frame has for a sensor.
  abbrev pub HasSensor : UnorderedMap String W → (ℕ → String) → String → ℕ → Type ℓ
  HasSensor frame to_string base index =
      let name = sensor_name to_string base index in
      let z : W = base_z base in
      let phase : W = phase_of index in
      (UnorderedMap.find frame (concat name "R") ≡ some (radial_field z phase))
      × (UnorderedMap.find frame (concat name "F") ≡ some (azimuthal_field z phase))
      × (UnorderedMap.find frame (concat name "Z") ≡ some (axial_field z phase))

  east :
      (index : ℕ) → index < sensors_per_base → HasSensor (create_test_frame digit) digit "E" index
  unfolding create_test_frame emplace_base emplace_sensor UnorderedMap.emplace
      UnorderedMap.insert_or_assign UnorderedMap.contains UnorderedMap.find
  east zero h = (refl, refl, refl)
  east (suc zero) h = (refl, refl, refl)
  east (suc (suc zero)) h = (refl, refl, refl)
  east (suc (suc (suc zero))) h = (refl, refl, refl)
  east (suc (suc (suc (suc zero)))) h = (refl, refl, refl)
  east (suc (suc (suc (suc (suc zero))))) h = (refl, refl, refl)
  east (suc (suc (suc (suc (suc (suc n)))))) h = ground (arith, h)

  west :
      (index : ℕ) → index < sensors_per_base → HasSensor (create_test_frame digit) digit "W" index
  unfolding create_test_frame emplace_base emplace_sensor UnorderedMap.emplace
      UnorderedMap.insert_or_assign UnorderedMap.contains UnorderedMap.find
  west zero h = (refl, refl, refl)
  west (suc zero) h = (refl, refl, refl)
  west (suc (suc zero)) h = (refl, refl, refl)
  west (suc (suc (suc zero))) h = (refl, refl, refl)
  west (suc (suc (suc (suc zero)))) h = (refl, refl, refl)
  west (suc (suc (suc (suc (suc zero))))) h = (refl, refl, refl)
  west (suc (suc (suc (suc (suc (suc n)))))) h = ground (arith, h)

  emplace_base-IsMap :
      (to_string : ℕ → String) (base : String) (remaining index : ℕ) (frame : UnorderedMap String W)
      → IsMap frame
      → IsMap (emplace_base to_string base remaining index frame)
  unfolding emplace_base emplace_sensor
  emplace_base-IsMap to_string base zero index frame h = h
  emplace_base-IsMap to_string base (suc remaining) index frame h =
      emplace_base-IsMap to_string base remaining (index + 1)
        (emplace_sensor to_string base index frame)
        (emplace-IsMap _ _ _ (emplace-IsMap _ _ _ (emplace-IsMap _ _ _ h)))

  -- If `std::to_string` gives the numbers from 1 to 6 their digits: the test frame has 36 values, at
  -- distinct names, and for each of the six sensors of both bases those of its radial, azimuthal and
  -- axial field, at the names that end in R, F and Z; so no value is lost to a name that is taken.
  pub create_test_frame_lem :
      (to_string : ℕ → String) (base : String) (index : ℕ)
      → (base ≡ "E") ⊎ (base ≡ "W")
      → index < sensors_per_base
      → map to_string (1 ∷ 2 ∷ 3 ∷ 4 ∷ 5 ∷ 6 ∷ []) ≡ "1" ∷ "2" ∷ "3" ∷ "4" ∷ "5" ∷ "6" ∷ []
      → (length (create_test_frame {W = W} to_string) ≡ 36)
        × IsMap (create_test_frame {W = W} to_string)
        × HasSensor (create_test_frame to_string) to_string base index
  unfolding create_test_frame
  create_test_frame_lem to_string base index is_base small h =
      let same = create_test_frame-digit to_string h in
      let names = shown to_string index small h in
      let has_sensor : HasSensor (create_test_frame digit) digit base index = elim is_base [
        | inl is_east ↦
            subst (λ b. HasSensor (create_test_frame digit) digit b index) (sym is_east)
              (east index small)
        | inr is_west ↦
            subst (λ b. HasSensor (create_test_frame digit) digit b index) (sym is_west)
              (west index small)
      ] in
      (
        ap length same ∙ length-create_test_frame W,
        emplace_base-IsMap to_string "W" sensors_per_base 0 _
            (emplace_base-IsMap to_string "E" sensors_per_base 0 [] tt),
        rw (same, names) has_sensor,
      )
