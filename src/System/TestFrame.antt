-- ===== src/System/TestFrame.antt =====
-- src/system/tpc.cpp: `TPC::create_test_frame`, with `std::to_string` of the standard library as a
-- parameter.
pub mod Names
mod Tests
use tpc_api.Prelude.{ℕ, zero, suc, ◌+◌, String, [], if◌then◌else◌}
use tpc_api.Prelude.{string_eq}
use tpc_api.Double.{Double, ◌⊕◌, ◌⊖◌, ◌⊗◌, ◌⊘◌}
use tpc_api.Prelude.UnorderedMap
use tpc_api.Prelude.UnorderedMap.{UnorderedMap}
use Prim.Native.String.{◌++◌ as concat}

abbrev pub sensors_per_base : ℕ
sensors_per_base = 6

abbrev pub sensor_name : (ℕ → String) → String → ℕ → String
sensor_name to_string base index = concat base (to_string (index + 1))

module _ {ℓ} {W : Type ℓ} ⦃d : Double W⦄ where
  -- `TpcGeometry`
  abbrev pub radius : W
  radius = d.decimal 4 0

  abbrev pub half_length : W
  half_length = d.decimal 7 0 ⊗ d.decimal 5 1

  abbrev pub axial_curvature : W
  axial_curvature = d.neg (d.decimal 5 1) ⊘ (radius ⊗ half_length)

  abbrev pub axial_offset : W
  axial_offset =
      d.decimal 5000 0
      ⊖ axial_curvature ⊗ (half_length ⊗ half_length ⊖ d.decimal 5 1 ⊗ radius ⊗ radius)

  abbrev pub angular_coefficient : W
  angular_coefficient = d.decimal 2 2 ⊘ half_length

  unfoldable pub base_z : String → W
  base_z base = if string_eq.beq base "E" then half_length else d.neg half_length

  unfoldable pub phase_of : ℕ → W
  phase_of index = d.decimal 2 0 ⊗ d.pi ⊗ d.of_size index ⊘ d.of_size sensors_per_base

  unfoldable pub radial_field : W → W → W
  radial_field z phase = d.neg axial_curvature ⊗ radius ⊗ z ⊕ angular_coefficient ⊗ z ⊗ d.cos phase

  unfoldable pub azimuthal_field : W → W → W
  azimuthal_field z phase = d.decimal 5 1 ⊖ angular_coefficient ⊗ z ⊗ d.sin phase

  unfoldable pub axial_field : W → W → W
  axial_field z phase =
      axial_offset
      ⊕ axial_curvature ⊗ (z ⊗ z ⊖ d.decimal 5 1 ⊗ radius ⊗ radius)
      ⊕ angular_coefficient ⊗ radius ⊗ d.cos phase

  module _ (to_string : ℕ → String) where
    unfoldable pub emplace_sensor : String → ℕ → UnorderedMap String W → UnorderedMap String W
    emplace_sensor base index frame =
        let name = sensor_name to_string base index in
        let z = base_z base in
        let phase = phase_of index in
        let with_radial = UnorderedMap.emplace frame (concat name "R") (radial_field z phase) in
        let with_azimuthal =
          UnorderedMap.emplace with_radial (concat name "F") (azimuthal_field z phase) in
        UnorderedMap.emplace with_azimuthal (concat name "Z") (axial_field z phase)

    -- The loop over the sensors of a base, of which some remain from the index on.
    unfoldable pub emplace_base : String → ℕ → ℕ → UnorderedMap String W → UnorderedMap String W
    emplace_base base zero index frame = frame
    emplace_base base (suc remaining) index frame =
        emplace_base base remaining (index + 1) (emplace_sensor base index frame)

    unfoldable pub create_test_frame : UnorderedMap String W
    create_test_frame = emplace_base "W" sensors_per_base 0 (emplace_base "E" sensors_per_base 0 [])
