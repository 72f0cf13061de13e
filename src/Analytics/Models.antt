-- ===== src/Analytics/Models.antt =====
-- include/tpc/analytics/models/three_dimension_models.hpp: points, fields and measurements.
pub mod Basis
use tpc_api.Prelude.{
  ℕ, ◌≡◌, Bool, true, false, List, [], ◌∷◌, arith, if◌then◌else◌, Expected, expected,
}
use tpc_api.Double.{Double, ◌⊕◌, ◌⊖◌, ◌⊗◌}

pub data CoordinateType : Type 0 where
  cartesian cylindric : CoordinateType

abbrev pub same_type : CoordinateType → CoordinateType → Bool
same_type cartesian cartesian = true
same_type cylindric cylindric = true
same_type _ _ = false

-- `SliceDirection::X`, `Y` and `Z`
pub data SliceDirection : Type 0 where
  along_x along_y along_z : SliceDirection

-- `std::array<double, DIMENSION>`, with DIMENSION = 3
abbrev pub Array3 {ℓ} : Type ℓ → Type ℓ
Array3 W = W × W × W

-- The span over such an array.
abbrev pub span {ℓ} : {W : Type ℓ} → Array3 W → List W
span (a, b, c) = a ∷ b ∷ c ∷ []

-- A buffer of triples.
abbrev pub buffer {ℓ} : {W : Type ℓ} → List (Array3 W) → List W
buffer [] = []
buffer ((a, b, c) ∷ ps) = a ∷ b ∷ c ∷ buffer ps

pub record PointComponents {ℓ} (W : Type ℓ) : Type ℓ where
  pub components : Array3 W
  pub coordinate_type : CoordinateType

pub record FieldComponents {ℓ} (W : Type ℓ) : Type ℓ where
  pub components : Array3 W
  pub coordinate_type : CoordinateType

pub record Measurement {ℓ} (W : Type ℓ) : Type ℓ where
  pub point_components : PointComponents W
  pub field_components : FieldComponents W

-- A regular slice. Field components are Cartesian; `valid` holds bytes.
pub record FieldSlice {ℓ} (W : Type ℓ) : Type ℓ where
  pub direction : SliceDirection
  pub coordinate : W
  pub grid : ℕ × ℕ
  pub horizontal_bounds : W × W
  pub vertical_bounds : W × W
  pub field : List W
  pub valid : List ℕ

module _ {ℓ} {W : Type ℓ} ⦃d : Double W⦄ where
  -- The new components, which `PointComponents` and `FieldCollection` compute alike.
  abbrev pub to_type : CoordinateType → Array3 W → Array3 W
  to_type cylindric (x, y, z) = (d.hypot x y, d.atan2 y x, z)
  to_type cartesian (r, phi, z) = (r ⊗ d.cos phi, r ⊗ d.sin phi, z)

  -- `PointComponents::transform_coordinates`. The enumeration has no third value, so its last
  -- branch ("Unsupported coordinate type") is not there.
  unfoldable pub transform_coordinates :
      PointComponents W → CoordinateType → PointComponents W × Expected (Unit {0})
  transform_coordinates p target =
      if same_type target p.coordinate_type then (p, expected tt) else (
        record { components = to_type target p.components; coordinate_type = target },
        expected tt,
      )

  -- Cylindric field components (br, bphi) at the angle phi, in Cartesian ones.
  abbrev pub rotate : W → W → W → W × W
  rotate phi br bphi =
      ((br ⊗ d.cos phi) ⊖ (bphi ⊗ d.sin phi), (br ⊗ d.sin phi) ⊕ (bphi ⊗ d.cos phi))

  -- A point always ends in the type that is asked for, and a second call changes nothing.
  pub transform_coordinates_idempotent :
      (p : PointComponents W) (target : CoordinateType)
      → let (q, result) = transform_coordinates p target in
        (result ≡ expected tt)
        × (q.coordinate_type ≡ target)
        × (transform_coordinates q target ≡ (q, expected tt))
  unfolding transform_coordinates
  transform_coordinates_idempotent p target = ground arith
