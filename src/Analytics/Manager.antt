-- ===== src/Analytics/Manager.antt =====
-- include/tpc/analytics/analytics_manager/analytics_manager.hpp: `AnalyticsManager`. The two shared
-- mutexes make each operation one step on its state. `fuel` bounds the loops over a `double` of
-- the grid. What VTK files are written is Analytics/Vtk's.
pub mod Field
pub mod Coefficients
pub mod Reading
pub mod Export
pub mod Slice
mod Tests
use tpc_api.Double.{Double, nought}
use tpc_api.Prelude.{
  ℕ, ◌*◌, ◌/◌, ◌%◌, Bool, true, false, not, ◌||◌, Option, none, some, List, [], ◌∷◌, ◌++◌, size_max,
  dimension, ltb, ◌==◌, if◌then◌else◌, length, Expected, expected, unexpected, ◌>>=◌, ◌>>◌,
  std_exception, Outcome, returned, thrown, failed, undefined, fail_if, in_range, is_empty, attempt,
}
use tpc_api.Analytics.Models.{
  cylindric, Array3, span, Measurement, FieldComponents, transform_coordinates,
}
use tpc_api.Analytics.FieldCollection.{
  FieldCollection, clear, append_coordinate, resize_field_to_coordinates,
}
use tpc_api.Analytics.FieldCollection
use tpc_api.Analytics.Basis.{Function, BasisCollection}
use tpc_api.Analytics.Basis
use tpc_api.Analytics.SvdSolver.{measurement_concept, Eigen, solve_svd}
use tpc_api.Analytics.Modes.{components_at}
use tpc_api.Analytics.Grid.{shape, grid_points, to_cylindric}

pub record Manager {ℓ} (W : Type ℓ) : Type ℓ where
  pub basis_collection : BasisCollection W
  pub field_data : Option (FieldCollection W)
  pub field_data_valid : Bool
  pub stored_coefficients : List W

module _ {ℓ} {W : Type ℓ} where
  unfoldable pub create : BasisCollection W → Outcome (Manager W)
  unfolding Basis.empty
  create basis = do
    fail_if (Basis.empty basis) "Basis functions collection is empty"
    fail_if (basis.modes == 0) "Basis modes count must be greater than zero"
    returned (record {
      basis_collection = basis;
      field_data = none;
      field_data_valid = false;
      stored_coefficients = [];
    })

  -- `create_default_basis`; `std::invalid_argument` where the basis cannot be created.
  unfoldable pub create_default_basis :
      Function W → Function W → Function W → ℕ → Outcome (BasisCollection W)
  unfolding Basis.create Basis.add_back
  create_default_basis first second third modes =
      elim (Basis.create {W = W} dimension modes cylindric) [
        | returned basis ↦
            let one = (Basis.add_back basis first).0 in
            let two = (Basis.add_back one second).0 in returned (Basis.add_back two third).0
        | failed e ↦ thrown (std_exception e)
        | thrown x ↦ thrown x
        | undefined ↦ undefined
      ]

  -- `stored_coefficients_.size() != modes`
  abbrev pub has_coefficients : Manager W → Bool
  has_coefficients m = length m.stored_coefficients == m.basis_collection.modes

  -- What `get_field_data` shows: coordinates and field.
  pub get_field_data : Manager W → Expected (List W × List W)
  get_field_data m =
      if m.field_data_valid
      then elim m.field_data [
        | none ↦ unexpected "Field data is not calculated"
        | some c ↦ expected (c.coordinates, c.field)
      ]
      else unexpected "Field data is not calculated"

module _ {ℓ} {W : Type ℓ} ⦃d : Double W⦄ where
  -- The points of the measurements, in cylindrical coordinates; the span is changed in place.
  pub to_cylindric_points : List (Measurement W) → List (Measurement W)
  unfolding transform_coordinates
  to_cylindric_points [] = []
  to_cylindric_points (m ∷ ms) =
      record m { point_components = (transform_coordinates m.point_components cylindric).0 }
      ∷ to_cylindric_points ms

  -- The state is the manager and the caller's measurements.
  pub calculate_svd_coefficients :
      Eigen W
      → Manager W × List (Measurement W)
      → W
      → (Manager W × List (Measurement W)) × Outcome (Unit {0})
  unfolding to_cylindric_points Basis.empty
  calculate_svd_coefficients eigen (m, measurements) threshold =
      attempt (m, measurements)
        (fail_if (is_empty measurements) "Measurements collection is empty!")
        λ _.
          attempt (m, measurements) (fail_if (Basis.empty m.basis_collection) "Basis is incorrect!")
            λ _.
              let points = to_cylindric_points measurements in
              attempt (m, points)
                (solve_svd eigen points m.basis_collection.basis m.basis_collection.modes threshold)
                λ result. ((record m { stored_coefficients = result }, points), returned tt)

  pub evaluate_for_point : Manager W → Array3 W → Outcome (FieldComponents W)
  evaluate_for_point m coordinates = do
    fail_if (not (has_coefficients m)) "SVD coefficients are not calculated"
    components ←
        components_at m.basis_collection.basis m.stored_coefficients coordinates
          m.basis_collection.modes
    returned (record { components = components; coordinate_type = cylindric })

  pub validate : Manager W → W → W → Outcome (Unit {0})
  validate m radius z_length = do
    fail_if (not (m.basis_collection.arity == dimension)) "Basis does not contain enough components"
    fail_if (d.le radius nought || d.le z_length nought) "Radius and depth must be positive"

  pub append_all : FieldCollection W → List (Array3 W) → FieldCollection W
  unfolding append_coordinate
  append_all c [] = c
  append_all c (p ∷ ps) =
      let (r, phi, z) = to_cylindric p in append_all (append_coordinate c r phi z) ps

  -- The collection with the points of the grid. It is not changed before the checks are over.
  pub calculate_grid_kernel :
      ℕ → FieldCollection W → ℕ × ℕ × ℕ → W → W → Outcome (FieldCollection W)
  unfolding append_all
  calculate_grid_kernel fuel c (x_count, y_count, z_count) radius depth = do
    fail_if (ltb x_count 2 || ltb y_count 2 || ltb z_count 2) "Grid dimensions are too small"
    fail_if (d.le radius nought || d.le depth nought) "Radius and depth must be positive"
    points ← in_range (grid_points fuel (shape x_count y_count z_count radius depth) z_count)
    fail_if (ltb (size_max / dimension) (length points)) "Grid is too large"
    returned (append_all c points)

  -- The loop of `calculate_field_kernel`: the buffer is overwritten from front to back, as far as
  -- no basis function throws.
  pub fill_field : Manager W → List W → List W → List W × Outcome (Unit {0})
  fill_field m (r ∷ phi ∷ z ∷ coordinates) (a ∷ b ∷ c ∷ field) =
      elim (components_at m.basis_collection.basis m.stored_coefficients (r, phi, z)
        m.basis_collection.modes) [
          | returned v ↦
              let (rest, outcome) = fill_field m coordinates field in (span v ++ rest, outcome)
          | failed e ↦ (a ∷ b ∷ c ∷ field, failed e)
          | thrown x ↦ (a ∷ b ∷ c ∷ field, thrown x)
          | undefined ↦ (a ∷ b ∷ c ∷ field, undefined)
        ]
  fill_field m _ field = (field, returned tt)

  pub calculate_field_kernel : Manager W → List W → List W → List W × Outcome (Unit {0})
  unfolding fill_field
  calculate_field_kernel m coordinates field =
      attempt field
        (fail_if (not (length coordinates % dimension == 0))
          "Coordinate buffer has an invalid size")
        λ _.
          attempt field
            (fail_if (not (length field == length coordinates / dimension * dimension))
              "Field buffer has an invalid size")
            λ _. fill_field m coordinates field

  -- `field_data_.emplace(…)` or `field_data_->clear()`
  abbrev pub cleared : Option (FieldCollection W) → FieldCollection W
  cleared none = FieldCollection.create dimension cylindric cylindric
  cleared (some c) = clear c

  abbrev pub invalidated : Manager W → Manager W
  invalidated m = record m { field_data = some (cleared m.field_data); field_data_valid = false }

  -- From `resize_field_to_coordinates` to the end of `calculate_field`.
  pub store_field : Manager W → FieldCollection W → Manager W × Outcome (Unit {0})
  unfolding resize_field_to_coordinates
  store_field m gridded =
      let c = resize_field_to_coordinates gridded in
      let (field, outcome) = calculate_field_kernel m c.coordinates c.field in
      let written = record m {
        field_data = some (record c { field = field });
        field_data_valid = false;
      } in
      attempt written outcome λ _. (record written { field_data_valid = true }, returned tt)

  -- From the reset of `field_data_valid_` to the end.
  pub regrid : ℕ → Manager W → ℕ × ℕ × ℕ → W → W → Manager W × Outcome (Unit {0})
  unfolding store_field calculate_grid_kernel
  regrid fuel m grid_dimensions radius z_length =
      attempt (invalidated m)
        (calculate_grid_kernel fuel (cleared m.field_data) grid_dimensions radius z_length)
        (store_field m)

  pub calculate_field : ℕ → Manager W → ℕ × ℕ × ℕ → W → W → Manager W × Outcome (Unit {0})
  unfolding validate regrid
  calculate_field fuel m grid_dimensions radius z_length =
      attempt m (validate m radius z_length) λ _.
        attempt m (fail_if (not (has_coefficients m)) "SVD coefficients are not calculated")
          λ _. regrid fuel m grid_dimensions radius z_length
