-- ===== src/Analytics/SvdSolver.antt =====
-- include/tpc/analytics/svd/svd_solver.hpp: `SVDSolver::solve_svd`, and the concept of
-- include/tpc/analytics/concepts/measurement_concept.hpp.
pub mod Rows
pub mod Design
use tpc_api.Prelude.{
  ℕ, ◌+◌, ◌*◌, ◌/◌, not, ◌||◌, List, [], index_max, ltb, ◌==◌, length, get_elem?, get_or, set,
  replicate, ◌>>=◌, ◌>>◌, Outcome, returned, fail_if, in_range, is_empty, loop,
}
use tpc_api.Double.{Double, nought}
use tpc_api.Utilities.HeaderFunction
use tpc_api.Analytics.Models.{Measurement, span}
use tpc_api.Analytics.Basis.{Function}

-- `MeasurementConcept`: the two spans of a measurement.
pub record MeasurementConcept {ℓ κ} (M : Type ℓ) (W : Type κ) : Type (ℓ ⊔ κ) where
  pub point_components : M → List W
  pub field_components : M → List W

instance abbrev pub measurement_concept {ℓ} : {W : Type ℓ} → MeasurementConcept (Measurement W) W
measurement_concept = record {
  point_components = λ m. span m.point_components.components;
  field_components = λ m. span m.field_components.components;
}

-- Eigen, which is not in the repository: `JacobiSVD` of a matrix of so many rows and columns (thin U
-- and V) at a threshold, solved for a right-hand side. `unset` is what a cell holds that a matrix
-- or vector was created with.
pub record Eigen {ℓ} (W : Type ℓ) : Type ℓ where
  pub unset : W
  pub solve : (rows columns : ℕ) → List (List W) → W → List W → List W

-- `matrix` and `values_vector`
pub record System {ℓ} (W : Type ℓ) : Type ℓ where
  pub matrix : List (List W)
  pub values : List W

module _ {ℓ} {W : Type ℓ} where
  -- `matrix(row, column) = v;`
  unfoldable pub write_cell : ℕ → ℕ → W → System W → System W
  write_cell row column v s = record s {
    matrix = set s.matrix row (set (get_or s.matrix row []) column v);
  }

  unfoldable pub write_value : ℕ → W → System W → System W
  write_value row v s = record s { values = set s.values row v }

  module _ (basis : List (Function W)) (modes field_dimension : ℕ) where
    unfoldable pub fill_mode : ℕ → ℕ → List W → ℕ → System W → Outcome (System W)
    fill_mode component row coordinates mode s = do
      function ← in_range (get_elem? basis component)
      v ← HeaderFunction.invoke_from_span function mode coordinates
      returned (write_cell row mode v s)

    unfoldable pub fill_component : ℕ → List W → List W → ℕ → System W → Outcome (System W)
    fill_component measurement_index coordinates values component s = do
      let row = field_dimension * measurement_index + component
      value ← in_range (get_elem? values component)
      loop modes 0 (fill_mode component row coordinates) (write_value row value s)

    module _ {κ} {M : Type κ} ⦃concept : MeasurementConcept M W⦄ where
      unfoldable pub fill_measurement : List M → ℕ → System W → Outcome (System W)
      fill_measurement measurements index s = do
        measurement ← in_range (get_elem? measurements index)
        let coordinates = concept.point_components measurement
        let values = concept.field_components measurement
        fail_if
            (not (length coordinates == field_dimension) || not (length values == field_dimension))
            "Measurement dimensions are inconsistent"
        loop field_dimension 0 (fill_component index coordinates values) s

  -- `MatrixXd matrix(rows, columns); VectorXd values_vector(rows);`
  abbrev pub unset_system : Eigen W → ℕ → ℕ → System W
  unset_system eigen rows columns = record {
    matrix = replicate rows (replicate columns eigen.unset);
    values = replicate rows eigen.unset;
  }

  module _ {κ} {M : Type κ} ⦃d : Double W⦄ ⦃concept : MeasurementConcept M W⦄
      (eigen : Eigen W) where
    unfoldable pub solve_svd : List M → List (Function W) → ℕ → W → Outcome (List W)
    solve_svd measurements basis modes threshold = do
      fail_if (is_empty measurements) "Measurement collection is empty"
      fail_if (is_empty basis) "Basis functions collection is empty"
      fail_if (modes == 0) "Modes count must be greater than zero"
      fail_if (d.lt threshold nought) "SVD threshold cannot be negative"
      front ← in_range (get_elem? measurements 0)
      let field_dimension = length (concept.point_components front)
      fail_if (field_dimension == 0) "Measurement dimension must be greater than zero"
      fail_if (not (length basis == field_dimension))
          "Number of basis functions must equal field dimension"
      fail_if (ltb (index_max / field_dimension) (length measurements))
          "Measurement matrix is too large"
      fail_if (ltb index_max modes) "Modes count is too large"
      let rows = length measurements * field_dimension
      s ←
          loop (length measurements) 0 (fill_measurement basis modes field_dimension measurements)
            (unset_system eigen rows modes)
      returned (eigen.solve rows modes s.matrix threshold s.values)
