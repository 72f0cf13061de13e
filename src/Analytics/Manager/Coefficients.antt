-- ===== src/Analytics/Manager/Coefficients.antt =====
-- What `calculate_svd_coefficients` leaves behind.
use tpc_api.Double.{Double, nought}
use tpc_api.Prelude.{
  ℕ, suc, ◌*◌, ◌/◌, ◌≤◌, ◌<◌, ◌≡◌, refl, ap, Bool, false, Option, List, [], ◌∷◌, index_max, length,
  Outcome, returned, fail_if, is_empty, attempt, attempt_cases,
}
use tpc_api.Analytics.Models.{CoordinateType, cylindric, Measurement, transform_coordinates}
use tpc_api.Analytics.FieldCollection.{FieldCollection}
use tpc_api.Analytics.Basis
use tpc_api.Analytics.SvdSolver.{measurement_concept, Eigen, solve_svd}
use tpc_api.Analytics.SvdSolver.Design.{design, field_values, solve_svd_lem}
use tpc_api.Analytics.Manager.{Manager, to_cylindric_points, calculate_svd_coefficients}
use tpc_api.Analytics.Manager.Field.{ready}

module _ {ℓ} {W : Type ℓ} ⦃d : Double W⦄ where
  length-to_cylindric_points :
      (ms : List (Measurement W)) → length (to_cylindric_points ms) ≡ length ms
  unfolding to_cylindric_points
  length-to_cylindric_points [] = refl
  length-to_cylindric_points (m ∷ ms) = ap suc (length-to_cylindric_points ms)

  -- The least-squares solution that Eigen finds for some measurements.
  abbrev pub solution :
      Eigen W → (f g h : ℕ → W → W → W → W) → ℕ → List (Measurement W) → W → List W
  solution eigen f g h modes ms threshold =
      eigen.solve (length ms * 3) modes (design (f ∷ g ∷ h ∷ []) modes ms) threshold
        (field_values ms)

  -- With a complete basis, some measurements, sizes within Eigen's indices and a threshold that is
  -- not negative, the new coefficients are the solution for the measurements at their cylindrical
  -- points. The field data and its mark stay, also where they stem from older coefficients.
  pub calculate_svd_coefficients_lem :
      (eigen : Eigen W) (f g h : ℕ → W → W → W → W) (basis_type : CoordinateType) (modes : ℕ)
      (old : List W) (field_data : Option (FieldCollection W)) (valid : Bool) (m : Measurement W)
      (ms : List (Measurement W)) (threshold : W)
      → 0 < modes
      → modes ≤ index_max
      → length (m ∷ ms) ≤ index_max / 3
      → d.lt threshold nought ≡ false
      → let points = to_cylindric_points (m ∷ ms) in
        calculate_svd_coefficients eigen
          (ready f g h basis_type modes old field_data valid, m ∷ ms)
          threshold
        ≡ (
          (
            ready f g h basis_type modes
                (solution eigen f g h modes points threshold)
                field_data
                valid,
            points,
          ),
          returned tt,
        )
  unfolding calculate_svd_coefficients
  calculate_svd_coefficients_lem eigen f g h basis_type modes old field_data valid m ms threshold p
        q r t =
      let first = record m {
        point_components = (transform_coordinates m.point_components cylindric).0;
      } in
      let few : length (first ∷ to_cylindric_points ms) ≤ index_max / 3 =
        rw (length-to_cylindric_points ms) r in
      rw (solve_svd_lem eigen f g h first (to_cylindric_points ms) modes threshold p q few t)

  abbrev fit_coefficients :
      Manager W
      → List (Measurement W)
      → List W
      → (Manager W × List (Measurement W)) × Outcome (Unit {0})
  fit_coefficients m points result =
      ((record m { stored_coefficients = result }, points), returned tt)

  -- What the call may do to a manager: replace the coefficients if it succeeds, else nothing.
  abbrev pub Fitted : Manager W → (Manager W × List (Measurement W)) × Outcome (Unit {0}) → Type ℓ
  Fitted m ((after, points), returned _) =
      after ≡ record m { stored_coefficients = after.stored_coefficients }
  Fitted m ((after, points), _) = after ≡ m

  -- Whatever the basis and the measurements: unless the call succeeds the manager is as it was, and
  -- if it succeeds only the coefficients are new.
  pub calculate_svd_coefficients-Fitted :
      (eigen : Eigen W) (m : Manager W) (ms : List (Measurement W)) (threshold : W)
      → Fitted m (calculate_svd_coefficients eigen (m, ms) threshold)
  unfolding calculate_svd_coefficients
  calculate_svd_coefficients-Fitted eigen m ms threshold =
      let points = to_cylindric_points ms in
      let empty : Outcome (Unit {0}) = fail_if (is_empty ms) "Measurements collection is empty!" in
      let no_basis : Outcome (Unit {0}) =
        fail_if (Basis.empty m.basis_collection) "Basis is incorrect!" in
      let solved =
        solve_svd eigen points m.basis_collection.basis m.basis_collection.modes threshold in
      let fit = fit_coefficients m points in
      let checked = λ (_ : Unit {0}). attempt (m, points) solved fit in
      attempt_cases (Fitted m) (m, ms) empty (λ _. attempt (m, ms) no_basis checked) (λ e. refl)
        (λ x. refl) refl
        λ _ _.
          attempt_cases (Fitted m) (m, ms) no_basis checked (λ e. refl) (λ x. refl) refl
            λ _ _.
              attempt_cases (Fitted m) (m, points) solved fit (λ e. refl) (λ x. refl) refl
                λ result _. refl
