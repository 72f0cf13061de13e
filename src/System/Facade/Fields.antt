-- ===== src/System/Facade/Fields.antt =====
-- The field that the users of a facade read, after any history of its field worker.
use tpc_api.Prelude.{
  ℕ, String, ◌≡◌, refl, sym, ◌∙◌, subst, Option, none, some, List, [], std_exception, other,
  Outcome, returned, thrown, failed, undefined,
}
use tpc_api.Double.{Double}
use tpc_api.Analytics.Models.{Measurement}
use tpc_api.Analytics.Basis.{BasisCollection}
use tpc_api.Analytics.SvdSolver.{Eigen}
use tpc_api.Analytics.Manager.{Manager, get_field_data, calculate_svd_coefficients, calculate_field}
use tpc_api.Analytics.Manager.Coefficients.{Fitted, calculate_svd_coefficients-Fitted}
use tpc_api.Analytics.Manager.Reading.{
  IsManager, IsReading, get_field_data-IsReading, Settled, calculate_field-Settled,
  calculate_field-IsManager,
}
use tpc_api.System.FieldWorker.{CalculationData, error_of, after_fit, calculate}
use tpc_api.System.FieldWorker.History.{Action, run}
use tpc_api.System.FieldWorker.Managers.{run-keeps}
use tpc_api.System.Facade.Factory.{Facade, create}
use tpc_api.System.Facade.Creation.{default_basis, new_facade, create-new_facade}

error_of-manager {ℓ} :
    {M : Type ℓ} (m m' : M) (outcome : Outcome (Unit {0})) (error : Option String)
    → error_of m outcome ≡ some (m', error)
    → m ≡ m'
error_of-manager m m' (returned u) error e = cc
error_of-manager m m' (failed x) error e = cc
error_of-manager m m' (thrown (std_exception what)) error e = cc
error_of-manager m m' (thrown other) error e = cc
error_of-manager m m' undefined error e = cc

module _ {ℓ} {W : Type ℓ} ⦃d : Double W⦄ where
  -- A manager with that basis, and with a complete field if its field is marked valid.
  abbrev pub IsManagerOf : BasisCollection W → Manager W → Type ℓ
  IsManagerOf basis m = (m.basis_collection ≡ basis) × IsManager m

  Fitted-IsManagerOf :
      (basis : BasisCollection W) (m after : Manager W) (points : List (Measurement W))
      (outcome : Outcome (Unit {0}))
      → Fitted m ((after, points), outcome)
      → IsManagerOf basis m
      → IsManagerOf basis after
  Fitted-IsManagerOf basis m after points (returned u) same v =
      subst (IsManagerOf basis) (sym same) v
  Fitted-IsManagerOf basis m after points (failed x) same v = subst (IsManagerOf basis) (sym same) v
  Fitted-IsManagerOf basis m after points (thrown x) same v = subst (IsManagerOf basis) (sym same) v
  Fitted-IsManagerOf basis m after points undefined same v = subst (IsManagerOf basis) (sym same) v

  Settled-basis :
      (m after : Manager W) (outcome : Outcome (Unit {0}))
      → Settled m (after, outcome)
      → after.basis_collection ≡ m.basis_collection
  Settled-basis m after (returned u) (_, same, _) = same
  Settled-basis m after (failed x) (_, same, _) = same
  Settled-basis m after (thrown x) (_, same, _) = same
  Settled-basis m after undefined (_, same, _) = same

  calculate_field-IsManagerOf :
      (fuel : ℕ) (m : Manager W) (grid : ℕ × ℕ × ℕ) (radius z_length : W)
      (basis : BasisCollection W)
      → IsManagerOf basis m
      → IsManagerOf basis (calculate_field fuel m grid radius z_length).0
  calculate_field-IsManagerOf fuel m grid radius z_length basis (same, v) =
      let (after, outcome) = calculate_field fuel m grid radius z_length in
      let settled = calculate_field-Settled fuel m grid radius z_length in
      (
        Settled-basis m after outcome settled ∙ same,
        calculate_field-IsManager fuel m grid radius z_length v,
      )

  after_fit-IsManagerOf :
      (fitted : Manager W) (outcome : Outcome (Unit {0})) (x : CalculationData W) (fuel : ℕ)
      (m' : Manager W) (error : Option String) (basis : BasisCollection W)
      → after_fit fitted outcome (λ m. calculate_field fuel m x.grid x.radius x.length)
        ≡ some (m', error)
      → IsManagerOf basis fitted
      → IsManagerOf basis m'
  after_fit-IsManagerOf fitted (returned u) x fuel m' error basis e v =
      subst (IsManagerOf basis) (error_of-manager _ m' _ error e)
        (calculate_field-IsManagerOf fuel fitted x.grid x.radius x.length basis v)
  after_fit-IsManagerOf fitted (failed message) x fuel m' error basis e v =
      subst (IsManagerOf basis) (error_of-manager fitted m' (failed message) error e) v
  after_fit-IsManagerOf fitted (thrown ex) x fuel m' error basis e v =
      subst (IsManagerOf basis) (error_of-manager fitted m' (thrown ex) error e) v
  after_fit-IsManagerOf fitted undefined x fuel m' error basis e v =
      subst (IsManagerOf basis) (error_of-manager fitted m' undefined error e) v

  calculate-IsManagerOf :
      (eigen : Eigen W) (fuel : ℕ) (threshold : W) (basis : BasisCollection W) (m : Manager W)
      (x : CalculationData W) (m' : Manager W) (error : Option String)
      → calculate eigen fuel threshold m x ≡ some (m', error)
      → IsManagerOf basis m
      → IsManagerOf basis m'
  unfolding calculate
  calculate-IsManagerOf eigen fuel threshold basis m x m' error e v =
      let ((fitted, points), outcome) =
        calculate_svd_coefficients eigen (m, x.measurements) threshold in
      after_fit-IsManagerOf fitted outcome x fuel m' error basis e (
        Fitted-IsManagerOf basis m fitted points outcome
          (calculate_svd_coefficients-Fitted eigen m x.measurements threshold) v)

  -- For a facade that `TPC::create` made, after any history of requests, steps of the worker and stop
  -- requests, whatever Eigen answers and however a calculation ends: the manager has the default basis
  -- of three functions and ten modes, and a user reads either a field with three values at each point
  -- and as many values as coordinates, or the message that there is none.
  pub run-IsReading {κ ρ} :
      {U : Type κ} {N : Type ρ} (eigen : Eigen W) (fuel : ℕ) (threshold : W) (endpoint : String)
      (made : Facade U N W) (actions : List (Action W))
      → create none none endpoint ≡ returned made
      → let s = (run (calculate eigen fuel threshold) actions ([], made.field_worker)).1 in
        (s.manager.basis_collection ≡ default_basis U N W) × IsReading (get_field_data s.manager)
  run-IsReading {U = U} {N = N} eigen fuel threshold endpoint made actions created =
      let same : new_facade U N W endpoint ≡ made =
        cc (created, create-new_facade U N W endpoint) in
      let new_one : IsManagerOf (default_basis U N W) made.field_worker.manager =
        subst (λ f. IsManagerOf (default_basis U N W) f.field_worker.manager) same
          (refl, λ valid. cc) in
      let (basis, v) =
        run-keeps (calculate eigen fuel threshold) (IsManagerOf (default_basis U N W))
          (calculate-IsManagerOf eigen fuel threshold (default_basis U N W)) actions
          ([], made.field_worker) new_one in
      (basis, get_field_data-IsReading _ v)
