-- ===== src/Analytics/Manager/Tests.antt =====
-- The manager, the solver and the grid at concrete inputs, over numbers with three decimals.

use tpc_api.Prelude.{
  ℕ, ◌*◌, ◌/◌, ◌≤◌, ◌≡◌, refl, sym, ◌∙◌, subst, true, false, none, some, List, [], ◌∷◌, map, arith,
  size_max, dimension, length, replicate, All, returned,
}
use tpc_api.Prelude.Int.{ℤ, pos, negsuc}
use mathlib.Core.Option.{some-injective}
use tpc_api.Double.Fixed.{fixed}
use tpc_api.Analytics.Models.{cartesian, cylindric, Measurement}
use tpc_api.Analytics.Basis.{BasisCollection}
use tpc_api.Analytics.Basis.Bounded.{IsFilled, add_all, add_all-basis}
use tpc_api.Analytics.SvdSolver.{measurement_concept, Eigen, solve_svd}
use tpc_api.Analytics.SvdSolver.Rows.{set_function}
use tpc_api.Analytics.SvdSolver.Design.{solve_svd_lem}
use tpc_api.Analytics.Grid.{
  shape, GridShape, float_range, inside_row, rows_from, layer, to_cylindric,
}
use tpc_api.Analytics.Grid.Layers.{GridEnds, IsInside, stack}
use tpc_api.Analytics.Manager.{
  Manager, to_cylindric_points, calculate_svd_coefficients, calculate_field, evaluate_for_point,
}
use tpc_api.Analytics.Manager.Field.{
  ready, computed, calculate_field_lem, evaluate_for_point-field_at,
}
use tpc_api.Analytics.Manager.Coefficients.{
  Fitted, calculate_svd_coefficients_lem, calculate_svd_coefficients-Fitted,
}
use tpc_api.Analytics.Manager.Reading.{Settled, calculate_field-Settled}

abbrev f : ℕ → ℤ → ℤ → ℤ → ℤ
f k r phi z = fixed.add r (fixed.of_size k)

abbrev g : ℕ → ℤ → ℤ → ℤ → ℤ
g k r phi z = phi

abbrev h : ℕ → ℤ → ℤ → ℤ → ℤ
h k r phi z = z

-- Stands for Eigen: as many coefficients as columns, all of them 1.
abbrev ones : Eigen ℤ
ones = record {
  unset = pos 7;
  solve = λ rows columns matrix threshold values. replicate columns (pos 1000);
}

abbrev coefficients : List ℤ
coefficients = pos 1000 ∷ pos 2000 ∷ []

abbrev sample : Measurement ℤ
sample = record {
  point_components = record {
    components = (pos 0, pos 3000, pos 1000);
    coordinate_type = cartesian;
  };
  field_components = record {
    components = (pos 5000, pos 0, pos 1000);
    coordinate_type = cylindric;
  };
}

solve_svd_lem_example :
    solve_svd ones (sample ∷ []) (set_function f ∷ set_function g ∷ set_function h ∷ []) 2 (pos 0)
    ≡ returned (pos 1000 ∷ pos 1000 ∷ [])
solve_svd_lem_example =
    solve_svd_lem {W = ℤ} ones f g h sample [] 2 (pos 0) (omega arith) (omega arith) (omega arith)
      refl

calculate_svd_coefficients_lem_example :
    calculate_svd_coefficients ones (ready f g h cylindric 2 [] none false, sample ∷ []) (pos 0) ≡ (
      (
        ready f g h cylindric 2 (pos 1000 ∷ pos 1000 ∷ []) none false,
        to_cylindric_points (sample ∷ []),
      ),
      returned tt,
    )
unfolding to_cylindric_points
calculate_svd_coefficients_lem_example =
    calculate_svd_coefficients_lem {W = ℤ} ones f g h cylindric 2 [] none false sample [] (pos 0)
      (omega arith) (omega arith) (omega arith) refl

calculate_svd_coefficients-Fitted_example :
    Fitted
      (ready f g h cylindric 2 [] none false)
      (calculate_svd_coefficients ones (ready f g h cylindric 2 [] none false, sample ∷ []) (pos 0))
calculate_svd_coefficients-Fitted_example =
    calculate_svd_coefficients-Fitted ones (ready f g h cylindric 2 [] none false) (sample ∷ [])
      (pos 0)

evaluate_for_point-field_at_example :
    evaluate_for_point (ready f g h cylindric 2 coefficients none false) (pos 1000, pos 0, pos 500)
    ≡ returned (record { components = (pos 5000, pos 0, pos 1500); coordinate_type = cylindric })
evaluate_for_point-field_at_example =
    evaluate_for_point-field_at {W = ℤ} f g h cylindric 2 coefficients refl none false
      (pos 1000, pos 0, pos 500)

-- A grid of three by three by two over a cylinder of radius 2 and length 1.
abbrev small : GridShape ℤ
small = shape 3 3 2 (pos 2000) (pos 1000)

small-GridEnds : GridEnds 10 small
small-GridEnds = ((6, omega arith, refl), (5, omega arith, refl), (5, omega arith, refl))

abbrev small_points : List (ℤ × ℤ)
small_points =
    (pos 0, negsuc 1999)
    ∷ (negsuc 1499, negsuc 1133)
    ∷ (negsuc 499, negsuc 1133)
    ∷ (pos 500, negsuc 1133)
    ∷ (pos 1500, negsuc 1133)
    ∷ (negsuc 999, negsuc 267)
    ∷ (pos 0, negsuc 267)
    ∷ (pos 1000, negsuc 267)
    ∷ (negsuc 1499, pos 598)
    ∷ (negsuc 499, pos 598)
    ∷ (pos 500, pos 598)
    ∷ (pos 1500, pos 598)
    ∷ (negsuc 999, pos 1464)
    ∷ (pos 0, pos 1464)
    ∷ (pos 1000, pos 1464)
    ∷ []

found_layer : layer 10 small ≡ some small_points
unfolding layer rows_from float_range inside_row
found_layer = refl

few_points : (xy : List (ℤ × ℤ)) → layer 10 small ≡ some xy → 2 * length xy ≤ size_max / dimension
few_points xy e =
    let same : small_points ≡ xy = some-injective _ _ (sym found_layer ∙ e) in
    subst (λ l. 2 * length l ≤ size_max / dimension) same (omega arith)

calculate_field_lem_example :
    (xy : List (ℤ × ℤ)) × (layer 10 small ≡ some xy)
    × All (IsInside (pos 4000)) xy
    × (calculate_field 10
          (ready f g h cylindric 2 coefficients none false)
          (3, 3, 2)
          (pos 2000)
          (pos 1000)
        ≡ (
          ready f g h cylindric 2 coefficients
              (some (
                computed f g h cylindric 2 coefficients refl none false
                  (map to_cylindric (stack 10 small xy 2 0))))
              true,
          returned tt,
        ))
calculate_field_lem_example =
    calculate_field_lem {W = ℤ} f g h cylindric 2 coefficients refl none false 10 3 3 2 (pos 2000)
      (pos 1000) (omega arith) (omega arith) (omega arith) refl refl small-GridEnds few_points

abbrev fitted : Manager ℤ
fitted = ready f g h cylindric 2 coefficients none false

calculate_field-Settled_example :
    Settled fitted (calculate_field 10 fitted (3, 3, 2) (pos 2000) (pos 0))
calculate_field-Settled_example = calculate_field-Settled 10 fitted (3, 3, 2) (pos 2000) (pos 0)

abbrev no_functions : BasisCollection ℤ
no_functions = record { arity = 3; modes = 2; basis_type = cylindric; basis = [] }

-- A fourth function is refused.
add_all-basis_example :
    let fs = set_function f ∷ set_function g ∷ set_function h ∷ set_function f ∷ [] in
    IsFilled no_functions fs (add_all no_functions fs)
add_all-basis_example =
    add_all-basis no_functions
      (set_function f ∷ set_function g ∷ set_function h ∷ set_function f ∷ [])
      (record { some_arity = omega arith; some_modes = omega arith; bounded = omega arith })
