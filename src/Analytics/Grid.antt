-- ===== src/Analytics/Grid.antt =====
-- include/tpc/analytics/analytics_manager/analytics_manager.hpp: the grid of `calculate_grid_kernel`,
-- staggered rows in the circle, layer by layer. A loop over a `double` runs on fuel; `none` is fuel
-- that ran out.
pub mod Layers
use tpc_api.Double.{Double, ◌⊕◌, ◌⊗◌, ◌⊘◌, nought}
use tpc_api.Prelude.{
  ℕ, zero, suc, ◌+◌, ◌-◌, ◌%◌, Bool, true, false, Option, none, some, List, [], ◌∷◌, ◌++◌, map,
  ◌==◌, if◌then◌else◌,
}
use tpc_api.Analytics.Models.{Array3}

-- What the lambda `for_each_grid_point` captures.
pub record GridShape {ℓ} (W : Type ℓ) : Type ℓ where
  pub radius : W
  pub depth : W
  pub step_x : W
  pub step_y : W
  pub dz : W

module _ {ℓ} {W : Type ℓ} ⦃d : Double W⦄ where
  abbrev pub half : W
  half = d.decimal 5 1

  -- The values of `for (double v = first; v <= limit; v += step)`.
  unfoldable pub float_range : ℕ → W → W → W → Option (List W)
  float_range zero first limit step = none
  float_range (suc fuel) first limit step = elim (d.le first limit) [
    | false ↦ some []
    | true ↦ elim (float_range fuel (first ⊕ step) limit step) [
      | none ↦ none
      | some rest ↦ some (first ∷ rest)
    ]
  ]

  -- `if (x * x + y * y <= radius_squared) visitor(x, y, z);`
  abbrev pub is_inside : W → W → W → Bool
  is_inside radius_squared x y = d.le ((x ⊗ x) ⊕ (y ⊗ y)) radius_squared

  unfoldable pub inside_row : W → W → List W → List (W × W)
  inside_row radius_squared y [] = []
  inside_row radius_squared y (x ∷ xs) =
      if is_inside radius_squared x y
      then (x, y) ∷ inside_row radius_squared y xs
      else inside_row radius_squared y xs

  abbrev pub shape : ℕ → ℕ → ℕ → W → W → GridShape W
  shape x_count y_count z_count radius depth = record {
    radius = radius;
    depth = depth;
    step_x = radius ⊘ d.of_size (x_count - 1);
    step_y = radius ⊘ d.of_size (y_count - 1) ⊗ d.sqrt (d.decimal 30 1) ⊗ half;
    dz = depth ⊘ d.of_size (z_count - 1);
  }

module _ {ℓ} {W : Type ℓ} ⦃d : Double W⦄ (fuel : ℕ) (s : GridShape W) where
  -- Every second row is shifted by half a step.
  abbrev pub x_first : ℕ → W
  x_first row = d.neg s.radius ⊕ (if row % 2 == 0 then nought else s.step_x ⊗ half)

  abbrev pub x_values : ℕ → Option (List W)
  x_values row = float_range fuel (x_first row) (s.radius ⊕ (s.step_x ⊗ half)) s.step_x

  unfoldable pub rows_from : ℕ → List W → Option (List (W × W))
  rows_from row [] = some []
  rows_from row (y ∷ ys) = elim (x_values row) [
    | none ↦ none
    | some xs ↦ elim (rows_from (row + 1) ys) [
      | none ↦ none
      | some rest ↦ some (inside_row (s.radius ⊗ s.radius) y xs ++ rest)
    ]
  ]

  abbrev pub y_values : Option (List W)
  y_values = float_range fuel (d.neg s.radius) (s.radius ⊕ (s.step_y ⊗ half)) s.step_y

  -- One pass of the two inner loops: the points (x, y) that the visitor gets, in order.
  unfoldable pub layer : Option (List (W × W))
  layer = elim y_values [ none ↦ none | some ys ↦ rows_from 0 ys ]

  abbrev pub z_at : ℕ → W
  z_at iz = (d.neg s.depth ⊗ half) ⊕ (d.of_size iz ⊗ s.dz)

  abbrev pub at_height : W → W × W → Array3 W
  at_height z (x, y) = (x, y, z)

  -- The loop over `iz`, `rounds` rounds from `iz` on.
  unfoldable pub layers_from : ℕ → ℕ → Option (List (Array3 W))
  layers_from zero iz = some []
  layers_from (suc rounds) iz = elim layer [
    | none ↦ none
    | some xy ↦ elim (layers_from rounds (iz + 1)) [
      | none ↦ none
      | some rest ↦ some (map (at_height (z_at iz)) xy ++ rest)
    ]
  ]

  -- `for_each_grid_point`, called twice: first to count, then to append.
  unfoldable pub grid_points : ℕ → Option (List (Array3 W))
  grid_points z_count = layers_from z_count 0

module _ {ℓ} {W : Type ℓ} ⦃d : Double W⦄ where
  -- The visitor that appends `r, phi, z`.
  abbrev pub to_cylindric : Array3 W → Array3 W
  to_cylindric (x, y, z) =
      let r = d.hypot x y in (r, (if d.lt r d.epsilon then nought else d.atan2 y x), z)
