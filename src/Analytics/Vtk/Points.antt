-- ===== src/Analytics/Vtk/Points.antt =====
-- The points of the export, the test of equality up to rounding, the layers and the rows.
use tpc_api.Double.{Double, ◌⊖◌, ◌⊗◌, max}
use tpc_api.Prelude.{
  ℕ, zero, suc, ◌+◌, ◌*◌, ◌/◌, ◌%◌, Bool, not, ◌||◌, List, [], ◌∷◌, ltb, ◌==◌, if◌then◌else◌,
  length, get_elem?, ◌>>=◌, ◌>>◌, Outcome, returned, undefined, fail_if, in_range, loop,
}
use tpc_api.Prelude.Defined.{advance}

pub record CartesianPoint {ℓ} (W : Type ℓ) : Type ℓ where
  pub x : W
  pub y : W
  pub z : W

pub record Row : Type 0 where
  pub begin : ℕ
  pub end : ℕ

-- `points[index]`
abbrev pub at {ℓ} : {W : Type ℓ} → List (CartesianPoint W) → ℕ → Outcome (CartesianPoint W)
at points index = in_range (get_elem? points index)

module _ {ℓ} {W : Type ℓ} ⦃d : Double W⦄ where
  unfoldable pub to_points : List W → List (CartesianPoint W)
  to_points (r ∷ phi ∷ z ∷ coordinates) =
      record { x = r ⊗ d.cos phi; y = r ⊗ d.sin phi; z = z } ∷ to_points coordinates
  to_points _ = []

  -- `std::max({1.0, std::abs(lhs), std::abs(rhs)})`
  abbrev pub scale : W → W → W
  scale lhs rhs = max (max (d.decimal 10 1) (d.abs lhs)) (d.abs rhs)

  unfoldable pub approximately_equal : W → W → Bool
  approximately_equal lhs rhs =
      d.le (d.abs (lhs ⊖ rhs)) (d.decimal 640 1 ⊗ d.epsilon ⊗ scale lhs rhs)

  module _ (points : List (CartesianPoint W)) where
    -- The first index whose point is not in the first layer, or the number of points.
    unfoldable pub first_layer_end : Outcome ℕ
    first_layer_end =
        advance (length points) (length points)
          (λ index. at points index >>= λ point.
            at points 0 >>= λ front. returned (approximately_equal point.z front.z))
          1

    -- `points_per_layer` and `layer_count`
    unfoldable pub find_layers : Outcome (ℕ × ℕ)
    find_layers = do
      points_per_layer ← first_layer_end
      fail_if (points_per_layer == length points || not (length points % points_per_layer == 0))
          "Coordinates do not form complete Z layers"
      let layer_count = length points / points_per_layer
      fail_if (ltb layer_count 2) "At least two Z layers are required for volumetric export"
      returned (points_per_layer, layer_count)

    unfoldable pub check_point : ℕ → W → ℕ → Unit {0} → Outcome (Unit {0})
    check_point layer_offset layer_z point u = do
      reference ← at points point
      current ← at points (layer_offset + point)
      fail_if
          (not (approximately_equal current.z layer_z)
            || not (approximately_equal current.x reference.x)
            || not (approximately_equal current.y reference.y))
          "XY topology differs between Z layers"

    unfoldable pub check_layer : ℕ → ℕ → Unit {0} → Outcome (Unit {0})
    check_layer points_per_layer layer u = do
      first ← at points (layer * points_per_layer)
      loop points_per_layer 0 (check_point (layer * points_per_layer) first.z) tt

    unfoldable pub check_layers : ℕ → ℕ → Outcome (Unit {0})
    check_layers points_per_layer layer_count = loop layer_count 0 (check_layer points_per_layer) tt

    -- The end of the row that begins at `begin`.
    unfoldable pub row_end : ℕ → ℕ → Outcome ℕ
    row_end points_per_layer begin =
        advance points_per_layer points_per_layer
          (λ index. at points index >>= λ point.
            at points begin >>= λ front. returned (approximately_equal point.y front.y))
          (begin + 1)

    unfoldable pub rows_from : ℕ → ℕ → ℕ → Outcome (List Row)
    rows_from zero points_per_layer begin = undefined
    rows_from (suc fuel) points_per_layer begin =
        if ltb begin points_per_layer
        then (row_end points_per_layer begin >>= λ end.
            rows_from fuel points_per_layer end >>= λ rows.
            returned (record { begin = begin; end = end } ∷ rows))
        else returned []

    -- A row has a point at least, so there are no more rounds than points, and one for the exit.
    unfoldable pub find_rows : ℕ → Outcome (List Row)
    find_rows points_per_layer = do
      rows ← rows_from (points_per_layer + 1) points_per_layer 0
      fail_if (ltb (length rows) 2) "At least two XY rows are required for volumetric export"
      returned rows
