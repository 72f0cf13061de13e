-- ===== src/Analytics/Vtk/Triangulation.antt =====
-- The triangulation of a layer, strip by strip.
use tpc_api.Double.{Double, ◌⊖◌, ◌⊗◌, nought}
use tpc_api.Prelude.{
  ℕ, zero, suc, ◌+◌, ◌-◌, Bool, true, false, ◌||◌, List, [], ◌∷◌, ◌++◌, ltb, ◌==◌, if◌then◌else◌,
  ◌>>=◌, ◌>>◌, Outcome, returned, undefined, fail_if, is_empty,
}
use tpc_api.Analytics.Models.{Array3}
use tpc_api.Analytics.Vtk.Points.{CartesianPoint, Row, at, approximately_equal}

module _ {ℓ} {W : Type ℓ} ⦃d : Double W⦄ where
  abbrev pub signed_area : CartesianPoint W → CartesianPoint W → CartesianPoint W → W
  signed_area a b c = ((b.x ⊖ a.x) ⊗ (c.y ⊖ a.y)) ⊖ ((b.y ⊖ a.y) ⊗ (c.x ⊖ a.x))

  -- A triangle without area is left out, and one of negative area is turned.
  abbrev pub push_triangle : W → ℕ → ℕ → ℕ → List (Array3 ℕ) → List (Array3 ℕ)
  push_triangle area a b c triangles =
      if approximately_equal area nought
      then triangles
      else if d.lt area nought
      then triangles ++ ((a, c, b) ∷ [])
      else triangles ++ ((a, b, c) ∷ [])

  module _ (points : List (CartesianPoint W)) where
    unfoldable pub add_triangle : ℕ → ℕ → ℕ → List (Array3 ℕ) → Outcome (List (Array3 ℕ))
    add_triangle a b c triangles = do
      point_a ← at points a
      point_b ← at points b
      point_c ← at points c
      returned (push_triangle (signed_area point_a point_b point_c) a b c triangles)

    -- Whether the next triangle has its side on the lower row: at the end of one row the other one
    -- goes on, and else the row whose next point is farther to the left.
    unfoldable pub takes_lower : Row → Row → ℕ → ℕ → Outcome Bool
    takes_lower lower upper lower_point upper_point =
        if upper_point + 1 == upper.end
        then returned true
        else if lower_point + 1 == lower.end
        then returned false
        else (at points (lower_point + 1) >>= λ next_lower.
            at points (upper_point + 1) >>= λ next_upper. returned (d.lt next_lower.x next_upper.x))

    unfoldable pub strip_from : ℕ → Row → Row → ℕ → ℕ → List (Array3 ℕ) → Outcome (List (Array3 ℕ))
    strip_from zero lower upper lower_point upper_point triangles = undefined
    strip_from (suc fuel) lower upper lower_point upper_point triangles =
        if ltb (lower_point + 1) lower.end || ltb (upper_point + 1) upper.end
        then (takes_lower lower upper lower_point upper_point >>= λ on_lower. elim on_lower [
          | true ↦
              add_triangle lower_point (lower_point + 1) upper_point triangles >>= λ triangles'.
              strip_from fuel lower upper (lower_point + 1) upper_point triangles'
          | false ↦
              add_triangle lower_point upper_point (upper_point + 1) triangles >>= λ triangles'.
              strip_from fuel lower upper lower_point (upper_point + 1) triangles'
        ])
        else returned triangles

    -- Each round of the loop over a strip leaves one point of its two rows behind.
    unfoldable pub strip : Row → Row → List (Array3 ℕ) → Outcome (List (Array3 ℕ))
    strip lower upper triangles =
        strip_from ((lower.end - lower.begin) + (upper.end - upper.begin)) lower upper lower.begin
          upper.begin triangles

    unfoldable pub strips : List Row → List (Array3 ℕ) → Outcome (List (Array3 ℕ))
    strips [] triangles = returned triangles
    strips (row ∷ []) triangles = returned triangles
    strips (lower ∷ upper ∷ rows) triangles = strip lower upper triangles >>= strips (upper ∷ rows)

    unfoldable pub triangulate : List Row → Outcome (List (Array3 ℕ))
    triangulate rows = do
      triangles ← strips rows []
      fail_if (is_empty triangles) "Failed to build XY triangulation"
      returned triangles
