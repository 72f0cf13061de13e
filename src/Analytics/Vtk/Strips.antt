-- ===== src/Analytics/Vtk/Strips.antt =====
-- The triangles that the export builds between the rows.
use tpc_api.Double.{Double, nought}
use tpc_api.Prelude.{
  ℕ, zero, suc, ◌+◌, ◌-◌, ◌*◌, ◌≤◌, ◌<◌, ◌≡◌, refl, sym, ◌≢◌, ◌⊎◌, inl, inr, Bool, true, false,
  ◌||◌, List, [], ◌∷◌, arith, ltb, ◌==◌, Bool-cases, length, All, All-append, Outcome, returned,
  length-snoc,
}
use tpc_api.Analytics.Models.{Array3}
use tpc_api.Analytics.Vtk.Points.{CartesianPoint, Row, approximately_equal}
use tpc_api.Analytics.Vtk.Triangulation.{
  signed_area, push_triangle, add_triangle, takes_lower, strip_from, strip, strips,
}
use tpc_api.Analytics.Vtk.Rows.{Tiles, Tiles-le, at_below}

-- Three different points below `n`.
abbrev pub IsTriangle : ℕ → Array3 ℕ → Type 0
IsTriangle n (a, b, c) = (a < n) × (b < n) × (c < n) × (a ≢ b) × (b ≢ c) × (a ≢ c)

swapped-IsTriangle : (n a b c : ℕ) → IsTriangle n (a, b, c) → IsTriangle n (a, c, b)
swapped-IsTriangle n a b c (ha, hb, hc, ab, bc, ac) = (ha, hc, hb, ac, λ e. bc (sym e), ab)

increasing-IsTriangle : (n a b c : ℕ) → a < b → b < c → c < n → IsTriangle n (a, b, c)
increasing-IsTriangle n a b c p q r = (
  omega arith,
  omega arith,
  r,
  λ e. absurd (omega arith),
  λ e. absurd (omega arith),
  λ e. absurd (omega arith),
)

module _ {ℓ} {W : Type ℓ} ⦃d : Double W⦄ (points : List (CartesianPoint W)) (n : ℕ)
    (within : n ≤ length points) where
  -- The computation returns triangles below `n`, at most `bound` of them.
  abbrev pub Builds : Outcome (List (Array3 ℕ)) → ℕ → Type 0
  Builds outcome bound =
      (triangles : List (Array3 ℕ)) × (outcome ≡ returned triangles)
      × All (IsTriangle n) triangles
      × (length triangles ≤ bound)

  push_triangle-IsTriangle :
      (area : W) (a b c : ℕ) (triangles : List (Array3 ℕ))
      → IsTriangle n (a, b, c)
      → All (IsTriangle n) triangles
      → All (IsTriangle n) (push_triangle area a b c triangles)
        × (length (push_triangle area a b c triangles) ≤ length triangles + 1)
  push_triangle-IsTriangle area a b c triangles h k =
      elim (Bool-cases (approximately_equal area nought)) [
        | inl flat ↦ rw flat (k, omega arith)
        | inr curved ↦ elim (Bool-cases (d.lt area nought)) [
          | inl turned ↦
              rw (curved, turned)
                (
                  All-append (IsTriangle n) triangles ((a, c, b) ∷ []) k
                      (swapped-IsTriangle n a b c h, tt),
                  omega (arith, length-snoc triangles (a, c, b)),
                )
          | inr straight ↦
              rw (curved, straight)
                (
                  All-append (IsTriangle n) triangles ((a, b, c) ∷ []) k (h, tt),
                  omega (arith, length-snoc triangles (a, b, c)),
                )
        ]
      ]

  add_triangle-Builds :
      (a b c : ℕ) (triangles : List (Array3 ℕ))
      → IsTriangle n (a, b, c)
      → All (IsTriangle n) triangles
      → Builds (add_triangle points a b c triangles) (length triangles + 1)
  unfolding add_triangle
  add_triangle-Builds a b c triangles h k =
      let (point_a, e) = at_below points a (omega arith) in
      let (point_b, f) = at_below points b (omega arith) in
      let (point_c, g) = at_below points c (omega arith) in
      let area = signed_area point_a point_b point_c in
      let (all, few) = push_triangle-IsTriangle area a b c triangles h k in
      (push_triangle area a b c triangles, rw (e, f, g), all, few)

  takes_lower_lem :
      (lower upper : Row) (lower_point upper_point : ℕ)
      → lower_point < lower.end
      → upper_point < upper.end
      → lower.end ≤ n
      → upper.end ≤ n
      → (lower_point + 1 < lower.end) ⊎ (upper_point + 1 < upper.end)
      → (b : Bool) × (takes_lower points lower upper lower_point upper_point ≡ returned b)
        × ((b ≡ true) → lower_point + 1 < lower.end)
        × ((b ≡ false) → upper_point + 1 < upper.end)
  unfolding takes_lower
  takes_lower_lem lower upper lower_point upper_point h k p q more =
      elim (Bool-cases (upper_point + 1 == upper.end)) [
        | inl upper_done ↦ (true, rw upper_done, λ e. ground arith, λ e. cc)
        | inr upper_on ↦ elim (Bool-cases (lower_point + 1 == lower.end)) [
          | inl lower_done ↦ (false, rw (upper_on, lower_done), λ e. cc, λ e. ground arith)
          | inr lower_on ↦
              let l : lower_point + 1 < lower.end = ground arith in
              let u : upper_point + 1 < upper.end = ground arith in
              let (next_lower, e) = at_below points (lower_point + 1) (omega arith) in
              let (next_upper, f) = at_below points (upper_point + 1) (omega arith) in
              (d.lt next_lower.x next_upper.x, rw (upper_on, lower_on, e, f), λ e'. l, λ e'. u)
        ]
      ]

  -- The loop over a strip ends within the points left in its two rows.
  strip_from-Builds :
      (fuel : ℕ) (lower upper : Row) (lower_point upper_point : ℕ) (triangles : List (Array3 ℕ))
      → lower_point < lower.end
      → lower.end ≤ upper_point
      → upper_point < upper.end
      → upper.end ≤ n
      → (lower.end - lower_point) + (upper.end - upper_point) ≤ suc fuel
      → All (IsTriangle n) triangles
      → Builds
          (strip_from points fuel lower upper lower_point upper_point triangles)
          (length triangles + ((lower.end - lower_point) - 1) + ((upper.end - upper_point) - 1))
  unfolding strip_from
  strip_from-Builds zero lower upper lower_point upper_point triangles h s k q f all =
      absurd (omega arith)
  strip_from-Builds (suc fuel) lower upper lower_point upper_point triangles h s k q f all =
      elim (Bool-cases (ltb (lower_point + 1) lower.end || ltb (upper_point + 1) upper.end)) [
        | inl more ↦
            let (b, e, l, u) =
              takes_lower_lem lower upper lower_point upper_point h k (omega arith) q
                (ground arith) in
            elim (Bool-cases b) [
              | inl on_lower ↦
                  let below = l on_lower in
                  let (triangles', g, all', few) =
                    add_triangle-Builds lower_point (lower_point + 1) upper_point triangles
                      (increasing-IsTriangle n _ _ _ (omega arith) (omega arith) (omega arith))
                      all in
                  let (triangles'', g', all'', few') =
                    strip_from-Builds fuel lower upper (lower_point + 1) upper_point triangles'
                      below (omega arith) k q (omega arith) all' in
                  (triangles'', rw (more, e, on_lower, g) g', all'', omega arith)
              | inr on_upper ↦
                  let below = u on_upper in
                  let (triangles', g, all', few) =
                    add_triangle-Builds lower_point upper_point (upper_point + 1) triangles
                      (increasing-IsTriangle n _ _ _ (omega arith) (omega arith) (omega arith))
                      all in
                  let (triangles'', g', all'', few') =
                    strip_from-Builds fuel lower upper lower_point (upper_point + 1) triangles' h
                      (omega arith) below q (omega arith) all' in
                  (triangles'', rw (more, e, on_upper, g) g', all'', omega arith)
            ]
        | inr done ↦ (triangles, rw done, all, omega arith)
      ]

  strips-Builds :
      (row : Row) (rows : List Row) (triangles : List (Array3 ℕ))
      → row.begin < row.end
      → Tiles row.end rows n
      → All (IsTriangle n) triangles
      → Builds
          (strips points (row ∷ rows) triangles)
          (length triangles + (row.end - row.begin) + 2 * (n - row.end))
  unfolding strips strip
  strips-Builds row [] triangles h t all = (triangles, refl, all, omega arith)
  strips-Builds row (upper ∷ rows) triangles h (b, w, t) all =
      let inside = Tiles-le upper.end n rows t in
      let (triangles', g, all', few) =
        strip_from-Builds ((row.end - row.begin) + (upper.end - upper.begin)) row upper row.begin
          upper.begin triangles h (omega arith) w inside (omega arith) all in
      let (triangles'', g', all'', few') = strips-Builds upper rows triangles' w t all' in
      (triangles'', rw g g', all'', omega arith)

  -- Between rows that tile a layer of `n` points, the loops over the strips end; the triangles that
  -- they build have three different points of the layer each, and there are fewer of them than the
  -- 2 * n that are reserved.
  pub strips-IsTriangle :
      (rows : List Row)
      → 1 ≤ n
      → Tiles 0 rows n
      → (triangles : List (Array3 ℕ)) × (strips points rows [] ≡ returned triangles)
        × All (IsTriangle n) triangles
        × (length triangles < 2 * n)
  strips-IsTriangle [] h t = absurd (omega arith)
  strips-IsTriangle (row ∷ rows) h (b, w, t) =
      let inside = Tiles-le row.end n rows t in
      let (triangles, e, all, few) = strips-Builds row rows [] w t tt in
      (triangles, e, all, omega arith)
