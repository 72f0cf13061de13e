-- ===== src/Analytics/Vtk/Rows.antt =====
-- The layers and the rows that the export finds.
use tpc_api.Double.{Double}
use tpc_api.Prelude.{
  ℕ, zero, suc, ◌+◌, ◌-◌, ◌*◌, ◌/◌, ◌%◌, ◌≤◌, ◌<◌, ◌≡◌, refl, sym, subst, inl, inr, Bool, not, ◌||◌,
  List, [], ◌∷◌, arith, ltb, ◌==◌, Bool-cases, length, ◌>>=◌, returned, failed,
}
use tpc_api.Prelude.Defined.{
  IsDefined, fail_if-IsDefined, get_elem?_below, loop-IsDefined, advance_bounds,
}
use tpc_api.Analytics.Vtk.Points.{
  CartesianPoint, Row, at, approximately_equal, first_layer_end, find_layers, check_point,
  check_layer, check_layers, row_end, rows_from, find_rows,
}

-- The rows stand one behind the other from `begin` to `limit`, and each has a point.
abbrev pub Tiles : ℕ → List Row → ℕ → Type 0
Tiles begin [] limit = begin ≡ limit
Tiles begin (row ∷ rows) limit =
    (row.begin ≡ begin) × (row.begin < row.end) × Tiles row.end rows limit

pub Tiles-le : (begin limit : ℕ) (rows : List Row) → Tiles begin rows limit → begin ≤ limit
Tiles-le begin limit [] h = omega arith
Tiles-le begin limit (row ∷ rows) (a, b, c) = omega (arith, Tiles-le row.end limit rows c)

module _ {ℓ} {W : Type ℓ} ⦃d : Double W⦄ (points : List (CartesianPoint W)) where
  pub at_below : (i : ℕ) → i < length points → (p : CartesianPoint W) × (at points i ≡ returned p)
  at_below i h = let (p, e) = get_elem?_below points i h in (p, rw e)

  pub at-IsDefined : (i : ℕ) → i < length points → IsDefined (at points i)
  at-IsDefined i h = let (p, e) = at_below i h in rw e tt

  module _ (n : ℕ) (within : n ≤ length points) where
    pub row_end_bounds :
        (begin : ℕ)
        → begin < n
        → (end : ℕ) × (row_end points n begin ≡ returned end) × (begin < end) × (end ≤ n)
    unfolding row_end
    row_end_bounds begin below =
        let answers : (j : ℕ)
            → begin + 1 ≤ j
            → j < n
            → (b : Bool) × ((at points j >>= λ point.
                  at points begin >>= λ front. returned (approximately_equal point.y front.y))
                ≡ returned b) =
          λ j p q.
            let (point, e) = at_below j (omega arith) in
            let (front, f) = at_below begin (omega arith) in
            (approximately_equal point.y front.y, rw (e, f)) in
        let (end, e, p, q) = advance_bounds n n _ (begin + 1) answers (omega arith) (omega arith) in
        (end, e, omega arith, q)

    -- The loop over the rows ends, and the rows tile the layer.
    pub rows_from-Tiles :
        (fuel begin : ℕ)
        → begin ≤ n
        → n - begin < fuel
        → (rows : List Row) × (rows_from points fuel n begin ≡ returned rows) × Tiles begin rows n
    unfolding rows_from
    rows_from-Tiles zero begin h f = absurd (omega arith)
    rows_from-Tiles (suc fuel) begin h f = elim (Bool-cases (ltb begin n)) [
      | inl below ↦
          let (end, e, p, q) = row_end_bounds begin (ground arith) in
          let (rows, r, t) = rows_from-Tiles fuel end q (omega arith) in
          (record { begin = begin; end = end } ∷ rows, rw (below, e, r), (refl, p, t))
      | inr above ↦ ([], rw above, ground arith)
    ]

    -- In a layer within the points, the search for rows has no undefined behaviour, and the rows
    -- that it returns stand one behind the other, without a gap, from the first to the last point of
    -- the layer; each has a point, and there are two at least.
    pub find_rows-Tiles :
        IsDefined (find_rows points n)
        × ((rows : List Row)
            → find_rows points n ≡ returned rows
            → Tiles 0 rows n × (2 ≤ length rows))
    unfolding find_rows
    find_rows-Tiles =
        let (rows, r, t) = rows_from-Tiles (n + 1) 0 (omega arith) (omega arith) in
        elim (Bool-cases (ltb (length rows) 2)) [
          | inl few ↦
              let refused : find_rows points n
                  ≡ failed "At least two XY rows are required for volumetric export" =
                rw (r, few, find_rows) in
              (subst IsDefined (sym refused) tt, λ rows' e. absurd (cc (e, refused)))
          | inr enough ↦
              let found : find_rows points n ≡ returned rows = rw (r, enough, find_rows) in
              (
                subst IsDefined (sym found) tt,
                λ rows' e.
                    let same : rows ≡ rows' = cc (e, found) in
                    subst (λ rs. Tiles 0 rs n × (2 ≤ length rs)) same (t, ground arith),
              )
        ]

  -- With a point at least, the search for layers has no undefined behaviour; the layers that it
  -- returns have the same number of points, which is positive, and cover all points, and there are
  -- two at least.
  pub find_layers_lem :
      1 ≤ length points
      → IsDefined (find_layers points)
        × ((points_per_layer layer_count : ℕ)
            → find_layers points ≡ returned (points_per_layer, layer_count)
            → (1 ≤ points_per_layer)
              × (2 ≤ layer_count)
              × (layer_count * points_per_layer ≡ length points))
  unfolding find_layers first_layer_end
  find_layers_lem h =
      let n : ℕ = length points in
      let answers : (j : ℕ)
          → 1 ≤ j
          → j < n
          → (b : Bool) × ((at points j >>= λ point.
                at points 0 >>= λ front. returned (approximately_equal point.z front.z))
              ≡ returned b) =
        λ j p q.
          let (point, e) = at_below j q in
          let (front, f) = at_below 0 h in (approximately_equal point.z front.z, rw (e, f)) in
      let (k, e, p, q) = advance_bounds n n _ 1 answers h (omega arith) in
      elim (Bool-cases (k == n || not (n % k == 0))) [
        | inl ragged ↦
            let refused : find_layers points ≡ failed "Coordinates do not form complete Z layers" =
              rw (e, ragged, find_layers, first_layer_end) in
            (subst IsDefined (sym refused) tt, λ a b f. absurd (cc (f, refused)))
        | inr even ↦ elim (Bool-cases (ltb (n / k) 2)) [
          | inl few ↦
              let refused : find_layers points
                  ≡ failed "At least two Z layers are required for volumetric export" =
                rw (e, even, few, find_layers, first_layer_end) in
              (subst IsDefined (sym refused) tt, λ a b f. absurd (cc (f, refused)))
          | inr enough ↦
              let found : find_layers points ≡ returned (k, n / k) =
                rw (e, even, enough, find_layers, first_layer_end) in
              (
                subst IsDefined (sym found) tt,
                λ a b f.
                    let same : k ≡ a = cc (f, found) in
                    let same_count : n / k ≡ b = cc (f, found) in
                    rw (← same, ← same_count)
                      (p, ground arith, let whole : n % k ≡ 0 = ground arith in grind arith),
              )
        ]
      ]

  module _ (points_per_layer layer_count : ℕ)
      (covered : layer_count * points_per_layer ≡ length points) where
    -- The comparison of the layers has no undefined behaviour.
    pub check_layers-IsDefined :
        1 ≤ points_per_layer → IsDefined (check_layers points points_per_layer layer_count)
    unfolding check_layers check_layer check_point
    check_layers-IsDefined h =
        loop-IsDefined layer_count 0 (check_layer points points_per_layer) tt λ layer t a b.
          let offset : layer * points_per_layer + points_per_layer ≤ length points = grind arith in
          let (first, e) = at_below (layer * points_per_layer) (omega arith) in
          rw e (
            loop-IsDefined points_per_layer 0
              (check_point points (layer * points_per_layer) first.z) tt
              λ point u p q.
                let (reference, f) = at_below point (omega arith) in
                let (current, g) = at_below (layer * points_per_layer + point) (omega arith) in
                rw (f, g) (fail_if-IsDefined _ _))
