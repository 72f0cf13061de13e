-- ===== src/Analytics/Grid/Layers.antt =====
-- The grid is made of equal layers, and ends when its rows do.
use tpc_api.Double.{Double, ◌⊕◌, ◌⊗◌}
use tpc_api.Prelude.{
  ℕ, zero, suc, ◌+◌, ◌*◌, ◌%◌, ◌<◌, ◌≡◌, refl, inl, inr, true, false, some, List, [], ◌∷◌, ◌++◌,
  map, arith, ◌==◌, Bool-cases, length, All, length-append, length-map, All-append,
}
use tpc_api.Analytics.Models.{Array3}
use tpc_api.Analytics.Grid.{
  float_range, is_inside, inside_row, GridShape, x_first, x_values, rows_from, layer, z_at,
  at_height, layers_from, grid_points, half,
}

module _ {ℓ} {W : Type ℓ} ⦃d : Double W⦄ where
  -- `first` after `n` additions of `step`.
  abbrev pub advanced : ℕ → W → W → W
  advanced zero first step = first
  advanced (suc n) first step = advanced n (first ⊕ step) step

  -- After fewer additions than the fuel the loop variable is beyond the limit.
  abbrev pub Ends : ℕ → W → W → W → Type 0
  Ends fuel first limit step = (n : ℕ) × (n < fuel) × (d.le (advanced n first step) limit ≡ false)

  float_range-Ends :
      (fuel n : ℕ) (first limit step : W)
      → n < fuel
      → d.le (advanced n first step) limit ≡ false
      → (vs : List W) × (float_range fuel first limit step ≡ some vs)
  unfolding float_range
  float_range-Ends zero n first limit step lt e = absurd (omega arith)
  float_range-Ends (suc fuel) zero first limit step lt e = ([], rw (e, float_range))
  float_range-Ends (suc fuel) (suc n) first limit step lt e = elim (Bool-cases (d.le first limit)) [
    | inl more ↦
        let (vs, p) = float_range-Ends fuel n (first ⊕ step) limit step (omega arith) e in
        (first ∷ vs, rw (more, p, float_range))
    | inr done ↦ ([], rw (done, float_range))
  ]

  abbrev pub IsInside : W → W × W → Type 0
  IsInside radius_squared (x, y) = is_inside radius_squared x y ≡ true

  inside_row-IsInside :
      (radius_squared y : W) (xs : List W)
      → All (IsInside radius_squared) (inside_row radius_squared y xs)
  unfolding inside_row
  inside_row-IsInside radius_squared y [] = tt
  inside_row-IsInside radius_squared y (x ∷ xs) =
      ground (arith, inside_row-IsInside radius_squared y xs)

module _ {ℓ} {W : Type ℓ} ⦃d : Double W⦄ (fuel : ℕ) (s : GridShape W) where
  -- The three kinds of `double` loops of the grid end within the fuel: over the rows, over the
  -- points of an even row and over those of an odd one.
  abbrev pub GridEnds : Type 0
  GridEnds =
      Ends fuel (d.neg s.radius) (s.radius ⊕ (s.step_y ⊗ half)) s.step_y
      × Ends fuel (x_first fuel s 0) (s.radius ⊕ (s.step_x ⊗ half)) s.step_x
      × Ends fuel (x_first fuel s 1) (s.radius ⊕ (s.step_x ⊗ half)) s.step_x

  x_values-Ends : (row : ℕ) → GridEnds → (xs : List W) × (x_values fuel s row ≡ some xs)
  x_values-Ends row ends = elim (Bool-cases (row % 2 == 0)) [
    | inl even ↦
        let (n, lt, e) = ends.1 in
        let (xs, p) = float_range-Ends fuel n (x_first fuel s 0) _ s.step_x lt e in (xs, rw even p)
    | inr odd ↦
        let (n, lt, e) = ends.2 in
        let (xs, p) = float_range-Ends fuel n (x_first fuel s 1) _ s.step_x lt e in (xs, rw odd p)
  ]

  rows_from-Ends :
      (row : ℕ) (ys : List W)
      → GridEnds
      → (xy : List (W × W)) × (rows_from fuel s row ys ≡ some xy)
        × All (IsInside (s.radius ⊗ s.radius)) xy
  unfolding rows_from
  rows_from-Ends row [] ends = ([], refl, tt)
  rows_from-Ends row (y ∷ ys) ends =
      let (xs, p) = x_values-Ends row ends in
      let (rest, q, inside) = rows_from-Ends (row + 1) ys ends in
      let r2 = s.radius ⊗ s.radius in
      (
        inside_row r2 y xs ++ rest,
        rw (p, rows_from, q),
        All-append (IsInside r2) (inside_row r2 y xs) rest (inside_row-IsInside r2 y xs) inside,
      )

  layer-Ends :
      GridEnds
      → (xy : List (W × W)) × (layer fuel s ≡ some xy) × All (IsInside (s.radius ⊗ s.radius)) xy
  unfolding layer
  layer-Ends ends =
      let (n, lt, e) = ends.0 in
      let (ys, p) = float_range-Ends fuel n (d.neg s.radius) _ s.step_y lt e in
      let (xy, q, inside) = rows_from-Ends 0 ys ends in (xy, rw (p, layer) q, inside)

  -- The same points at each height, one height after the other.
  abbrev pub stack : List (W × W) → ℕ → ℕ → List (Array3 W)
  stack xy zero iz = []
  stack xy (suc rounds) iz = map (at_height fuel s (z_at fuel s iz)) xy ++ stack xy rounds (iz + 1)

  layers_from-stack :
      (rounds iz : ℕ) (xy : List (W × W))
      → layer fuel s ≡ some xy
      → layers_from fuel s rounds iz ≡ some (stack xy rounds iz)
  unfolding layers_from
  layers_from-stack zero iz xy e = refl
  layers_from-stack (suc rounds) iz xy e =
      rw (e, layers_from, layers_from-stack rounds (iz + 1) xy e)

  length-stack :
      (rounds iz : ℕ) (xy : List (W × W)) → length (stack xy rounds iz) ≡ rounds * length xy
  length-stack zero iz xy = omega arith
  length-stack (suc rounds) iz xy =
      let m = map (at_height fuel s (z_at fuel s iz)) xy in
      grind (
        arith,
        length-append m (stack xy rounds (iz + 1)),
        length-map (at_height fuel s (z_at fuel s iz)) xy,
        length-stack rounds (iz + 1) xy,
      )

  -- If the loops over the rows and over the points of a row end, so does the walk over the grid. It
  -- visits, for each of the `z_count` heights in turn, the same points, all of them in the circle.
  pub grid_points-stack :
      (z_count : ℕ)
      → GridEnds
      → (xy : List (W × W)) × (layer fuel s ≡ some xy)
        × (grid_points fuel s z_count ≡ some (stack xy z_count 0))
        × (length (stack xy z_count 0) ≡ z_count * length xy)
        × All (IsInside (s.radius ⊗ s.radius)) xy
  unfolding grid_points
  grid_points-stack z_count ends =
      let (xy, p, inside) = layer-Ends ends in
      (xy, p, layers_from-stack z_count 0 xy p, length-stack z_count 0 xy, inside)
