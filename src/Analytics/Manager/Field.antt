-- ===== src/Analytics/Manager/Field.antt =====
-- What `calculate_field` leaves behind.
use mathlib.Core.List.{append-nil, append_assoc}
use tpc_api.Double.{Double, ◌⊗◌, nought}
use tpc_api.Prelude.{
  ℕ, ◌-◌, ◌*◌, ◌/◌, ◌%◌, ◌≤◌, ◌≡◌, refl, ap, ◌∙◌, Bool, true, false, Option, none, some, List, [],
  ◌∷◌, ◌++◌, map, arith, size_max, dimension, ltb, ◌==◌, ==_iff, length, replicate, All,
  length-replicate, returned, take-nil,
}
use tpc_api.Analytics.Models.{CoordinateType, cylindric, Array3, buffer}
use tpc_api.Analytics.FieldCollection
use tpc_api.Analytics.FieldCollection.{clear, FieldCollection, append_coordinate}
use tpc_api.Analytics.FieldCollection.Transform.{length-buffer}
use tpc_api.Analytics.Modes.Weighted.{functions, field_at, components_at-field_at}
use tpc_api.Analytics.Grid.{shape, layer, grid_points, to_cylindric}
use tpc_api.Analytics.Grid.Layers.{GridEnds, IsInside, stack, grid_points-stack}
use tpc_api.Analytics.Manager.{
  Manager, cleared, append_all, fill_field, calculate_field_kernel, calculate_field,
  evaluate_for_point,
}

module _ {ℓ} {W : Type ℓ} ⦃d : Double W⦄ where
  append_all-buffer :
      (c : FieldCollection W) (ps : List (Array3 W))
      → append_all c ps ≡ record c { coordinates = c.coordinates ++ buffer (map to_cylindric ps) }
  unfolding append_all append_coordinate
  append_all-buffer c [] = rw (append-nil c.coordinates)
  append_all-buffer c ((x, y, z) ∷ ps) =
      let (r, phi, h) = to_cylindric (x, y, z) in
      let tail = buffer (map to_cylindric ps) in
      append_all-buffer (append_coordinate c r phi h) ps
      ∙ ap (λ l. record c { coordinates = l }) (append_assoc c.coordinates (r ∷ phi ∷ h ∷ []) tail)

  coordinates_of_cleared :
      (o : Option (FieldCollection W)) (l : List W)
      → record (cleared o) { coordinates = (cleared o).coordinates ++ l }
        ≡ record (cleared o) { coordinates = l }
  unfolding FieldCollection.create clear
  coordinates_of_cleared none l = refl
  coordinates_of_cleared (some c) l = refl

  field_of_cleared : (o : Option (FieldCollection W)) → (cleared o).field ≡ []
  unfolding FieldCollection.create clear
  field_of_cleared none = refl
  field_of_cleared (some c) = refl

  -- A manager with three basis functions set and a coefficient for each mode.
  abbrev pub ready :
      (f g h : ℕ → W → W → W → W)
      → CoordinateType
      → ℕ
      → List W
      → Option (FieldCollection W)
      → Bool
      → Manager W
  ready f g h basis_type modes coefficients field_data valid = record {
    basis_collection = record {
      arity = 3;
      modes = modes;
      basis_type = basis_type;
      basis = functions f g h;
    };
    field_data = field_data;
    field_data_valid = valid;
    stored_coefficients = coefficients;
  }

module _ {ℓ} {W : Type ℓ} ⦃d : Double W⦄ (f g h : ℕ → W → W → W → W) (basis_type : CoordinateType)
    (modes : ℕ) (coefficients : List W) (complete : length coefficients ≡ modes)
    (field_data : Option (FieldCollection W)) (valid : Bool) where
  abbrev manager : Manager W
  manager = ready f g h basis_type modes coefficients field_data valid

  fill_field-buffer :
      (ps : List (Array3 W)) (field : List W)
      → length field ≡ length (buffer ps)
      → fill_field manager (buffer ps) field
        ≡ (buffer (map (field_at f g h coefficients) ps), returned tt)
  unfolding fill_field
  fill_field-buffer [] [] e = refl
  fill_field-buffer [] (a ∷ field) e = absurd (omega arith)
  fill_field-buffer (p ∷ ps) [] e = absurd (omega arith)
  fill_field-buffer (p ∷ ps) (a ∷ []) e = absurd (omega arith)
  fill_field-buffer (p ∷ ps) (a ∷ b ∷ []) e = absurd (omega arith)
  fill_field-buffer (p ∷ ps) (a ∷ b ∷ c ∷ field) e = rw (
    components_at-field_at f g h coefficients p modes complete,
    fill_field,
    fill_field-buffer ps field (omega arith),
  )

  -- The answer at one point is the weighted sum of the basis functions there.
  pub evaluate_for_point-field_at :
      (p : Array3 W)
      → evaluate_for_point manager p
        ≡ returned
            (record { components = field_at f g h coefficients p; coordinate_type = cylindric })
  unfolding evaluate_for_point
  evaluate_for_point-field_at p =
      rw ((==_iff _ _).1 complete, components_at-field_at f g h coefficients p modes complete)

  -- The collection over the points `ps`, with the field that the coefficients give at each.
  abbrev pub computed : List (Array3 W) → FieldCollection W
  computed ps = record (cleared field_data) {
    coordinates = buffer ps;
    field = buffer (map (field_at f g h coefficients) ps);
  }

  calculate_field_kernel-buffer :
      (ps : List (Array3 W))
      → calculate_field_kernel manager (buffer ps) (replicate (length (buffer ps)) nought)
        ≡ (buffer (map (field_at f g h coefficients) ps), returned tt)
  unfolding calculate_field_kernel
  calculate_field_kernel-buffer ps =
      let n = length-buffer ps in
      let zeros = length-replicate (length (buffer ps)) (nought {W = W}) in
      let whole : (length (buffer ps) % 3 == 0) ≡ true = (==_iff _ _).1 (omega (arith, n)) in
      let fits : (length (replicate (length (buffer ps)) (nought {W = W}))
            == length (buffer ps) / 3 * 3)
          ≡ true =
        (==_iff _ _).1 (omega (arith, n, zeros)) in
      rw (whole, fits) (fill_field-buffer ps _ zeros)

  calculate_field-points :
      (fuel x_count y_count z_count : ℕ) (radius z_length : W) (ps : List (Array3 W))
      → 2 ≤ x_count
      → 2 ≤ y_count
      → 2 ≤ z_count
      → d.le radius nought ≡ false
      → d.le z_length nought ≡ false
      → grid_points fuel (shape x_count y_count z_count radius z_length) z_count ≡ some ps
      → length ps ≤ size_max / dimension
      → calculate_field fuel manager (x_count, y_count, z_count) radius z_length ≡ (
        ready f g h basis_type modes coefficients (some (computed (map to_cylindric ps))) true,
        returned tt,
      )
  unfolding calculate_field
  calculate_field-points fuel x_count y_count z_count radius z_length ps hx hy hz hr hl e few =
      let a : ltb x_count 2 ≡ false = ground arith in
      let b : ltb y_count 2 ≡ false = ground arith in
      let c : ltb z_count 2 ≡ false = ground arith in
      let t : ltb (size_max / dimension) (length ps) ≡ false = ground arith in
      let gridded =
        append_all-buffer (cleared field_data) ps ∙ coordinates_of_cleared field_data _ in
      let minus_zero : (n : ℕ) → n - 0 ≡ n = λ n. omega arith in
      let kernel = calculate_field_kernel-buffer (map to_cylindric ps) in
      rw (
        hr,
        hl,
        (==_iff _ _).1 complete,
        a,
        b,
        c,
        e,
        t,
        gridded,
        field_of_cleared field_data,
        take-nil {A = W} (length (buffer (map to_cylindric ps))),
        minus_zero (length (buffer (map to_cylindric ps))),
        kernel,
      )

  -- If the loops over the grid end, the sizes are at least two and the lengths positive, and the
  -- points are not too many, the calculation succeeds. The coordinates are those of the same points
  -- of the circle at each height, in cylindrical coordinates, and the field at each of them is the
  -- weighted sum of the basis functions; whatever was calculated before is gone.
  pub calculate_field_lem :
      (fuel x_count y_count z_count : ℕ) (radius z_length : W)
      → 2 ≤ x_count
      → 2 ≤ y_count
      → 2 ≤ z_count
      → d.le radius nought ≡ false
      → d.le z_length nought ≡ false
      → let s = shape x_count y_count z_count radius z_length in
        GridEnds fuel s
        → ((xy : List (W × W))
            → layer fuel s ≡ some xy
            → z_count * length xy ≤ size_max / dimension)
        → (xy : List (W × W)) × (layer fuel s ≡ some xy)
          × All (IsInside (radius ⊗ radius)) xy
          × (calculate_field fuel manager (x_count, y_count, z_count) radius z_length ≡ (
            ready f g h basis_type modes coefficients
                (some (computed (map to_cylindric (stack fuel s xy z_count 0))))
                true,
            returned tt,
          ))
  calculate_field_lem fuel x_count y_count z_count radius z_length hx hy hz hr hl ends few =
      let s = shape x_count y_count z_count radius z_length in
      let (xy, p, q, size, inside) = grid_points-stack fuel s z_count ends in
      (
        xy,
        p,
        inside,
        calculate_field-points fuel x_count y_count z_count radius z_length
            (stack fuel s xy z_count 0) hx hy hz hr hl q (rw size (few xy p)),
      )
