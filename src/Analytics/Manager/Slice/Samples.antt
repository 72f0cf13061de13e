-- ===== src/Analytics/Manager/Slice/Samples.antt =====
-- The pixels of a slice, each with its own value.
use tpc_api.Double.{Double, ◌⊗◌, nought}
use tpc_api.Prelude.{
  ℕ, zero, suc, ◌+◌, ◌*◌, ◌/◌, ◌≤◌, ◌≡◌, refl, sym, ap, ◌∙◌, inl, inr, Bool, false, Option, List,
  [], ◌∷◌, ◌++◌, arith, size_max, dimension, ltb, if◌then◌else◌, ==_iff, Bool-cases, length,
  length-append, returned, length-snoc, snoc-append, loop,
}
use mathlib.Core.List.{append-nil, append_assoc}
use tpc_api.Analytics.Models.{CoordinateType, buffer, SliceDirection}
use tpc_api.Analytics.FieldCollection.{FieldCollection}
use tpc_api.Analytics.Modes.Weighted.{field_at, components_at-field_at}
use tpc_api.Analytics.Manager.{Manager}
use tpc_api.Analytics.Manager.Field.{ready}
use tpc_api.Analytics.Manager.Slice.{
  Frame, is_outside, to_cartesian, point_of, leaves_circle, angle_of, cylindrical_of,
  evaluate_pixel, evaluate_row, frame_of, evaluate_field_slice,
}
use tpc_api.Analytics.Manager.Slice.Writes.{
  Sample, zero_vector, fields_of, flags_of, written, written-snoc, written-all, write-sample,
  buffer-zeros,
}

module _ {ℓ} {W : Type ℓ} ⦃d : Double W⦄ (f g h : ℕ → W → W → W → W) (basis_type : CoordinateType)
    (modes : ℕ) (coefficients : List W) (complete : length coefficients ≡ modes)
    (field_data : Option (FieldCollection W)) (valid : Bool) where
  abbrev manager : Manager W
  manager = ready f g h basis_type modes coefficients field_data valid

  module _ (s : Frame W) where
    -- A pixel outside the circle has the value 0 and is not valid; another one has the field that
    -- the coefficients give at its point, in Cartesian components, and is valid.
    abbrev pub sample : ℕ → ℕ → Sample W
    sample row column =
        let p = point_of s row column in
        if leaves_circle s p
        then (zero_vector, 0)
        else (to_cartesian (angle_of s p) (field_at f g h coefficients (cylindrical_of s p)), 1)

    abbrev pub row_samples : ℕ → ℕ → ℕ → List (Sample W)
    row_samples row column zero = []
    row_samples row column (suc rounds) = sample row column ∷ row_samples row (suc column) rounds

    abbrev pub all_samples : ℕ → ℕ → List (Sample W)
    all_samples row zero = []
    all_samples row (suc rounds) = row_samples row 0 s.columns ++ all_samples (suc row) rounds

  module _ (s : Frame W) (is_ours : s.manager ≡ manager) where
    evaluate_pixel-sample :
        (row column : ℕ) (samples : List (Sample W)) (left : ℕ)
        → length samples ≡ row * s.columns + column
        → evaluate_pixel s row column (written samples (suc left))
          ≡ returned (written (samples ++ (sample s row column ∷ [])) left)
    unfolding evaluate_pixel
    evaluate_pixel-sample row column samples left counted =
        let p = point_of s row column in
        elim (Bool-cases (leaves_circle s p)) [
          | inl out ↦ rw out (ap returned (sym (written-snoc samples (zero_vector, 0) left)))
          | inr within ↦
              let v =
                to_cartesian (angle_of s p) (field_at f g h coefficients (cylindrical_of s p)) in
              rw
                (
                  within,
                  is_ours,
                  components_at-field_at f g h coefficients (cylindrical_of s p) modes complete,
                )
                (ap returned (write-sample samples (row * s.columns + column) left v counted))
        ]

    evaluate_columns :
        (row column rounds left : ℕ) (samples : List (Sample W))
        → length samples ≡ row * s.columns + column
        → loop rounds column (evaluate_pixel s row) (written samples (rounds + left))
          ≡ returned (written (samples ++ row_samples s row column rounds) left)
    unfolding loop
    evaluate_columns row column zero left samples h =
        let none_left : 0 + left ≡ left = omega arith in rw (none_left, append-nil samples)
    evaluate_columns row column (suc rounds) left samples h =
        let one_more : suc rounds + left ≡ suc (rounds + left) = omega arith in
        let longer = length-snoc samples (sample s row column) in
        let rest =
          evaluate_columns row (suc column) rounds left (samples ++ (sample s row column ∷ []))
            (omega arith) in
        rw
          (
            one_more,
            evaluate_pixel-sample row column samples (rounds + left) h,
            ← (snoc-append samples (sample s row column) (row_samples s row (suc column) rounds)),
          )
          rest

    length-row_samples : (row column rounds : ℕ) → length (row_samples s row column rounds) ≡ rounds
    length-row_samples row column zero = refl
    length-row_samples row column (suc rounds) = ap suc (length-row_samples row (suc column) rounds)

    evaluate_rows :
        (stop : ℕ → Bool)
        → ((row : ℕ) → stop row ≡ false)
        → (row rounds : ℕ) (samples : List (Sample W)) → length samples ≡ row * s.columns
        → loop rounds row (evaluate_row s stop) (written samples (s.columns * rounds))
          ≡ returned (written (samples ++ all_samples s row rounds) 0)
    unfolding loop evaluate_row
    evaluate_rows stop never row zero samples h =
        let none_left : s.columns * 0 ≡ 0 = omega arith in rw (none_left, append-nil samples)
    evaluate_rows stop never row (suc rounds) samples h =
        let one_more : s.columns * suc rounds ≡ s.columns + s.columns * rounds = grind arith in
        let mine = row_samples s row 0 s.columns in
        let longer = length-append samples mine in
        let as_many = length-row_samples row 0 s.columns in
        let counted : length (samples ++ mine) ≡ suc row * s.columns = grind arith in
        rw
          (
            one_more,
            never row,
            evaluate_columns row 0 s.columns (s.columns * rounds) samples (omega arith),
            ← (append_assoc samples mine (all_samples s (suc row) rounds)),
          )
          (evaluate_rows stop never (suc row) rounds (samples ++ mine) counted)

  -- If the arguments are accepted and no stop is requested, the slice has a pixel for each column of
  -- each row, row by row from the top. A pixel outside the circle has the value 0 and is not valid;
  -- another one is valid and has the weighted sum of the basis functions at its point, turned into
  -- Cartesian components at the angle of the point.
  pub evaluate_field_slice_lem :
      (direction : SliceDirection) (coordinate : W) (columns rows : ℕ) (radius z_length : W)
      (stop : ℕ → Bool)
      → 2 ≤ columns
      → 2 ≤ rows
      → d.le radius nought ≡ false
      → d.le z_length nought ≡ false
      → is_outside direction coordinate (z_length ⊗ d.decimal 5 1) radius ≡ false
      → columns ≤ size_max / rows
      → columns * rows ≤ size_max / dimension
      → ((row : ℕ) → stop row ≡ false)
      → let s =
          frame_of manager direction coordinate (columns, rows) radius (z_length ⊗ d.decimal 5 1) in
        evaluate_field_slice manager direction coordinate (columns, rows) radius z_length stop
        ≡ returned (record {
          direction = direction;
          coordinate = coordinate;
          grid = (columns, rows);
          horizontal_bounds = s.horizontal_bounds;
          vertical_bounds = s.vertical_bounds;
          field = buffer (fields_of (all_samples s 0 rows));
          valid = flags_of (all_samples s 0 rows);
        })
  unfolding evaluate_field_slice
  evaluate_field_slice_lem direction coordinate columns rows radius z_length stop hc hr ha hb ho ga
        gb never =
      let s : Frame W =
        frame_of manager direction coordinate (columns, rows) radius (z_length ⊗ d.decimal 5 1) in
      let a : ltb columns 2 ≡ false = ground arith in
      let b : ltb rows 2 ≡ false = ground arith in
      let e : ltb (size_max / rows) columns ≡ false = ground arith in
      let e' : ltb (size_max / dimension) (columns * rows) ≡ false = ground arith in
      let zeros = buffer-zeros {W = W} (columns * rows) in
      let pixels =
        evaluate_rows s refl stop never 0 rows [] (omega arith)
        ∙ ap returned (written-all (all_samples s 0 rows)) in
      rw (a, b, ha, hb, ho, (==_iff _ _).1 complete, e, e', ← zeros, pixels)
