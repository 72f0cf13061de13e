-- ===== src/Analytics/Manager/Slice.antt =====
-- `AnalyticsManager::evaluate_field_slice`. `stop` says what `stop_requested()` answers at the start
-- of a row.
pub mod Writes
pub mod Samples
mod Tests
use tpc_api.Double.{Double, ◌⊕◌, ◌⊖◌, ◌⊗◌, ◌⊘◌, nought, max}
use tpc_api.Prelude.{
  ℕ, ◌+◌, ◌-◌, ◌*◌, ◌/◌, Bool, not, ◌||◌, List, size_max, dimension, ltb, if◌then◌else◌, set,
  replicate, ◌>>=◌, ◌>>◌, Outcome, returned, fail_if, loop,
}
use tpc_api.Analytics.Models.{Array3, rotate, SliceDirection, along_x, along_y, along_z, FieldSlice}
use tpc_api.Analytics.Modes.{components_at}
use tpc_api.Analytics.Manager.{Manager, has_coefficients}

-- What the loops over the pixels read.
pub record Frame {ℓ} (W : Type ℓ) : Type ℓ where
  pub manager : Manager W
  pub direction : SliceDirection
  pub coordinate : W
  pub columns : ℕ
  pub radius : W
  pub horizontal_bounds : W × W
  pub vertical_bounds : W × W
  pub du : W
  pub dv : W

-- `slice.field` and `slice.valid`
abbrev pub Buffers {ℓ} : Type ℓ → Type ℓ
Buffers W = List W × List ℕ

module _ {ℓ} {W : Type ℓ} ⦃d : Double W⦄ where
  abbrev pub is_outside : SliceDirection → W → W → W → Bool
  is_outside along_z coordinate half_length radius = d.lt half_length (d.abs coordinate)
  is_outside _ coordinate half_length radius = d.lt radius (d.abs coordinate)

  abbrev pub transverse_limit : W → W → W
  transverse_limit radius coordinate =
      d.sqrt (max nought ((radius ⊗ radius) ⊖ (coordinate ⊗ coordinate)))

  -- `horizontal_bounds` and `vertical_bounds`
  abbrev pub bounds : SliceDirection → W → W → W → (W × W) × (W × W)
  bounds along_z coordinate half_length radius = ((d.neg radius, radius), (d.neg radius, radius))
  bounds _ coordinate half_length radius =
      let limit = transverse_limit radius coordinate in
      ((d.neg limit, limit), (d.neg half_length, half_length))

  -- The point of a pixel, by the `switch` over the direction.
  abbrev pub place : SliceDirection → W → W → W → Array3 W
  place along_x coordinate u v = (coordinate, u, v)
  place along_y coordinate u v = (u, coordinate, v)
  place along_z coordinate u v = (u, v, coordinate)

  -- Three neighbouring components.
  abbrev pub set_triple : List W → ℕ → Array3 W → List W
  set_triple field offset (a, b, c) = set (set (set field offset a) (offset + 1) b) (offset + 2) c

  abbrev pub to_cartesian : W → Array3 W → Array3 W
  to_cartesian phi (br, bphi, bz) = let (bx, by) = rotate phi br bphi in (bx, by, bz)

  module _ (s : Frame W) where
    abbrev pub point_of : ℕ → ℕ → Array3 W
    point_of row column =
        place s.direction s.coordinate (s.horizontal_bounds.0 ⊕ (d.of_size column ⊗ s.du))
          (s.vertical_bounds.1 ⊖ (d.of_size row ⊗ s.dv))

    -- `x * x + y * y > radius * radius`
    abbrev pub leaves_circle : Array3 W → Bool
    leaves_circle p = d.lt (s.radius ⊗ s.radius) ((p.0 ⊗ p.0) ⊕ (p.1 ⊗ p.1))

    -- The angle of a point; on the axis it is 0.
    abbrev pub angle_of : Array3 W → W
    angle_of p = if d.le (d.hypot p.0 p.1) d.epsilon then nought else d.atan2 p.1 p.0

    abbrev pub cylindrical_of : Array3 W → Array3 W
    cylindrical_of p = (d.hypot p.0 p.1, angle_of p, p.2)

    unfoldable pub evaluate_pixel : ℕ → ℕ → Buffers W → Outcome (Buffers W)
    evaluate_pixel row column buffers =
        let p = point_of row column in
        let pixel = row * s.columns + column in
        if leaves_circle p
        then returned buffers
        else (components_at s.manager.basis_collection.basis s.manager.stored_coefficients
              (cylindrical_of p) s.manager.basis_collection.modes
            >>= λ cylindrical. returned (
              set_triple buffers.0 (pixel * 3) (to_cartesian (angle_of p) cylindrical),
              set buffers.1 pixel 1,
            ))

    unfoldable pub evaluate_row : (ℕ → Bool) → ℕ → Buffers W → Outcome (Buffers W)
    evaluate_row stop row buffers = do
      fail_if (stop row) "Slice evaluation cancelled"
      loop s.columns 0 (evaluate_pixel row) buffers

  abbrev pub frame_of : Manager W → SliceDirection → W → ℕ × ℕ → W → W → Frame W
  frame_of m direction coordinate (columns, rows) radius half_length =
      let (horizontal, vertical) = bounds direction coordinate half_length radius in
      record {
        manager = m;
        direction = direction;
        coordinate = coordinate;
        columns = columns;
        radius = radius;
        horizontal_bounds = horizontal;
        vertical_bounds = vertical;
        du = (horizontal.1 ⊖ horizontal.0) ⊘ d.of_size (columns - 1);
        dv = (vertical.1 ⊖ vertical.0) ⊘ d.of_size (rows - 1);
      }

  unfoldable pub evaluate_field_slice :
      Manager W → SliceDirection → W → ℕ × ℕ → W → W → (ℕ → Bool) → Outcome (FieldSlice W)
  evaluate_field_slice m direction coordinate (columns, rows) radius z_length stop = do
    fail_if (ltb columns 2 || ltb rows 2) "Slice grid dimensions must be at least 2"
    fail_if (d.le radius nought || d.le z_length nought) "Radius and length must be positive"
    let half_length = z_length ⊗ d.decimal 5 1
    fail_if (is_outside direction coordinate half_length radius)
        "Slice coordinate is outside the TPC geometry"
    fail_if (not (has_coefficients m)) "SVD coefficients are not calculated"
    fail_if (ltb (size_max / rows) columns) "Slice grid is too large"
    fail_if (ltb (size_max / dimension) (columns * rows)) "Slice grid is too large"
    let s = frame_of m direction coordinate (columns, rows) radius half_length
    buffers ←
        loop rows 0 (evaluate_row s stop)
          (replicate (columns * rows * dimension) nought, replicate (columns * rows) 0)
    returned (record {
      direction = direction;
      coordinate = coordinate;
      grid = (columns, rows);
      horizontal_bounds = s.horizontal_bounds;
      vertical_bounds = s.vertical_bounds;
      field = buffers.0;
      valid = buffers.1;
    })
