-- ===== src/Analytics/FieldCollection.antt =====
-- include/tpc/analytics/models/three_dimension_models.hpp: `FieldCollection`, two buffers of
-- coordinates and field values. `dimension` is not 0 where a size is divided by it: the division by
-- zero of the source has no value here. Capacity (`reserve`) is not part of the state.
pub mod Transform
mod Tests
use tpc_api.Prelude.{
  ℕ, ◌-◌, ◌%◌, not, ◌||◌, Option, none, some, List, [], ◌∷◌, ◌++◌, ◌==◌, if◌then◌else◌, length,
  take, replicate, Expected, expected, unexpected, ◌>>=◌, ◌>>◌, Outcome, returned, fail_if,
  in_range, is_empty,
}
use tpc_api.Double.{Double, ◌⊗◌, nought}
use tpc_api.Utilities.ChunkView
use tpc_api.Utilities.ChunkView.{ChunkView}
use tpc_api.Analytics.Models.{CoordinateType, cartesian, cylindric, same_type, rotate}

pub record FieldCollection {ℓ} (W : Type ℓ) : Type ℓ where
  pub dimension_ : ℕ
  pub coordinates_type : CoordinateType
  pub field_type : CoordinateType
  pub coordinates : List W
  pub field : List W

module _ {ℓ} {W : Type ℓ} where
  -- The constructor.
  unfoldable pub create : ℕ → CoordinateType → CoordinateType → FieldCollection W
  create dim coordinates_type field_type = record {
    dimension_ = dim;
    coordinates_type = coordinates_type;
    field_type = field_type;
    coordinates = [];
    field = [];
  }

  unfoldable pub clear : FieldCollection W → FieldCollection W
  clear c = record c { coordinates = []; field = [] }

  unfoldable pub append_coordinate : FieldCollection W → W → W → W → FieldCollection W
  append_coordinate c first second third = record c {
    coordinates = c.coordinates ++ (first ∷ second ∷ third ∷ []);
  }

  -- `std::vector::resize`: cut off, or filled up with `fill`.
  unfoldable pub resize : List W → ℕ → W → List W
  resize xs n fill = take n xs ++ replicate (n - length xs) fill

  pub insert_coordinates_range :
      FieldCollection W → List W → FieldCollection W × Expected (Unit {0})
  insert_coordinates_range c [] = (c, unexpected "Coordinates data is empty")
  insert_coordinates_range c (x ∷ xs) =
      if length (x ∷ xs) % c.dimension_ == 0
      then (record c { coordinates = c.coordinates ++ (x ∷ xs) }, expected tt)
      else (c, unexpected "Buffer size is not divisible by its dimension")

  pub insert_field_range : FieldCollection W → List W → FieldCollection W × Expected (Unit {0})
  insert_field_range c [] = (c, unexpected "Field data is empty")
  insert_field_range c (x ∷ xs) =
      if length (x ∷ xs) % c.dimension_ == 0
      then (record c { field = c.field ++ (x ∷ xs) }, expected tt)
      else (c, unexpected "Buffer size is not divisible by its dimension")

module _ {ℓ} {W : Type ℓ} ⦃d : Double W⦄ where
  unfoldable pub resize_field_to_coordinates : FieldCollection W → FieldCollection W
  unfolding resize
  resize_field_to_coordinates c = record c { field = resize c.field (length c.coordinates) nought }

  -- The two lambdas of `transform_coordinates`: `none` where `point[1]` is out of range.
  transform_chunk : CoordinateType → List W → Option (List W)
  transform_chunk cylindric (x ∷ y ∷ rest) = some (d.hypot x y ∷ d.atan2 y x ∷ rest)
  transform_chunk cartesian (r ∷ phi ∷ rest) = some (r ⊗ d.cos phi ∷ r ⊗ d.sin phi ∷ rest)
  transform_chunk _ _ = none

  transform_chunks : FieldCollection W → CoordinateType → ChunkView → Outcome (FieldCollection W)
  unfolding transform_chunk
  transform_chunks c target view = do
    spans ← in_range (ChunkView.chunks view)
    turned ← in_range (ChunkView.for_each (transform_chunk target) spans c.coordinates)
    returned (record c { coordinates = turned; coordinates_type = target })

  pub transform_coordinates : FieldCollection W → CoordinateType → Outcome (FieldCollection W)
  unfolding transform_chunks
  transform_coordinates c target = do
    fail_if (is_empty c.coordinates) "Coordinates collection is empty"
    fail_if (same_type target c.coordinates_type) "Can`t transform coordinates"
    view ← ChunkView.create (length c.coordinates) c.dimension_
    transform_chunks c target view

  -- The loop of `transform_field`, over field and coordinates in steps of three; `none` where
  -- `field_[offset + 1]` or `coordinates_[offset + 1]` is out of range.
  rotate_field : List W → List W → Option (List W)
  rotate_field [] coordinates = some []
  rotate_field (br ∷ bphi ∷ []) (r ∷ phi ∷ coordinates) =
      let (bx, by) = rotate phi br bphi in some (bx ∷ by ∷ [])
  rotate_field (br ∷ bphi ∷ bz ∷ field) (r ∷ phi ∷ z ∷ coordinates) =
      let (bx, by) = rotate phi br bphi in
      elim (rotate_field field coordinates) [ none ↦ none | some rest ↦ some (bx ∷ by ∷ bz ∷ rest) ]
  rotate_field _ _ = none

  -- The new collection; where nothing changes, the old one.
  pub transform_field : FieldCollection W → CoordinateType → Outcome (FieldCollection W)
  unfolding rotate_field
  transform_field c target = do
    fail_if (is_empty c.field) "Field collection is empty"
    if same_type c.field_type target then returned c else do
      fail_if (not (c.dimension_ == 3)) "Only 3D fields are supported"
      fail_if (not (same_type c.field_type cylindric) || not (same_type target cartesian))
          "Unsupported field transformation"
      fail_if (not (same_type c.coordinates_type cylindric)) "Coordinates must be cylindrical"
      fail_if (not (length c.coordinates == length c.field)) "Coordinates and field sizes differ"
      rotated ← in_range (rotate_field c.field c.coordinates)
      returned (record c { field = rotated; field_type = cartesian })
