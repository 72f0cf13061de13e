-- ===== src/Analytics/FieldCollection/Transform.antt =====
-- The transformations of a collection, point by point.
use tpc_api.Prelude.{
  ◌*◌, ◌≡◌, refl, ap, true, false, some, List, [], ◌∷◌, map, arith, ◌==◌, ==_iff, length, All,
  length-map, returned,
}
use tpc_api.Double.{Double}
use tpc_api.Utilities.ChunkView
use tpc_api.Utilities.ChunkView.Tiling.{regular, chunks-regular}
use tpc_api.Utilities.ChunkView.ForEach.{join, for_each-regular}
use tpc_api.Analytics.Models.{
  CoordinateType, cartesian, cylindric, same_type, Array3, span, buffer, to_type, rotate,
}
use tpc_api.Analytics.FieldCollection.{
  transform_chunk, transform_coordinates, rotate_field, transform_field,
}

pub length-buffer {ℓ} : {W : Type ℓ} (ps : List (Array3 W)) → length (buffer ps) ≡ length ps * 3
length-buffer [] = refl
length-buffer (p ∷ ps) = omega (arith, length-buffer ps)

module _ {ℓ} {W : Type ℓ} where
  join-span : (ps : List (Array3 W)) → join (map span ps) ≡ buffer ps
  join-span [] = refl
  join-span ((a, b, c) ∷ ps) = ap (λ l. a ∷ b ∷ c ∷ l) (join-span ps)

  All-span : (ps : List (Array3 W)) → All (λ g. length g ≡ 3) (map span ps)
  All-span [] = tt
  All-span (p ∷ ps) = (refl, All-span ps)

  -- What a chunk of three becomes under a function on triples; other chunks stay.
  abbrev on_triples : (Array3 W → Array3 W) → List W → List W
  on_triples f (a ∷ b ∷ c ∷ []) = span (f (a, b, c))
  on_triples f g = g

  map-on_triples :
      (f : Array3 W → Array3 W) (ps : List (Array3 W))
      → map (on_triples f) (map span ps) ≡ map span (map f ps)
  map-on_triples f [] = refl
  map-on_triples f ((a, b, c) ∷ ps) = ap (◌∷◌ (span (f (a, b, c)))) (map-on_triples f ps)

module _ {ℓ} {W : Type ℓ} ⦃d : Double W⦄ where
  transform_chunk-triple :
      (target : CoordinateType) (g : List W)
      → length g ≡ 3
      → (transform_chunk target g ≡ some (on_triples (to_type target) g))
        × (length (on_triples (to_type target) g) ≡ 3)
  unfolding transform_chunk
  transform_chunk-triple target [] e = absurd (omega arith)
  transform_chunk-triple target (a ∷ []) e = absurd (omega arith)
  transform_chunk-triple target (a ∷ b ∷ []) e = absurd (omega arith)
  transform_chunk-triple cylindric (a ∷ b ∷ c ∷ []) e = (refl, refl)
  transform_chunk-triple cartesian (a ∷ b ∷ c ∷ []) e = (refl, refl)
  transform_chunk-triple target (a ∷ b ∷ c ∷ x ∷ g) e = absurd (omega arith)

  for_each-buffer :
      (target : CoordinateType) (ps : List (Array3 W))
      → ChunkView.for_each (transform_chunk target) (regular 3 0 (length ps)) (buffer ps)
        ≡ some (buffer (map (to_type target) ps))
  for_each-buffer target ps =
      let chunked =
        for_each-regular (transform_chunk target) (on_triples (to_type target)) 3 [] (map span ps)
          (transform_chunk-triple target) (All-span ps) in
      rw
        (
          length-map span ps,
          join-span ps,
          map-on_triples (to_type target) ps,
          join-span (map (to_type target) ps),
        )
        at chunked

  chunks-buffer :
      (ps : List (Array3 W))
      → ChunkView.chunks (record { size = length (buffer ps); chunk_size = 3 })
        ≡ some (regular 3 0 (length ps))
  chunks-buffer ps = rw (length-buffer ps) (chunks-regular (length ps) 3 (omega arith))

  -- A three-dimensional collection of points is transformed point by point: each triple of the
  -- buffer becomes what `PointComponents` makes of it, the collection has the new type, and the
  -- field is untouched.
  pub transform_coordinates-buffer :
      (from target field_type : CoordinateType) (p : Array3 W) (ps : List (Array3 W))
      (field : List W)
      → same_type target from ≡ false
      → transform_coordinates
          (record {
            dimension_ = 3;
            coordinates_type = from;
            field_type = field_type;
            coordinates = buffer (p ∷ ps);
            field = field;
          })
          target
        ≡ returned (record {
          dimension_ = 3;
          coordinates_type = target;
          field_type = field_type;
          coordinates = buffer (map (to_type target) (p ∷ ps));
          field = field;
        })
  unfolding transform_coordinates
  transform_coordinates-buffer from target field_type p ps field differs = rw (
    differs,
    ChunkView.create-pos (length (buffer (p ∷ ps))) 3 (omega arith),
    chunks-buffer (p ∷ ps),
    for_each-buffer target (p ∷ ps),
  )

  -- The field at a point, turned into Cartesian components.
  abbrev pub rotate_at : Array3 W → Array3 W → Array3 W
  rotate_at (r, phi, z) (br, bphi, bz) = let (bx, by) = rotate phi br bphi in (bx, by, bz)

  -- Points and field values side by side.
  abbrev pub rotate_all : List (Array3 W) → List (Array3 W) → List (Array3 W)
  rotate_all (p ∷ ps) (b ∷ bs) = rotate_at p b ∷ rotate_all ps bs
  rotate_all _ _ = []

  rotate_field-buffer :
      (ps bs : List (Array3 W))
      → length ps ≡ length bs
      → rotate_field (buffer bs) (buffer ps) ≡ some (buffer (rotate_all ps bs))
  unfolding rotate_field
  rotate_field-buffer [] [] e = refl
  rotate_field-buffer [] (b ∷ bs) e = absurd (omega arith)
  rotate_field-buffer (p ∷ ps) [] e = absurd (omega arith)
  rotate_field-buffer (p ∷ []) (b ∷ []) e = refl
  rotate_field-buffer (p ∷ []) (b ∷ b' ∷ bs) e = absurd (omega arith)
  rotate_field-buffer (p ∷ p' ∷ ps) (b ∷ []) e = absurd (omega arith)
  rotate_field-buffer (p ∷ p' ∷ ps) (b ∷ b' ∷ bs) e =
      rw (rotate_field-buffer (p' ∷ ps) (b' ∷ bs) (omega arith), rotate_field)

  -- A cylindrical field over as many cylindrical points becomes the Cartesian field, value by value,
  -- each at the angle of its own point; the points stay.
  pub transform_field-buffer :
      (ps bs : List (Array3 W)) (b : Array3 W)
      → length ps ≡ length (b ∷ bs)
      → transform_field
          (record {
            dimension_ = 3;
            coordinates_type = cylindric;
            field_type = cylindric;
            coordinates = buffer ps;
            field = buffer (b ∷ bs);
          })
          cartesian
        ≡ returned (record {
          dimension_ = 3;
          coordinates_type = cylindric;
          field_type = cartesian;
          coordinates = buffer ps;
          field = buffer (rotate_all ps (b ∷ bs));
        })
  unfolding transform_field
  transform_field-buffer ps bs b e =
      let sizes : (length (buffer ps) == length (buffer (b ∷ bs))) ≡ true =
        (==_iff _ _).1 (omega (arith, length-buffer ps, length-buffer bs)) in
      rw (sizes, rotate_field-buffer ps (b ∷ bs) e)
