-- ===== src/Analytics/Vtk/RoundTrip.antt =====
-- What a reader of the format finds in the exporter's text.
use tpc_api.Double.{Double}
use tpc_api.Prelude.{
  ℕ, ◌-◌, ◌*◌, ◌≡◌, refl, sym, ap, ◌∙◌, subst, true, ◌&&◌, none, some, List, [], ◌∷◌, ◌++◌, map,
  arith, ◌==◌, if◌then◌else◌, ==_iff, length, replicate,
}
use tpc_api.Prelude.{string_eq}
use tpc_api.Analytics.Models.{Array3, buffer, rotate}
use tpc_api.Analytics.Vtk.Points.{CartesianPoint}
use tpc_api.Analytics.Vtk.Document.{
  Numeral, printed, Line, text, blank, points_header, cells_header, types_header, cell_type,
  point_data_header, point_line, wedge_lines, vector_lines, document,
}
use tpc_api.Analytics.Vtk.Reader.{
  Mesh, map_mesh, doubles_of, read_doubles, read_text, read_triples, read_points, read_cells,
  read_cell_types, read_vectors, read_mesh, read_header, read_file, read,
}
use tpc_api.Analytics.Vtk.Wedges.{
  vertices_of, length-vertices_of, read_triples-points, read_types-replicate, wedges, length-wedges,
  read_wedges-wedge_lines,
}

module _ {ℓ} {W : Type ℓ} ⦃d : Double W⦄ where
  -- Cylindric field values in Cartesian components, each at the angle of its own point, as they are printed.
  abbrev pub vectors_of : List (Array3 W) → List (Array3 W) → List (Array3 (Numeral W))
  vectors_of ((r, phi, z) ∷ coordinates) ((br, bphi, bz) ∷ field) =
      let (bx, by) = rotate phi br bphi in
      (printed bx, printed by, printed bz) ∷ vectors_of coordinates field
  vectors_of _ _ = []

  read_triples-vector_lines :
      (coordinates field : List (Array3 W))
      → length coordinates ≡ length field
      → read_triples (length field) (vector_lines (buffer coordinates) (buffer field))
        ≡ some (vectors_of coordinates field, [])
  unfolding vector_lines read_triples
  read_triples-vector_lines [] [] h = refl
  read_triples-vector_lines [] (b ∷ field) h = absurd (omega arith)
  read_triples-vector_lines (p ∷ coordinates) [] h = absurd (omega arith)
  read_triples-vector_lines ((r, phi, z) ∷ coordinates) ((br, bphi, bz) ∷ field) h =
      rw (read_triples-vector_lines coordinates field (omega arith), read_triples)

  read_vectors-section :
      (n : ℕ) (coordinates field : List (Array3 W))
      → n ≡ length field
      → length coordinates ≡ length field
      → read_vectors n (
          blank
          ∷ point_data_header n
          ∷ text "VECTORS MagneticField double"
          ∷ vector_lines (buffer coordinates) (buffer field))
        ≡ some (vectors_of coordinates field, [])
  unfolding read_vectors
  read_vectors-section n coordinates field p q =
      let sized : (n == n) ≡ true = (==_iff n n).1 refl in
      subst
        (λ k.
          (if (n == n)
              && string_eq.beq "VECTORS MagneticField double" "VECTORS MagneticField double"
            then read_triples k (vector_lines (buffer coordinates) (buffer field))
            else none)
          ≡ some (vectors_of coordinates field, []))
        (sym p) (rw (sized, read_triples-vector_lines coordinates field q))

module _ {ℓ} {W : Type ℓ} where
  read_cells-section :
      (n : ℕ) (triangles : List (Array3 ℕ)) (rounds : ℕ) (rest : List (Line W))
      → read_cells (
          blank
          ∷ cells_header (length triangles * rounds) (length triangles * rounds * 7)
          ∷ (wedge_lines n triangles rounds 0 ++ rest))
        ≡ some (wedges n triangles rounds 0, rest)
  unfolding read_cells
  read_cells-section n triangles rounds rest =
      let sized : (length triangles * rounds * 7 == length triangles * rounds * 7) ≡ true =
        (==_iff _ _).1 refl in
      rw (sized, read_wedges-wedge_lines n triangles rounds 0 rest)

  read_cell_types-section :
      (n m : ℕ) (rest : List (Line W))
      → m ≡ n
      → read_cell_types n (blank ∷ types_header m ∷ (replicate m (cell_type 13) ++ rest))
        ≡ some (tt, rest)
  unfolding read_cell_types
  read_cell_types-section n m rest p =
      let sized : (m == n) ≡ true = (==_iff m n).1 p in rw (sized, read_types-replicate m rest)

  read_mesh-sections :
      (vertices vectors : List (Array3 (Numeral W))) (cells : List (Array3 ℕ × Array3 ℕ))
      (lines lines' lines'' : List (Line W))
      → read_cells lines ≡ some (cells, lines')
      → read_cell_types (length cells) lines' ≡ some (tt, lines'')
      → read_vectors (length vertices) lines'' ≡ some (vectors, [])
      → read_mesh vertices lines
        ≡ some (record { vertices = vertices; cells = cells; vectors = vectors }, [])
  unfolding read_mesh
  read_mesh-sections vertices vectors cells lines lines' lines'' e f g = rw (e, f, g)

  -- The header's texts are the ones that the reader wants.
  read_file-sections :
      (points : List (CartesianPoint W)) (lines : List (Line W)) (mesh : Mesh (Numeral W))
      → read_mesh (vertices_of points) lines ≡ some (mesh, [])
      → read (
          text "# vtk DataFile Version 3.0"
          ∷ text "TPC Analytics Field Data"
          ∷ text "ASCII"
          ∷ text "DATASET UNSTRUCTURED_GRID"
          ∷ points_header (length points)
          ∷ (map point_line points ++ lines))
        ≡ some mesh
  unfolding read read_file read_header read_text read_points
  read_file-sections points lines mesh e = rw (read_triples-points points lines, e, read)

module _ {ℓ} {W : Type ℓ} ⦃d : Double W⦄ where
  -- The same with the numerals as they are printed.
  pub read-document_printed :
      (points : List (CartesianPoint W)) (points_per_layer layer_count : ℕ)
      (triangles : List (Array3 ℕ)) (coordinates field : List (Array3 W))
      → length points ≡ length field
      → length coordinates ≡ length field
      → read (
          document points points_per_layer layer_count triangles
            (buffer coordinates)
            (buffer field))
        ≡ some (record {
          vertices = vertices_of points;
          cells = wedges points_per_layer triangles (layer_count - 1) 0;
          vectors = vectors_of coordinates field;
        })
  unfolding document
  read-document_printed points points_per_layer layer_count triangles coordinates field p q =
      let cells = wedges points_per_layer triangles (layer_count - 1) 0 in
      let counted = length-wedges points_per_layer triangles (layer_count - 1) 0 in
      read_file-sections points _ _ (
        read_mesh-sections (vertices_of points) (vectors_of coordinates field) cells _ _ _
          (read_cells-section points_per_layer triangles (layer_count - 1) _)
          (read_cell_types-section (length cells) (length triangles * (layer_count - 1)) _
            (sym counted))
          (subst
            (λ k.
              read_vectors k (
                blank
                ∷ point_data_header (length points)
                ∷ text "VECTORS MagneticField double"
                ∷ vector_lines (buffer coordinates) (buffer field))
              ≡ some (vectors_of coordinates field, []))
            (sym (length-vertices_of points))
            (read_vectors-section (length points) coordinates field p q)))

  -- The points and the field as a reader of ten digits finds them.
  module _ (rounded : ℕ → W → W) where
    abbrev pub rounded_points : List (CartesianPoint W) → List (Array3 W)
    rounded_points [] = []
    rounded_points (p ∷ ps) = (rounded 10 p.x, rounded 10 p.y, rounded 10 p.z) ∷ rounded_points ps

    -- Cylindric field values in Cartesian components, each at the angle of its own point.
    abbrev pub rounded_vectors : List (Array3 W) → List (Array3 W) → List (Array3 W)
    rounded_vectors ((r, phi, z) ∷ coordinates) ((br, bphi, bz) ∷ field) =
        let (bx, by) = rotate phi br bphi in
        (rounded 10 bx, rounded 10 by, rounded 10 bz) ∷ rounded_vectors coordinates field
    rounded_vectors _ _ = []

    doubles_of-vertices_of :
        (points : List (CartesianPoint W))
        → doubles_of rounded (vertices_of points) ≡ rounded_points points
    doubles_of-vertices_of [] = refl
    doubles_of-vertices_of (p ∷ points) = rw (doubles_of-vertices_of points)

    doubles_of-vectors_of :
        (coordinates field : List (Array3 W))
        → doubles_of rounded (vectors_of coordinates field) ≡ rounded_vectors coordinates field
    doubles_of-vectors_of [] field = refl
    doubles_of-vectors_of (p ∷ coordinates) [] = refl
    doubles_of-vectors_of (p ∷ coordinates) (b ∷ field) =
        rw (doubles_of-vectors_of coordinates field)

    -- Let `rounded` give, by the precision and a double, what is read back from its digits. If there are as
    -- many points and coordinates as field values, a reader of the format accepts the exporter's text to
    -- its end, and finds the points rounded to ten digits, a wedge for each triangle between each two
    -- neighbouring layers, and the vectors of the field rounded to ten digits: all the announced numbers of
    -- lines are right.
    pub read-document :
        (points : List (CartesianPoint W)) (points_per_layer layer_count : ℕ)
        (triangles : List (Array3 ℕ)) (coordinates field : List (Array3 W))
        → length points ≡ length field
        → length coordinates ≡ length field
        → read_doubles rounded (
            document points points_per_layer layer_count triangles
              (buffer coordinates)
              (buffer field))
          ≡ some (record {
            vertices = rounded_points points;
            cells = wedges points_per_layer triangles (layer_count - 1) 0;
            vectors = rounded_vectors coordinates field;
          })
    read-document points points_per_layer layer_count triangles coordinates field p q =
        let whole =
          read-document_printed points points_per_layer layer_count triangles coordinates field p
            q in
        ap (map_mesh rounded) whole
        ∙ rw (doubles_of-vertices_of points, doubles_of-vectors_of coordinates field)
