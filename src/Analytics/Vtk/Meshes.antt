-- ===== src/Analytics/Vtk/Meshes.antt =====
-- The text that the export makes is that of a mesh.
use tpc_api.Double.{Double}
use tpc_api.Prelude.{
  ℕ, zero, suc, ◌+◌, ◌-◌, ◌*◌, ◌/◌, ◌≤◌, String, ◌≡◌, refl, ap, ◌∙◌, inl, inr, Bool, some, List, [],
  ◌∷◌, map, arith, size_max, ltb, Bool-cases, length, All, All-append, ◌>>◌, returned, fail_if,
  is_empty,
}
use tpc_api.Prelude.{string_eq}
use tpc_api.Prelude.Defined.{Ensures, defined-Ensures, Ensures->>=, Ensures-guard}
use tpc_api.Analytics.Models.{Array3, buffer}
use tpc_api.Analytics.Vtk.Points.{
  CartesianPoint, Row, to_points, find_layers, check_layers, find_rows,
}
use tpc_api.Analytics.Vtk.Rows.{Tiles, find_layers_lem, find_rows-Tiles, check_layers-IsDefined}
use tpc_api.Analytics.Vtk.Triangulation.{triangulate}
use tpc_api.Analytics.Vtk.Strips.{IsTriangle, strips-IsTriangle}
use tpc_api.Analytics.Vtk.Document.{Numeral, Line, shifted, document}
use tpc_api.Analytics.Vtk.Reader.{Mesh, read}
use tpc_api.Analytics.Vtk.Wedges.{vertices_of, wedge_at, wedges, length-vertices_of}
use tpc_api.Analytics.Vtk.RoundTrip.{vectors_of, read-document_printed}
use tpc_api.Analytics.Vtk.Export.{mesh_document}

-- A wedge has three different points of the mesh at the bottom, and at the top.
abbrev pub IsWedge : ℕ → Array3 ℕ × Array3 ℕ → Type 0
IsWedge n (lower, upper) = IsTriangle n lower × IsTriangle n upper

-- A mesh over `n` points, with a vector at each of them.
abbrev pub IsMesh {ℓ} : {W : Type ℓ} → ℕ → Mesh W → Type 0
IsMesh n mesh = (length mesh.vertices ≡ n) × (length mesh.vectors ≡ n) × All (IsWedge n) mesh.cells

IsTriangle-shifted :
    (m n offset : ℕ) (triangle : Array3 ℕ)
    → offset + m ≤ n
    → IsTriangle m triangle
    → IsTriangle n (shifted offset triangle)
IsTriangle-shifted m n offset (a, b, c) h (ha, hb, hc, ab, bc, ac) = (
  omega arith,
  omega arith,
  omega arith,
  λ e. ab (omega arith),
  λ e. bc (omega arith),
  λ e. ac (omega arith),
)

layer-IsWedge :
    (m n layer : ℕ) (triangles : List (Array3 ℕ))
    → layer * m + m + m ≤ n
    → All (IsTriangle m) triangles
    → All (IsWedge n) (map (wedge_at m layer) triangles)
layer-IsWedge m n layer [] h all = tt
layer-IsWedge m n layer (t ∷ triangles) h (one, rest) = (
  (
    IsTriangle-shifted m n (layer * m) t (omega arith) one,
    IsTriangle-shifted m n (layer * m + m) t h one,
  ),
  layer-IsWedge m n layer triangles h rest,
)

wedges-IsWedge :
    (m n : ℕ) (triangles : List (Array3 ℕ)) (rounds layer : ℕ)
    → (layer + rounds + 1) * m ≤ n
    → All (IsTriangle m) triangles
    → All (IsWedge n) (wedges m triangles rounds layer)
wedges-IsWedge m n triangles zero layer h all = tt
wedges-IsWedge m n triangles (suc rounds) layer h all =
    let room : layer * m + m + m ≤ n = grind arith in
    All-append (IsWedge n) (map (wedge_at m layer) triangles)
      (wedges m triangles rounds (suc layer)) (layer-IsWedge m n layer triangles room all)
      (wedges-IsWedge m n triangles rounds (suc layer) (grind arith) all)

module _ {ℓ} {W : Type ℓ} ⦃d : Double W⦄ where
  length-vectors_of :
      (coordinates field : List (Array3 W))
      → length coordinates ≡ length field
      → length (vectors_of coordinates field) ≡ length field
  length-vectors_of [] [] h = refl
  length-vectors_of [] (f ∷ field) h = absurd (omega arith)
  length-vectors_of (p ∷ coordinates) [] h = absurd (omega arith)
  length-vectors_of (p ∷ coordinates) (f ∷ field) h =
      ap suc (length-vectors_of coordinates field (omega arith))

  length-to_points : (ps : List (Array3 W)) → length (to_points (buffer ps)) ≡ length ps
  unfolding to_points
  length-to_points [] = refl
  length-to_points (p ∷ ps) = ap suc (length-to_points ps)

  triangulate-IsTriangle :
      (points : List (CartesianPoint W)) (n : ℕ) (rows : List Row)
      → n ≤ length points
      → 1 ≤ n
      → Tiles 0 rows n
      → Ensures (All (IsTriangle n)) (triangulate points rows)
  unfolding triangulate
  triangulate-IsTriangle points n rows within h t =
      let (triangles, e, all, few) = strips-IsTriangle points n within rows h t in
      elim (Bool-cases (is_empty triangles)) [
        | inl nothing ↦ rw (e, nothing, triangulate) tt
        | inr some_ ↦ rw (e, some_, triangulate) all
      ]

  -- The lines are the text of a mesh over `n` points.
  abbrev pub IsMeshText : ℕ → List (Line W) → Type ℓ
  IsMeshText n lines = (mesh : Mesh (Numeral W)) × (read lines ≡ some mesh) × IsMesh n mesh

  -- The text for triangles of a layer of `m` points, of which the points have `count` layers.
  document-IsMeshText :
      (coordinates field : List (Array3 W)) (m count : ℕ) (triangles : List (Array3 ℕ))
      → length coordinates ≡ length field
      → 2 ≤ count
      → count * m ≡ length (to_points (buffer coordinates))
      → All (IsTriangle m) triangles
      → IsMeshText (length field) (
          document
            (to_points (buffer coordinates))
            m
            count
            triangles
            (buffer coordinates)
            (buffer field))
  document-IsMeshText coordinates field m count triangles same two covered all =
      let points = to_points (buffer coordinates) in
      let as_many : length points ≡ length field = length-to_points coordinates ∙ same in
      let counts : 0 + (count - 1) + 1 ≡ count = omega arith in
      let room : (0 + (count - 1) + 1) * m ≤ length field = rw counts (omega arith) in
      (
        record {
          vertices = vertices_of points;
          cells = wedges m triangles (count - 1) 0;
          vectors = vectors_of coordinates field;
        },
        read-document_printed points m count triangles coordinates field as_many same,
        (
          length-vertices_of points ∙ as_many,
          length-vectors_of coordinates field same,
          wedges-IsWedge m (length field) triangles (count - 1) 0 room all,
        ),
      )

  -- The stages from the points on are defined, and their text is that of a mesh.
  pub mesh_document-IsMeshText :
      (coordinates field : List (Array3 W))
      → length coordinates ≡ length field
      → 1 ≤ length field
      → Ensures
          (IsMeshText (length field))
          (mesh_document (to_points (buffer coordinates)) (buffer coordinates) (buffer field))
  unfolding mesh_document
  mesh_document-IsMeshText coordinates field same some_points =
      let points = to_points (buffer coordinates) in
      let n : ℕ = length field in
      let as_many : length points ≡ n = length-to_points coordinates ∙ same in
      let (layers_defined, layers_found) = find_layers_lem points (omega arith) in
      Ensures->>=
        (λ (layers : ℕ × ℕ).
          (1 ≤ layers.0) × (2 ≤ layers.1) × (layers.1 * layers.0 ≡ length points))
        (IsMeshText n) (find_layers points) _
        (defined-Ensures _ _ layers_defined (λ layers e. layers_found layers.0 layers.1 e))
        λ layers (positive, two, covered).
          let m = layers.0 in
          let within : m ≤ length points = grind arith in
          let (rows_defined, rows_found) = find_rows-Tiles points m within in
          Ensures->>= (λ _. Unit {0}) (IsMeshText n) (check_layers points m layers.1) _
            (check_layers-IsDefined points m layers.1 covered positive)
            λ _ _.
              Ensures->>= (λ rows. Tiles 0 rows m) (IsMeshText n) (find_rows points m) _
                (defined-Ensures _ _ rows_defined (λ rows e. (rows_found rows e).0))
                λ rows tiles.
                  Ensures->>= (All (IsTriangle m)) (IsMeshText n) (triangulate points rows) _
                    (triangulate-IsTriangle points m rows within positive tiles)
                    λ triangles all.
                      let cell_count : ℕ = length triangles * (layers.1 - 1) in
                      let lines =
                        document points m layers.1 triangles (buffer coordinates) (buffer field) in
                      let too_many : Bool = ltb (size_max / (layers.1 - 1)) (length triangles) in
                      let too_large : Bool = ltb (size_max / 7) cell_count in
                      let message : String = "VTK cell collection is too large" in
                      Ensures-guard (IsMeshText n) too_many message
                        (fail_if too_large message >> returned lines)
                        λ _. Ensures-guard (IsMeshText n) too_large message (returned lines) λ _.
                          document-IsMeshText coordinates field m layers.1 triangles same two
                            covered all
