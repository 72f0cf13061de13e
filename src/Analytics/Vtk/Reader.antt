-- ===== src/Analytics/Vtk/Reader.antt =====
-- A reader of VTK files, written after the format and not after the exporter: it takes as many
-- lines of each section as the section's header announces, and refuses any other text.
use tpc_api.Prelude.{
  ℕ, zero, suc, ◌*◌, String, ◌&&◌, Option, none, some, List, [], ◌∷◌, ◌==◌, if◌then◌else◌, length,
}
use tpc_api.Prelude.{string_eq}
use tpc_api.Analytics.Models.{Array3}
use tpc_api.Analytics.Vtk.Document.{
  Numeral, scientific, Line, text, blank, points_header, triple, cells_header, wedge, types_header,
  cell_type, point_data_header,
}

-- Points, wedges by their six corners, and a vector for each point.
pub record Mesh {ℓ} (W : Type ℓ) : Type ℓ where
  pub vertices : List (Array3 W)
  pub cells : List (Array3 ℕ × Array3 ℕ)
  pub vectors : List (Array3 W)

-- What was read, and the lines behind it.
abbrev pub Parse {ℓ κ} : Type ℓ → Type κ → Type (ℓ ⊔ κ)
Parse W A = Option (A × List (Line W))

infixl 5 ◌then_read◌
abbrev pub ◌then_read◌ {ℓ κ ρ} :
    {W : Type ℓ} {A : Type κ} {B : Type ρ} → Parse W A → (A → List (Line W) → Parse W B) → Parse W B
none then_read f = none
some (a, rest) then_read f = f a rest

module _ {ℓ} {W : Type ℓ} where
  unfoldable pub read_text : String → List (Line W) → Parse W (Unit {0})
  read_text s (text t ∷ rest) = if string_eq.beq t s then some (tt, rest) else none
  read_text s _ = none

  unfoldable pub read_triples : ℕ → List (Line W) → Parse W (List (Array3 (Numeral W)))
  read_triples zero lines = some ([], lines)
  read_triples (suc n) (triple a b c ∷ lines) =
      read_triples n lines then_read λ rest lines'. some ((a, b, c) ∷ rest, lines')
  read_triples (suc n) _ = none

  unfoldable pub read_wedges : ℕ → List (Line W) → Parse W (List (Array3 ℕ × Array3 ℕ))
  read_wedges zero lines = some ([], lines)
  read_wedges (suc n) (wedge lower upper ∷ lines) =
      read_wedges n lines then_read λ rest lines'. some ((lower, upper) ∷ rest, lines')
  read_wedges (suc n) _ = none

  -- All cells are wedges, VTK_WEDGE = 13.
  unfoldable pub read_types : ℕ → List (Line W) → Parse W (Unit {0})
  read_types zero lines = some (tt, lines)
  read_types (suc n) (cell_type k ∷ lines) = if k == 13 then read_types n lines else none
  read_types (suc n) _ = none

  unfoldable pub read_points : List (Line W) → Parse W (List (Array3 (Numeral W)))
  read_points (points_header n ∷ lines) = read_triples n lines
  read_points _ = none

  -- A wedge has six corners, and its line seven numbers.
  unfoldable pub read_cells : List (Line W) → Parse W (List (Array3 ℕ × Array3 ℕ))
  read_cells (blank ∷ cells_header n size ∷ lines) =
      if size == n * 7 then read_wedges n lines else none
  read_cells _ = none

  unfoldable pub read_cell_types : ℕ → List (Line W) → Parse W (Unit {0})
  read_cell_types n (blank ∷ types_header m ∷ lines) = if m == n then read_types m lines else none
  read_cell_types n _ = none

  unfoldable pub read_vectors : ℕ → List (Line W) → Parse W (List (Array3 (Numeral W)))
  read_vectors n (blank ∷ point_data_header m ∷ text name ∷ lines) =
      if m == n && string_eq.beq name "VECTORS MagneticField double"
      then read_triples m lines
      else none
  read_vectors n _ = none

  -- The cells and the vectors after the points.
  unfoldable pub read_mesh : List (Array3 (Numeral W)) → List (Line W) → Parse W (Mesh (Numeral W))
  read_mesh vertices lines = read_cells lines then_read λ cells lines'.
      read_cell_types (length cells) lines' then_read λ u lines''.
      read_vectors (length vertices) lines'' then_read λ vectors rest.
      some (record { vertices = vertices; cells = cells; vectors = vectors }, rest)

  unfoldable pub read_header : List (Line W) → Parse W (Unit {0})
  read_header lines = read_text "# vtk DataFile Version 3.0" lines then_read λ u lines'.
      read_text "TPC Analytics Field Data" lines' then_read λ u' lines''.
      read_text "ASCII" lines'' then_read λ u'' rest. read_text "DATASET UNSTRUCTURED_GRID" rest

  unfoldable pub read_file : List (Line W) → Parse W (Mesh (Numeral W))
  read_file lines = read_header lines then_read λ u lines'.
      read_points lines' then_read λ vertices lines''. read_mesh vertices lines''

  -- A whole file: nothing may follow the vectors.
  unfoldable pub read : List (Line W) → Option (Mesh (Numeral W))
  read lines = elim (read_file lines) [ some (mesh, []) ↦ some mesh | _ ↦ none ]

  -- The doubles of a mesh: `rounded` is the value that is read back from the digits of another one, by the
  -- precision with which it was printed.
  module _ (rounded : ℕ → W → W) where
    abbrev pub double_of : Numeral W → W
    double_of (scientific precision value) = rounded precision value

    abbrev pub doubles_of : List (Array3 (Numeral W)) → List (Array3 W)
    doubles_of [] = []
    doubles_of ((a, b, c) ∷ rest) = (double_of a, double_of b, double_of c) ∷ doubles_of rest

    abbrev pub mesh_of : Mesh (Numeral W) → Mesh W
    mesh_of mesh = record {
      vertices = doubles_of mesh.vertices;
      cells = mesh.cells;
      vectors = doubles_of mesh.vectors;
    }

    abbrev pub map_mesh : Option (Mesh (Numeral W)) → Option (Mesh W)
    map_mesh none = none
    map_mesh (some mesh) = some (mesh_of mesh)

    abbrev pub read_doubles : List (Line W) → Option (Mesh W)
    read_doubles lines = map_mesh (read lines)
