-- ===== src/Analytics/Vtk/Document.antt =====
-- The text of the VTK file, as a list of lines. The digits of a number are the standard library's: a
-- line holds its integers, and of a double the format and the value that the stream is given.
use tpc_api.Double.{Double}
use tpc_api.Prelude.{
  ℕ, zero, suc, ◌+◌, ◌-◌, ◌*◌, String, List, [], ◌∷◌, ◌++◌, map, length, replicate,
}
use tpc_api.Analytics.Models.{Array3, rotate}
use tpc_api.Analytics.Vtk.Points.{CartesianPoint}

-- What a stream prints for a double under `std::scientific` with a precision: so many digits after the
-- point, which determine the value up to a rounding only.
pub data Numeral {ℓ} (W : Type ℓ) : Type ℓ where
  scientific : ℕ → W → Numeral W

pub data Line {ℓ} (W : Type ℓ) : Type ℓ where
  text : String → Line W
  blank : Line W
  points_header : ℕ → Line W
  triple : Numeral W → Numeral W → Numeral W → Line W
  cells_header : ℕ → ℕ → Line W
  wedge : Array3 ℕ → Array3 ℕ → Line W
  types_header : ℕ → Line W
  cell_type : ℕ → Line W
  point_data_header : ℕ → Line W

-- The corners of a triangle in the layer whose points begin at `offset`.
abbrev pub shifted : ℕ → Array3 ℕ → Array3 ℕ
shifted offset (a, b, c) = (offset + a, offset + b, offset + c)

module _ {ℓ} {W : Type ℓ} where
  -- `output << std::scientific << std::setprecision(10)`
  abbrev pub printed : W → Numeral W
  printed = scientific 10

  abbrev pub point_line : CartesianPoint W → Line W
  point_line p = triple (printed p.x) (printed p.y) (printed p.z)

  abbrev pub wedge_line : ℕ → ℕ → Array3 ℕ → Line W
  wedge_line points_per_layer layer triangle =
      let lower_offset = layer * points_per_layer in
      wedge (shifted lower_offset triangle) (shifted (lower_offset + points_per_layer) triangle)

  -- The loop over the layers, `rounds` rounds from `layer` on.
  unfoldable pub wedge_lines : ℕ → List (Array3 ℕ) → ℕ → ℕ → List (Line W)
  wedge_lines points_per_layer triangles zero layer = []
  wedge_lines points_per_layer triangles (suc rounds) layer =
      map (wedge_line points_per_layer layer) triangles
      ++ wedge_lines points_per_layer triangles rounds (suc layer)

module _ {ℓ} {W : Type ℓ} ⦃d : Double W⦄ where
  -- Br, Bphi, Bz -> Bx, By, Bz
  unfoldable pub vector_lines : List W → List W → List (Line W)
  vector_lines (r ∷ phi ∷ z ∷ coordinates) (br ∷ bphi ∷ bz ∷ field) =
      let (bx, by) = rotate phi br bphi in
      triple (printed bx) (printed by) (printed bz) ∷ vector_lines coordinates field
  vector_lines _ _ = []

  unfoldable pub document :
      List (CartesianPoint W) → ℕ → ℕ → List (Array3 ℕ) → List W → List W → List (Line W)
  document points points_per_layer layer_count triangles coordinates field =
      let num_points = length points in
      let cell_count = length triangles * (layer_count - 1) in
      text "# vtk DataFile Version 3.0"
      ∷ text "TPC Analytics Field Data"
      ∷ text "ASCII"
      ∷ text "DATASET UNSTRUCTURED_GRID"
      ∷ points_header num_points
      ∷ (map point_line points
          ++ (blank
              ∷ cells_header cell_count (cell_count * 7)
              ∷ (wedge_lines points_per_layer triangles (layer_count - 1) 0
                  ++ (blank
                      ∷ types_header cell_count
                      ∷ (replicate cell_count (cell_type 13)
                          ++ (blank
                              ∷ point_data_header num_points
                              ∷ text "VECTORS MagneticField double"
                              ∷ vector_lines coordinates field))))))
