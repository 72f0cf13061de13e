-- ===== src/Analytics/Vtk/Export.antt =====
-- `VtkFieldExporter::export_3d_field_to_vtk`: the checks and stages up to the text, and the file.
use tpc_api.Double.{Double}
use tpc_api.Prelude.{
  ℕ, ◌-◌, ◌*◌, ◌/◌, ◌%◌, String, Bool, not, Option, none, some, List, [], ◌∷◌, ◌++◌, size_max, ltb,
  ◌==◌, if◌then◌else◌, length, ◌>>=◌, ◌>>◌, Outcome, returned, failed, fail_if, is_empty, attempt,
}
use tpc_api.Prelude.{string_eq}
use tpc_api.Analytics.Vtk.Points.{CartesianPoint, to_points, find_layers, check_layers, find_rows}
use tpc_api.Analytics.Vtk.Triangulation.{triangulate}
use tpc_api.Analytics.Vtk.Document.{Line, document}
use Prim.Native.String.{◌++◌ as concat}

-- `std::filesystem` and the output stream, which are no code of the repository: `create_directories`
-- gives the message of its error, `opens` is `is_open()`, and `writes` the state of the stream after
-- all lines and `flush()`. `to_string` is how `std::format` writes a number.
pub record Disk {ℓ} (W : Type ℓ) : Type ℓ where
  pub has_parent_path : String → Bool
  pub create_directories : String → Option String
  pub opens : String → Bool
  pub writes : String → List (Line W) → Bool
  pub path_string : String → String
  pub to_string : ℕ → String

-- What is done to the disk: the directories that the export asks for, and the lines that it hands to the
-- stream of a file. All of them are in the file just if `writes` says so; else it may hold some only.
pub data FileAction {ℓ} (W : Type ℓ) : Type ℓ where
  made_directories : String → FileAction W
  attempted_write : String → List (Line W) → FileAction W

abbrev pub size_error : (ℕ → String) → ℕ → ℕ → String
size_error to_string wanted given =
    concat "Field data must contain "
      (concat (to_string wanted) (concat " values, but contains " (to_string given)))

-- `if (ec) return std::unexpected(…);`
abbrev pub directory_error : Option String → Outcome (Unit {0})
directory_error none = returned tt
directory_error (some message) = failed (concat "Failed to create directory: " message)

module _ {ℓ} {W : Type ℓ} ⦃d : Double W⦄ where
  -- The stages from the points on.
  unfoldable pub mesh_document : List (CartesianPoint W) → List W → List W → Outcome (List (Line W))
  mesh_document points coordinates field = do
    layers ← find_layers points
    check_layers points layers.0 layers.1
    rows ← find_rows points layers.0
    triangles ← triangulate points rows
    fail_if (ltb (size_max / (layers.1 - 1)) (length triangles)) "VTK cell collection is too large"
    fail_if (ltb (size_max / 7) (length triangles * (layers.1 - 1)))
        "VTK cell collection is too large"
    returned (document points layers.0 layers.1 triangles coordinates field)

  unfoldable pub prepare : (ℕ → String) → List W → List W → String → Outcome (List (Line W))
  prepare to_string field coordinates file_path = do
    fail_if (is_empty coordinates) "Coordinates data is empty"
    fail_if (not (length coordinates % 3 == 0)) "Coordinates data size must be divisible by 3"
    let num_points = length coordinates / 3
    fail_if (not (length field == num_points * 3))
        (size_error to_string (num_points * 3) (length field))
    fail_if (string_eq.beq file_path "") "File path is empty"
    mesh_document (to_points coordinates) coordinates field

  -- What is done to the disk before the file is opened.
  abbrev pub directories : Disk W → String → List (FileAction W)
  directories disk file_path =
      if disk.has_parent_path file_path then made_directories file_path ∷ [] else []

  unfoldable pub write_file :
      Disk W → String → List (Line W) → List (FileAction W) × Outcome (Unit {0})
  write_file disk file_path lines =
      attempt (directories disk file_path)
        (if disk.has_parent_path file_path
          then directory_error (disk.create_directories file_path)
          else returned tt)
        λ _.
          attempt (directories disk file_path)
            (fail_if (not (disk.opens file_path))
              (concat "Failed to open file for writing: " (disk.path_string file_path)))
            λ _. (
              directories disk file_path ++ (attempted_write file_path lines ∷ []),
              fail_if (not (disk.writes file_path lines)) "I/O error while writing VTK file",
            )

  unfoldable pub export_3d_field_to_vtk :
      Disk W → List W → List W → String → List (FileAction W) × Outcome (Unit {0})
  export_3d_field_to_vtk disk field coordinates file_path =
      attempt [] (prepare disk.to_string field coordinates file_path) (write_file disk file_path)
