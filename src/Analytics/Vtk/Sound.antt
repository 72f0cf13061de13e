-- ===== src/Analytics/Vtk/Sound.antt =====
-- What the export writes, whatever it is given.
use tpc_api.Double.{Double}
use tpc_api.Prelude.{
  ℕ, ◌*◌, ◌/◌, ◌%◌, ◌≤◌, String, ◌≡◌, refl, sym, ap, subst, inl, inr, Bool, not, Option, none, some,
  List, [], ◌∷◌, ◌++◌, arith, ◌==◌, if◌then◌else◌, Bool-cases, length, All, All-append, ◌>>◌,
  Outcome, returned, thrown, failed, undefined, fail_if, is_empty, attempt,
}
use tpc_api.Prelude.{string_eq}
use tpc_api.Prelude.Defined.{
  Ensures, IsDefined, Ensures-guard, attempt-Ensures, fail_if-IsDefined, fail_if-IsDefined,
}
use Prim.Native.String.{◌++◌ as concat}
use tpc_api.Analytics.Models.{Array3, buffer}
use tpc_api.Analytics.FieldCollection.Transform.{length-buffer}
use tpc_api.Analytics.Vtk.Points.{to_points}
use tpc_api.Analytics.Vtk.Document.{Line}
use tpc_api.Analytics.Vtk.Export.{
  Disk, FileAction, made_directories, attempted_write, mesh_document, prepare, size_error,
  directories, directory_error, write_file, export_3d_field_to_vtk,
}
use tpc_api.Analytics.Vtk.Meshes.{IsMeshText, mesh_document-IsMeshText}

directory_error-IsDefined : (o : Option String) → IsDefined (directory_error o)
directory_error-IsDefined none = tt
directory_error-IsDefined (some message) = tt

-- A buffer whose size is a multiple of three is one of triples.
buffer_of {ℓ} :
    {W : Type ℓ} (xs : List W) → length xs % 3 ≡ 0 → (ps : List (Array3 W)) × (xs ≡ buffer ps)
buffer_of [] h = ([], refl)
buffer_of (x ∷ []) h = absurd (omega arith)
buffer_of (x ∷ y ∷ []) h = absurd (omega arith)
buffer_of (x ∷ y ∷ z ∷ xs) h =
    let (ps, e) = buffer_of xs (omega arith) in ((x, y, z) ∷ ps, ap (λ l. x ∷ y ∷ z ∷ l) e)

module _ {ℓ} {W : Type ℓ} ⦃d : Double W⦄ where
  -- The stages from the points on, for two buffers of as many triples.
  buffers-IsMeshText :
      (coordinates field : List W)
      → length coordinates % 3 ≡ 0
      → 1 ≤ length coordinates
      → length field ≡ length coordinates / 3 * 3
      → Ensures
          (IsMeshText (length coordinates / 3))
          (mesh_document (to_points coordinates) coordinates field)
  buffers-IsMeshText coordinates field whole filled complete =
      let (cs, p) = buffer_of coordinates whole in
      let (fs, q) = buffer_of field (omega arith) in
      let in_points = ap length p in
      let in_field = ap length q in
      let counts = length-buffer cs in
      let field_counts = length-buffer fs in
      let same : length cs ≡ length fs = omega arith in
      let points_counted : length fs ≡ length coordinates / 3 = omega arith in
      let meshed = mesh_document-IsMeshText cs fs same (omega arith) in
      subst (λ k. Ensures (IsMeshText k) (mesh_document (to_points coordinates) coordinates field))
        points_counted
        (subst (λ xs. Ensures (IsMeshText (length fs)) (mesh_document (to_points xs) xs field))
          (sym p)
          (subst
            (λ xs.
              Ensures (IsMeshText (length fs))
                (mesh_document (to_points (buffer cs)) (buffer cs) xs))
            (sym q) meshed))

  prepare-IsMeshText :
      (to_string : ℕ → String) (field coordinates : List W) (file_path : String)
      → Ensures
          (IsMeshText (length coordinates / 3))
          (prepare to_string field coordinates file_path)
  unfolding prepare
  prepare-IsMeshText to_string field coordinates file_path =
      let n : ℕ = length coordinates / 3 in
      let ragged : Bool = not (length coordinates % 3 == 0) in
      let differs : Bool = not (length field == n * 3) in
      let no_path : Bool = string_eq.beq file_path "" in
      let lines = mesh_document (to_points coordinates) coordinates field in
      let last = fail_if no_path "File path is empty" >> lines in
      let sized = fail_if differs (size_error to_string (n * 3) (length field)) >> last in
      Ensures-guard (IsMeshText n) (is_empty coordinates) "Coordinates data is empty"
        (fail_if ragged "Coordinates data size must be divisible by 3" >> sized)
        λ some_points.
          Ensures-guard (IsMeshText n) ragged "Coordinates data size must be divisible by 3" sized
            λ whole.
              Ensures-guard (IsMeshText n) differs (size_error to_string (n * 3) (length field))
                last
                λ fits. Ensures-guard (IsMeshText n) no_path "File path is empty" lines λ named.
                  buffers-IsMeshText coordinates field (ground arith) (ground arith) (ground arith)

  -- What the export may do to the disk: make directories for the path, and write the text of a mesh
  -- over `n` points to it.
  abbrev pub IsSound : String → ℕ → FileAction W → Type ℓ
  IsSound file_path n (made_directories p) = (p ≡ file_path) × Unit
  IsSound file_path n (attempted_write p lines) = (p ≡ file_path) × IsMeshText n lines

  abbrev pub Exported : String → ℕ → List (FileAction W) × Outcome (Unit {0}) → Type ℓ
  Exported file_path n (actions, returned u) =
      All (IsSound file_path n) actions
      × ((earlier : List (FileAction W)) × (lines : List (Line W)) × (actions
            ≡ earlier ++ (attempted_write file_path lines ∷ [])))
  Exported file_path n (actions, failed e) = All (IsSound file_path n) actions
  Exported file_path n (actions, thrown x) = ⊥ × Unit
  Exported file_path n (actions, undefined) = ⊥ × Unit

  directories-IsSound :
      (disk : Disk W) (file_path : String) (n : ℕ)
      → All (IsSound file_path n) (directories disk file_path)
  directories-IsSound disk file_path n = elim (Bool-cases (disk.has_parent_path file_path)) [
    | inl nested ↦ rw nested ((refl, tt), tt)
    | inr flat ↦ rw flat tt
  ]

  created-IsDefined :
      (disk : Disk W) (file_path : String)
      → IsDefined (
          if disk.has_parent_path file_path
          then directory_error (disk.create_directories file_path)
          else returned tt)
  created-IsDefined disk file_path = elim (Bool-cases (disk.has_parent_path file_path)) [
    | inl nested ↦ rw nested (directory_error-IsDefined (disk.create_directories file_path))
    | inr flat ↦ rw flat tt
  ]

  write_file-Exported :
      (disk : Disk W) (file_path : String) (n : ℕ) (lines : List (Line W))
      → IsMeshText n lines
      → Exported file_path n (write_file disk file_path lines)
  unfolding write_file
  write_file-Exported disk file_path n lines h =
      let made = directories disk file_path in
      let sound = directories-IsSound disk file_path n in
      let created : Outcome (Unit {0}) =
        if disk.has_parent_path file_path
        then directory_error (disk.create_directories file_path)
        else returned tt in
      let unopened : Outcome (Unit {0}) =
        fail_if (not (disk.opens file_path))
          (concat "Failed to open file for writing: " (disk.path_string file_path)) in
      let streamed : Unit {0} → List (FileAction W) × Outcome (Unit {0}) = λ _. (
        made ++ (attempted_write file_path lines ∷ []),
        fail_if (not (disk.writes file_path lines)) "I/O error while writing VTK file",
      ) in
      attempt-Ensures (λ _. Unit {0}) (Exported file_path n) made created
        (λ _. attempt made unopened streamed) (created-IsDefined disk file_path) (λ e. sound)
        λ _ _.
          attempt-Ensures (λ _. Unit {0}) (Exported file_path n) made unopened streamed
            (fail_if-IsDefined _ _) (λ e. sound)
            λ _ _.
              let all =
                All-append (IsSound file_path n) made (attempted_write file_path lines ∷ []) sound
                  ((refl, h), tt) in
              elim (Bool-cases (disk.writes file_path lines)) [
                | inl good ↦ rw good (all, (made, lines, refl))
                | inr bad ↦ rw bad all
              ]

  -- Whatever it is given, the export throws nothing and reads nothing out of range. It makes
  -- directories for its own path only and writes to that path only, and the text that it hands to the
  -- stream is one that a reader of the format accepts: a mesh with a vector at each of the points, whose
  -- wedges have three different points of the mesh at the bottom and at the top. If the export succeeds,
  -- that text is the last thing written.
  pub export_3d_field_to_vtk-Exported :
      (disk : Disk W) (field coordinates : List W) (file_path : String)
      → Exported file_path
          (length coordinates / 3)
          (export_3d_field_to_vtk disk field coordinates file_path)
  unfolding export_3d_field_to_vtk
  export_3d_field_to_vtk-Exported disk field coordinates file_path =
      attempt-Ensures (IsMeshText (length coordinates / 3))
        (Exported file_path (length coordinates / 3)) []
        (prepare disk.to_string field coordinates file_path) (write_file disk file_path)
        (prepare-IsMeshText disk.to_string field coordinates file_path) (λ e. tt)
        λ lines h. write_file-Exported disk file_path (length coordinates / 3) lines h
