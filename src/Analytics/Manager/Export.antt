-- ===== src/Analytics/Manager/Export.antt =====
-- The two `export_to_vtk` of `AnalyticsManager`. The second one, which is given a path, reads the
-- field with `field_data_.value()`.
mod Tests
use tpc_api.Double.{Double}
use tpc_api.Prelude.{
  ℕ, ◌/◌, String, ◌≡◌, sym, subst, inl, inr, Bool, true, false, ◌||◌, Option, none, some, List, [],
  if◌then◌else◌, Bool-cases, length, std_exception, Outcome, thrown, failed, undefined, is_empty,
}
use tpc_api.Analytics.FieldCollection.{FieldCollection}
use tpc_api.Analytics.Manager.{Manager}
use tpc_api.Analytics.Vtk.Export.{Disk, FileAction, export_3d_field_to_vtk}
use tpc_api.Analytics.Vtk.Sound.{Exported, export_3d_field_to_vtk-Exported}

module _ {ℓ} {W : Type ℓ} where
  abbrev pub has_no_data : FieldCollection W → Bool
  has_no_data c = is_empty c.field || is_empty c.coordinates

  -- The number of points of the field, if there is one.
  abbrev pub field_points : Option (FieldCollection W) → ℕ
  field_points none = 0
  field_points (some c) = length c.coordinates / 3

module _ {ℓ} {W : Type ℓ} ⦃d : Double W⦄ (disk : Disk W) where
  unfoldable pub export_collection :
      Option (FieldCollection W) → List (FileAction W) × Outcome (Unit {0})
  export_collection none = ([], failed "Field data is not calculated, cannot export to VTK")
  export_collection (some c) =
      if has_no_data c
      then ([], failed "Field data is empty, cannot export to VTK")
      else export_3d_field_to_vtk disk c.field c.coordinates "output.vtk"

  unfoldable pub export_to_vtk : Manager W → List (FileAction W) × Outcome (Unit {0})
  export_to_vtk m =
      if m.field_data_valid
      then export_collection m.field_data
      else ([], failed "Field data is not calculated, cannot export to VTK")

  -- `bad_optional_access` is what that exception says, which the standard leaves open.
  unfoldable pub export_collection_to :
      String → Option (FieldCollection W) → String → List (FileAction W) × Outcome (Unit {0})
  export_collection_to bad_optional_access none file_path =
      ([], thrown (std_exception bad_optional_access))
  export_collection_to bad_optional_access (some c) file_path =
      if has_no_data c
      then ([], failed "Field data is empty")
      else export_3d_field_to_vtk disk c.field c.coordinates file_path

  -- The field is read without `field_data_mutex_`. `overlapped` says whether a calculation of the field runs
  -- in another thread meanwhile: that is a data race, whose behaviour is undefined.
  unfoldable pub export_to_vtk_file :
      String → Bool → Manager W → String → List (FileAction W) × Outcome (Unit {0})
  export_to_vtk_file bad_optional_access true m file_path = ([], undefined)
  export_to_vtk_file bad_optional_access false m file_path =
      export_collection_to bad_optional_access m.field_data file_path

  pub checked-Exported :
      (c : FieldCollection W) (message file_path : String)
      → Exported file_path (length c.coordinates / 3) (
          if has_no_data c
          then ([], failed message)
          else export_3d_field_to_vtk disk c.field c.coordinates file_path)
  checked-Exported c message file_path = elim (Bool-cases (has_no_data c)) [
    | inl none_ ↦ rw none_ tt
    | inr some_ ↦ rw some_ (export_3d_field_to_vtk-Exported disk c.field c.coordinates file_path)
  ]

  -- Whatever was called before, `export_to_vtk()` throws nothing and writes to "output.vtk" only,
  -- and only the text of a mesh with a vector at each point of the field; and it does nothing to the
  -- disk, and fails, while there is no valid field.
  pub export_to_vtk-Exported :
      (m : Manager W)
      → Exported "output.vtk" (field_points m.field_data) (export_to_vtk m)
        × (m.field_data_valid ≡ false
            → export_to_vtk m ≡ ([], failed "Field data is not calculated, cannot export to VTK"))
  unfolding export_to_vtk export_collection
  export_to_vtk-Exported m = (
    elim (Bool-cases m.field_data_valid) [
      | inl valid ↦ rw valid (go m.field_data)
      | inr stale ↦ rw stale tt
    ],
    λ stale. rw stale,
  )
    where
      go :
          (o : Option (FieldCollection W))
          → Exported "output.vtk" (field_points o) (export_collection o)
      go none = tt
      go (some c) = checked-Exported c _ "output.vtk"

  -- If no calculation runs meanwhile, `export_to_vtk(file_path)` throws std::bad_optional_access if no
  -- field is stored, and does nothing to the disk then; else it throws nothing, and writes to its path only, and only the
  -- text of a mesh with a vector at each point of the field that is stored, also if that field is
  -- not valid.
  pub export_to_vtk_file-Exported :
      (bad_optional_access : String) (m : Manager W) (file_path : String)
      → (m.field_data ≡ none
          → export_to_vtk_file bad_optional_access false m file_path
            ≡ ([], thrown (std_exception bad_optional_access)))
        × ((c : FieldCollection W)
            → m.field_data ≡ some c
            → Exported file_path
                (length c.coordinates / 3)
                (export_to_vtk_file bad_optional_access false m file_path))
  unfolding export_to_vtk_file export_collection_to
  export_to_vtk_file-Exported bad_optional_access m file_path = (
    λ e. rw (e, export_collection_to),
    λ c e.
        subst
          (λ o.
            Exported file_path (length c.coordinates / 3)
              (export_collection_to bad_optional_access o file_path))
          (sym e) (checked-Exported c "Field data is empty" file_path),
  )
