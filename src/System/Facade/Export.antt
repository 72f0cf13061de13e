-- ===== src/System/Facade/Export.antt =====
-- What `TPC::export_to_vtk` does to the disk, and how it ends.
use tpc_api.Prelude.{
  ◌/◌, String, ◌≡◌, Bool, true, false, Option, none, some, List, [], length, std_exception, Outcome,
  thrown, failed, undefined,
}
use tpc_api.Double.{Double}
use tpc_api.Analytics.FieldCollection.{FieldCollection}
use tpc_api.Analytics.Vtk.Export.{FileAction}
use tpc_api.Analytics.Vtk.Sound.{Exported}
use tpc_api.System.Facade.Factory.{Facade}
use Prim.Native.String.{◌++◌ as concat}

-- An error says that the export failed, and why.
abbrev pub IsPrefixed : Outcome (Unit {0}) → Type 0
IsPrefixed (failed error) = (what : String) × (error ≡ concat "Exporting vtk file failed: " what)
IsPrefixed outcome = Unit

module _ {ℓ} {W : Type ℓ} ⦃d : Double W⦄ where
  -- By whether the path is empty, whether the field worker calculates meanwhile, and the field that the
  -- manager has.
  abbrev pub FieldExported :
      String
      → String
      → Bool
      → Bool
      → Option (FieldCollection W)
      → List (FileAction W) × Outcome (Unit {0})
      → Type ℓ
  FieldExported bad_optional_access file_path true overlapped field result =
      result ≡ ([], failed "File path is empty")
  FieldExported bad_optional_access file_path false true field result = result ≡ ([], undefined)
  FieldExported bad_optional_access file_path false false none result =
      result ≡ ([], thrown (std_exception bad_optional_access))
  FieldExported bad_optional_access file_path false false (some c) (actions, outcome) =
      Exported file_path (length c.coordinates / 3) (actions, outcome) × IsPrefixed outcome
