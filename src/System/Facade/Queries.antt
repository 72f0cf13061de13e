-- ===== src/System/Facade/Queries.antt =====
-- src/system/tpc.cpp: `is_running`, `get_field_slice` and `export_to_vtk`.
use tpc_api.Double.{Double}
use tpc_api.Prelude.{ℕ, String, Bool, List, [], if◌then◌else◌, Outcome, failed}
use tpc_api.Prelude.{string_eq}
use tpc_api.Analytics.Models.{SliceDirection, FieldSlice}
use tpc_api.Analytics.Manager.Slice.{evaluate_field_slice}
use tpc_api.Analytics.Manager.Export.{export_to_vtk_file}
use tpc_api.Analytics.Vtk.Export.{Disk, FileAction}
use tpc_api.System.Connection
use tpc_api.System.Connection.{Connection}
use Prim.Native.String.{◌++◌ as concat}
use tpc_api.System.Facade.Factory.{Facade}

-- An error gets a prefix; all else is passed on.
abbrev pub prefixed : Outcome (Unit {0}) → Outcome (Unit {0})
prefixed (failed error) = failed (concat "Exporting vtk file failed: " error)
prefixed outcome = outcome

module _ {ℓ κ ρ} {U : Type ℓ} {N : Type κ} {W : Type ρ} where
  unfoldable pub is_running : Facade U N W → Bool
  is_running facade = Connection.is_running facade.client.connection

  module _ ⦃d : Double W⦄ where
    unfoldable pub get_field_slice :
        Facade U N W → SliceDirection → W → ℕ × ℕ → W → W → (ℕ → Bool) → Outcome (FieldSlice W)
    get_field_slice facade = evaluate_field_slice facade.field_worker.manager

    -- `overlapped` says whether the field worker calculates meanwhile.
    unfoldable pub export_to_vtk :
        Disk W → String → Bool → Facade U N W → String → List (FileAction W) × Outcome (Unit {0})
    export_to_vtk disk bad_optional_access overlapped facade file_path =
        if string_eq.beq file_path ""
        then ([], failed "File path is empty")
        else let (actions, outcome) =
            export_to_vtk_file disk bad_optional_access overlapped facade.field_worker.manager
              file_path in
          (actions, prefixed outcome)
