-- ===== src/Analytics/Manager/Export/Tests.antt =====
-- Exports of a manager with and without a field.
use tpc_api.Prelude.{◌≡◌, true, false, none, some, [], ◌∷◌, failed}
use tpc_api.Prelude.Int.{ℤ, pos}
use tpc_api.Double.Fixed.{fixed}
use tpc_api.Analytics.Models.{cylindric}
use tpc_api.Analytics.FieldCollection.{FieldCollection}
use tpc_api.Analytics.Manager.{Manager}
use tpc_api.Analytics.Vtk.Export.{Disk}
use tpc_api.Analytics.Vtk.Sound.{Exported}
use tpc_api.Analytics.Manager.Export.{field_points, export_to_vtk, export_to_vtk-Exported}

abbrev closed_disk : Disk ℤ
closed_disk = record {
  has_parent_path = λ path. true;
  create_directories = λ path. none;
  opens = λ path. false;
  writes = λ path lines. false;
  path_string = λ path. path;
  to_string = λ n. "n";
}

abbrev one_point : FieldCollection ℤ
one_point = record {
  dimension_ = 3;
  coordinates_type = cylindric;
  field_type = cylindric;
  coordinates = pos 1 ∷ pos 2 ∷ pos 3 ∷ [];
  field = pos 4 ∷ pos 5 ∷ pos 6 ∷ [];
}

abbrev stale : Manager ℤ
stale = record {
  basis_collection = record { arity = 3; modes = 1; basis_type = cylindric; basis = [] };
  field_data = some one_point;
  field_data_valid = false;
  stored_coefficients = [];
}

abbrev fresh : Manager ℤ
fresh = record stale { field_data_valid = true }

export_to_vtk-Exported_example :
    Exported "output.vtk" (field_points fresh.field_data) (export_to_vtk closed_disk fresh)
    × (fresh.field_data_valid ≡ false
        → export_to_vtk closed_disk fresh
          ≡ ([], failed "Field data is not calculated, cannot export to VTK"))
export_to_vtk-Exported_example = export_to_vtk-Exported closed_disk fresh
