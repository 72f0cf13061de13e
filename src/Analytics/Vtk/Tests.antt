-- ===== src/Analytics/Vtk/Tests.antt =====
-- A small cylinder: two layers of four points, in rows of one, two and one.
use tpc_api.Prelude.{
  ℕ, ◌*◌, ◌/◌, ◌≤◌, ◌<◌, ◌≡◌, refl, true, false, none, some, List, [], ◌∷◌, ◌++◌, arith, ltb,
  if◌then◌else◌, length, All, returned, loop,
}
use tpc_api.Prelude.Int.{ℤ, pos, negsuc}
use tpc_api.Prelude.Defined.{IsDefined, advance}
use tpc_api.Double.Fixed.{fixed}
use tpc_api.Analytics.Models.{Array3, buffer}
use tpc_api.Analytics.Vtk.Points.{
  CartesianPoint, Row, to_points, approximately_equal, first_layer_end, find_layers, check_point,
  check_layer, check_layers, row_end, rows_from, find_rows,
}
use tpc_api.Analytics.Vtk.Rows.{Tiles, find_rows-Tiles}
use tpc_api.Analytics.Vtk.Triangulation.{
  add_triangle, takes_lower, strip_from, strip, strips, triangulate,
}
use tpc_api.Analytics.Vtk.Strips.{IsTriangle, strips-IsTriangle}
use tpc_api.Analytics.Vtk.Document.{document}
use tpc_api.Analytics.Vtk.Reader.{read_doubles}
use tpc_api.Analytics.Vtk.Wedges.{wedges}
use tpc_api.Analytics.Vtk.RoundTrip.{rounded_points, rounded_vectors, read-document}
use tpc_api.Analytics.Vtk.Export.{Disk, mesh_document, prepare, write_file, export_3d_field_to_vtk}
use tpc_api.Analytics.Vtk.Sound.{Exported, export_3d_field_to_vtk-Exported}

-- South, west, east and north of the axis, at one height.
abbrev ring : ℕ → List (Array3 ℤ)
ring height =
    (pos 1000, pos 3000, pos height)
    ∷ (pos 1000, pos 2000, pos height)
    ∷ (pos 1000, pos 0, pos height)
    ∷ (pos 1000, pos 1000, pos height)
    ∷ []

abbrev drum : List (Array3 ℤ)
drum = ring 0 ++ ring 1000

abbrev drum_points : List (CartesianPoint ℤ)
drum_points =
    record { x = pos 0; y = negsuc 999; z = pos 0 }
    ∷ record { x = negsuc 999; y = pos 0; z = pos 0 }
    ∷ record { x = pos 1000; y = pos 0; z = pos 0 }
    ∷ record { x = pos 0; y = pos 1000; z = pos 0 }
    ∷ record { x = pos 0; y = negsuc 999; z = pos 1000 }
    ∷ record { x = negsuc 999; y = pos 0; z = pos 1000 }
    ∷ record { x = pos 1000; y = pos 0; z = pos 1000 }
    ∷ record { x = pos 0; y = pos 1000; z = pos 1000 }
    ∷ []

converted : to_points (buffer drum) ≡ drum_points
unfolding to_points
converted = refl

abbrev drum_rows : List Row
drum_rows =
    record { begin = 0; end = 1 }
    ∷ record { begin = 1; end = 3 }
    ∷ record { begin = 3; end = 4 }
    ∷ []

layers_found : find_layers drum_points ≡ returned (4, 2)
unfolding find_layers first_layer_end advance approximately_equal
layers_found = refl

rows_found : find_rows drum_points 4 ≡ returned drum_rows
unfolding find_rows rows_from row_end advance approximately_equal
rows_found = refl

triangulated : triangulate drum_points drum_rows ≡ returned ((0, 2, 1) ∷ (1, 2, 3) ∷ [])
unfolding triangulate strips strip strip_from takes_lower add_triangle approximately_equal
triangulated = refl

find_rows-Tiles_example :
    IsDefined (find_rows drum_points 4)
    × ((rows : List Row)
        → find_rows drum_points 4 ≡ returned rows
        → Tiles 0 rows 4 × (2 ≤ length rows))
find_rows-Tiles_example = find_rows-Tiles drum_points 4 (omega arith)

strips-IsTriangle_example :
    (triangles : List (Array3 ℕ)) × (strips drum_points drum_rows [] ≡ returned triangles)
    × All (IsTriangle 4) triangles
    × (length triangles < 2 * 4)
strips-IsTriangle_example =
    strips-IsTriangle drum_points 4 (omega arith) drum_rows (omega arith)
      ((refl, omega arith, (refl, omega arith, (refl, omega arith, refl))))

-- All three decimals are kept from a precision of 3 on, and none below it.
abbrev to_digits : ℕ → ℤ → ℤ
to_digits precision (pos n) = if ltb precision 3 then pos (n / 1000 * 1000) else pos n
to_digits precision (negsuc n) = if ltb precision 3 then pos 0 else negsuc n

read-document_example :
    read_doubles to_digits
      (document drum_points 4 2 ((0, 2, 1) ∷ (1, 2, 3) ∷ []) (buffer drum) (buffer drum))
    ≡ some (record {
      vertices = rounded_points to_digits drum_points;
      cells = wedges 4 ((0, 2, 1) ∷ (1, 2, 3) ∷ []) 1 0;
      vectors = rounded_vectors to_digits drum drum;
    })
read-document_example =
    read-document to_digits drum_points 4 2 ((0, 2, 1) ∷ (1, 2, 3) ∷ []) drum drum refl refl

abbrev empty_disk : Disk ℤ
empty_disk = record {
  has_parent_path = λ path. false;
  create_directories = λ path. none;
  opens = λ path. true;
  writes = λ path lines. true;
  path_string = λ path. path;
  to_string = λ n. "n";
}

succeeds :
    (export_3d_field_to_vtk empty_disk (buffer drum) (buffer drum) "drum.vtk").1 ≡ returned tt
unfolding export_3d_field_to_vtk prepare mesh_document write_file find_layers first_layer_end
    advance approximately_equal check_layers check_layer check_point find_rows rows_from row_end
    triangulate strips strip strip_from takes_lower add_triangle to_points loop
succeeds = refl

export_3d_field_to_vtk-Exported_example :
    Exported "drum.vtk" 8 (export_3d_field_to_vtk empty_disk (buffer drum) (buffer drum) "drum.vtk")
export_3d_field_to_vtk-Exported_example =
    export_3d_field_to_vtk-Exported empty_disk (buffer drum) (buffer drum) "drum.vtk"
