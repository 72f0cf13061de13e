-- ===== src/Analytics/Vtk.antt =====
-- include/tpc/analytics/output/vtk_field_exporter.hpp: the export of a field to a VTK file, stage by
-- stage. The points of a layer form rows, the strips between rows are triangulated, and each
-- triangle between two layers is a wedge.
pub mod Points
pub mod Triangulation
pub mod Rows
pub mod Strips
pub mod Document
pub mod Reader
pub mod Wedges
pub mod RoundTrip
pub mod Export
pub mod Meshes
pub mod Sound
mod Tests
