-- ===== src/Analytics.antt =====
-- include/tpc/analytics: the field models, the basis, the solver, the manager and the exporter.
pub mod Models
pub mod FieldCollection
pub mod Basis
pub mod SvdSolver
pub mod Modes
pub mod Grid
pub mod Vtk
pub mod Manager
