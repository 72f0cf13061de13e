-- ===== src/Double.antt =====
-- The `double` of the program, as an interface, and an arithmetic that meets it.
pub mod Interface
pub mod Fixed
pub use Interface.*
