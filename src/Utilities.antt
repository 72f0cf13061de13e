-- ===== src/Utilities.antt =====
-- include/tpc/utilities: event handlers, views of a buffer by chunks, functions with a header.
pub mod EventHandler
pub mod ChunkView
pub mod HeaderFunction
