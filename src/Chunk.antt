-- ===== src/Chunk.antt =====
-- src/chunk.rs: a chunk is split into segments, and each segment decoded by itself. `Defs` has
-- the code, `Splits` a theorem on `split_chunk`.
pub mod Defs
pub mod Splits
pub mod Within
pub mod Streams
pub mod Walks
pub mod Segments
pub mod Whole
