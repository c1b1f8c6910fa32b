-- ===== src/Reader.antt =====
-- src/reader.rs: the readers that give the output piece by piece. `Batches` is `ParallelBz2Read`,
-- and `Pieces` and `Whole` about its reads; `Streaming` is `StreamingBz2Read`, and `Slices`, `Loads` and `Last`
-- are about its read that reaches the end of the source.
pub mod Batches
pub mod Streaming
pub mod Slices
pub mod Loads
pub mod Last
pub mod Pieces
pub mod Whole
