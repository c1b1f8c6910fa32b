-- ===== src/Huffman.antt =====
-- src/huffman.rs: canonical Huffman trees with a fast table. `Build` has `from_lengths`, `Decode`
-- the two decoding paths, `Fast` is about the entries of the fast table.
pub mod Tree
pub mod Build
pub mod Decode
pub mod Fast
