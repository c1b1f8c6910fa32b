-- ===== src/Block.antt =====
-- src/block.rs: the decoder of one block. `Reading` is the chain of fallible reads, `Header` the
-- fields up to the trees, `Symbols` the Huffman, move-to-front and run decoding into `tt`,
-- `Common` their composition with the inverse transform, `Runs` the final run decoding, `Buffers` the
-- pool of vectors; `Tally`, `Safety`, `Used` and `Panics` follow the byte counts through it,
-- `Output` is about the length of the output, `Steady` about the place where a block is read.
pub mod Reading
pub mod Header
pub mod Symbols
pub mod Common
pub mod Tally
pub mod Safety
pub mod Used
pub mod Panics
pub mod Output
pub mod Runs
pub mod Steady
pub mod Buffers
