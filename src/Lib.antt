-- ===== src/Lib.antt =====
-- lbzip2-rs, a bzip2 decompressor: a model of its decoder and the theorems about it.
--
-- The program. A bzip2 stream is a 4-byte header and a sequence of blocks, each behind a 48-bit
-- magic at any bit offset. src/bitreader.rs reads bits through a 64-bit buffer; src/block_scan.rs
-- finds the magics; src/block.rs decodes one block: header, Huffman symbols (src/huffman.rs),
-- move-to-front (src/mtf.rs), the inverse Burrows-Wheeler transform (src/bwt.rs) and the final run
-- decoding. src/stream.rs runs over the blocks in order; src/parallel.rs finds all magics first and
-- decodes the blocks with par_map (src/par.rs); src/chunk.rs splits a chunk of input into segments
-- of blocks and decodes one segment, for the command line program.
--
-- The files.
--   Prelude: library names, Boolean tests, lists over the native numbers, and the outcome of a
--     fallible function: ok, an error with its text, or a Rust panic (also an out-of-range read or
--     write through a raw pointer).
--   Bits: the bits of a number, under shifts, masks and OR.
--   BitStream: the input as a sequence of bits, and the specification of a reader, a cursor.
--   BitReader: src/bitreader.rs. The record BitReader is the struct; a method is a function to its
--     result and the new state. Refill, Refinement, Peek, Bit and Skip relate it to the cursor.
--   Magic, Scan: src/lib.rs and src/block_scan.rs. Defs and Split hold the functions of the same
--     names, Window, Next and Found are about find_next_block, All about find_all_blocks, Merge
--     and Chunks about find_all_blocks_parallel.
--   ParMap: src/par.rs. par_map is the sequential path; Threads has the parallel one as a step
--     relation on the counter, the slots and the threads' places, one shared access to a step.
--   Mtf, Bwt, Huffman: src/mtf.rs, src/bwt.rs and src/huffman.rs.
--   Block: src/block.rs. Header, Symbols and Common are decode_block_common in its order; Runs has
--     rle2_decode_alloc, with the capacity of its Vec, and rle2_decode_into; its children Written is
--     what both write where there is room, Alloc, Room, Expansion and Overrun are about the room,
--     RoundTrip about the run encoding. Output says that no block is empty; Buffers has the
--     thread-local pool. Tally, Safety, Used and Panics follow the byte counts from the symbols to
--     the inverse transform; Steady and its children show that a block depends only on the input
--     and the bit at which it starts.
--   Stream: src/stream.rs. Runs is what a stream is, as a relation on the bits of the input; Decoded
--     and Outcome relate decompress to it, and Layout says where its blocks stand.
--   Parallel: src/parallel.rs. Join and Outputs are about the outputs and their order, Whole about
--     the same stream decoded by decompress.
--   Chunk: src/chunk.rs. Splits and Within are about split_chunk, Streams about the end of a stream
--     inside of a segment, Walks and Segments about decode_segment, Whole about a whole stream as
--     one segment.
--   Source: std::io::Read, which is not code of the repository, as a record of its methods on a type
--     of states, and what is documented of it, IsSource; the loop read_chunk of src/bin/lbunzip2.rs.
--   Reader: src/reader.rs. Batches is ParallelBz2Read, a state passed from read to read; Pieces and
--     Whole are about what its reads give. Streaming is StreamingBz2Read, over any source; Slices,
--     Loads and Last are about its read that reaches the end of the source.
--   Pipeline: src/bin/lbunzip2.rs. Threads has what the main, reader and worker threads do with what
--     they receive, Pipeline itself the collector thread: the messages are a list, in the order of
--     the channel. Slots and States are about the collector's state, Order about all orders of the
--     messages, Flush about what a flush leaves; Posts, Ranges and Carry about what the main thread
--     posts and carries over.
--   Tests: runs on test_data/hello.bz2, and the theorems applied at small inputs.
--
-- Numbers. u8, u16, u32 and u64 are natural numbers, with % 2 ^ w where the code can wrap; shifts
-- take their amount modulo the width, as a release build does. The input is a list of numbers, and
-- IsBytes says that they are below 256.
--
-- Capacity. Vec::with_capacity gives the room that is asked for, and Vec::reserve doubles it or
-- gives what is needed, as the standard library does for bytes; its documentation says at least the
-- room that is needed.
--
-- Fuel. A loop that is not over a known number of rounds takes fuel: refill 8 rounds, since each
-- adds 8 bits; skip as many rounds as bits to skip; the scans the length of the input; the loops
-- that read bits one round more than the bits that are left. Loops out of fuel panic or stop.
--
-- The loops that read a source have their fuel as an argument, since a source can interrupt them
-- for ever.
--
-- Not modelled: prefetches, the rest of src/bin/lbunzip2.rs (arguments, files, the blocking of the
-- channels, physical_cores) and the benchmarks.
pub mod Prelude
pub mod Bits
pub mod BitStream
pub mod BitReader
pub mod Magic
pub mod Scan
pub mod ParMap
pub mod Mtf
pub mod Bwt
pub mod Huffman
pub mod Block
pub mod Stream
pub mod Chunk
pub mod Parallel
pub mod Source
pub mod Reader
pub mod Pipeline
mod Tests
