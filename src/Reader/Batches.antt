-- ===== src/Reader/Batches.antt =====
-- src/reader.rs, `ParallelBz2Read`: all boundaries are found first, and the blocks decoded in
-- batches. An error of a method leaves the reader as it was.
use lbzip2_rs.Prelude.{
  ℕ, ◌+◌, ◌-◌, min, true, false, List, [], length, take, drop, Result, ok, ◌>>=◌, leb, ◌==◌,
}
use lbzip2_rs.ParMap.{par_map}
use lbzip2_rs.Scan.Defs.{BlockBoundary, find_all_blocks}
use lbzip2_rs.Stream.{parse_header}
use lbzip2_rs.Parallel.{worker, assemble}

abbrev pub batch_size : ℕ
batch_size = 64

pub record ParallelBz2Read : Type 0 where
  pub bytes : List ℕ
  pub max_blocksize : ℕ
  pub boundaries : List BlockBoundary
  pub next_block : ℕ
  pub buf : List ℕ
  pub buf_pos : ℕ

unfoldable pub new : List ℕ → Result ParallelBz2Read
unfolding parse_header find_all_blocks
new bytes = do
  max_blocksize ← parse_header bytes
  ok (record {
    bytes = bytes;
    max_blocksize = max_blocksize;
    boundaries = find_all_blocks bytes;
    next_block = 0;
    buf = [];
    buf_pos = 0;
  })

abbrev pub block_count : ParallelBz2Read → ℕ
block_count s = length s.boundaries

-- The boundaries of the next batch.
abbrev pub batch_of : ParallelBz2Read → List BlockBoundary
batch_of s =
    take (min (length s.boundaries - s.next_block) batch_size) (drop s.next_block s.boundaries)

-- The batch decoded by `par_map`; the first error in order ends it.
unfoldable pub fill_batch : ParallelBz2Read → Result ParallelBz2Read
unfolding par_map assemble
fill_batch s = elim (length s.boundaries - s.next_block == 0) [
  | true ↦ ok (record s { buf = []; buf_pos = 0 })
  | false ↦ do
    decoded ← assemble (par_map (length (batch_of s)) (worker s.bytes s.max_blocksize (batch_of s)))
    ok (record s {
      buf = decoded;
      buf_pos = 0;
      next_block = s.next_block + min (length s.boundaries - s.next_block) batch_size;
    })
]

-- The bytes copied to a buffer of `room` bytes.
abbrev pub serve : ℕ → ParallelBz2Read → List ℕ × ParallelBz2Read
serve room s =
    let available = drop s.buf_pos s.buf in
    let n = min room (length available) in (take n available, record s { buf_pos = s.buf_pos + n })

unfoldable pub read : ℕ → ParallelBz2Read → Result (List ℕ × ParallelBz2Read)
unfolding fill_batch
read room s = elim (leb (length s.buf) s.buf_pos) [
  | true ↦ do
    s' ← fill_batch s
    elim (length s'.buf == 0) [ true ↦ ok ([], s') | false ↦ ok (serve room s') ]
  | false ↦ ok (serve room s)
]
