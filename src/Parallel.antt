-- ===== src/Parallel.antt =====
-- src/parallel.rs: all blocks of a stream decoded at once, and their outputs joined in order.
pub mod Join
pub mod Outputs
pub mod Whole
use lbzip2_rs.Prelude.{
  ℕ, ◌+◌, Bool, true, false, List, [], ◌∷◌, ◌++◌, length, get_elem?, Result, ok, err, panic, index,
  ◌>>=◌, if◌then◌else◌,
}
use lbzip2_rs.BitReader.Defs.{from_bit_offset}
use lbzip2_rs.ParMap.{par_map}
use lbzip2_rs.Scan.Defs.{BlockBoundary}
use lbzip2_rs.Scan.Split.{find_all_blocks_parallel}
use lbzip2_rs.Block.Common.{decode_block}
use lbzip2_rs.Stream.{parse_header}

-- The closure of the workers: the block behind boundary `bi`.
unfoldable pub decode_at : List ℕ → ℕ → BlockBoundary → Result (List ℕ)
unfolding from_bit_offset decode_block
decode_at bytes max_blocksize boundary = do
  decoded ← decode_block max_blocksize (from_bit_offset bytes (boundary.bit_offset + 48))
  ok decoded.0

abbrev pub worker : List ℕ → ℕ → List BlockBoundary → ℕ → Result (List ℕ)
worker bytes max_blocksize boundaries bi = do
  boundary ← index (get_elem? boundaries bi)
  decode_at bytes max_blocksize boundary

-- A panic of a worker ends the scope in a panic, whatever the other results are.
abbrev pub any_panic : {A : Type 0} → List (Result A) → Bool
any_panic [] = false
any_panic (panic ∷ rs) = true
any_panic (ok _ ∷ rs) = any_panic rs
any_panic (err _ ∷ rs) = any_panic rs

-- The first error in order, or all outputs in order.
abbrev pub join : List (Result (List ℕ)) → Result (List ℕ)
join [] = ok []
join (r ∷ rs) = do v ← r; vs ← join rs; ok (v ++ vs)

unfoldable pub assemble : List (Result (List ℕ)) → Result (List ℕ)
assemble results = if any_panic results then panic else join results

-- `n_threads` is what `available_parallelism` gives.
unfoldable pub decompress_parallel : ℕ → List ℕ → Result (List ℕ)
unfolding parse_header find_all_blocks_parallel par_map decode_at assemble
decompress_parallel n_threads bytes = do
  max_blocksize ← parse_header bytes
  let boundaries = find_all_blocks_parallel bytes n_threads
  assemble (par_map (length boundaries) (worker bytes max_blocksize boundaries))
