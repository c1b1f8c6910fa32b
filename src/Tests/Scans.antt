-- ===== src/Tests/Scans.antt =====
-- The theorems on src/block_scan.rs and src/chunk.rs at the first bytes of test_data/hello.bz2.
use lbzip2_rs.Prelude.{
  false, none, All, ℕ, ◌+◌, ◌*◌, ◌≤◌, ◌≡◌, refl, arith, List, [], ◌∷◌, length, some,
}
use lbzip2_rs.Bits.{bit}
use lbzip2_rs.Tests.Bytes.{all_bytes, all_bytes-IsBytes}
use lbzip2_rs.BitStream.{IsBytes, field, stream_bit}
use lbzip2_rs.Magic.{HasMagic}
use lbzip2_rs.Scan.Defs.{BlockBoundary, find_next_block}
use lbzip2_rs.Scan.Defs.{find_all_blocks}
use lbzip2_rs.Scan.Split.{find_all_blocks_parallel}
use lbzip2_rs.Scan.All.{
  Covers, IsSpaced, IsBoundary, find_all_blocks_sound, find_all_blocks_complete,
}
use lbzip2_rs.Scan.Merge.{IsIncreasing}
use lbzip2_rs.Scan.Chunks.{find_all_blocks_parallel_sound, find_all_blocks_parallel_complete}
use lbzip2_rs.Chunk.Defs.{split_chunk}
use lbzip2_rs.Chunk.Splits.{split_chunk_single}
use lbzip2_rs.Scan.Found.{find_next_block_sound, find_next_block_complete}

abbrev prefix : List ℕ
prefix =
    66 ∷ 90 ∷ 104 ∷ 57 ∷ 49 ∷ 65 ∷ 89 ∷ 38 ∷ 83 ∷ 89 ∷ 153 ∷ 172 ∷ 34 ∷ 86 ∷ 0 ∷ 0 ∷ 2 ∷ 87 ∷ 128
    ∷ 0 ∷ []

prefix-IsBytes : IsBytes prefix
unfolding all_bytes
prefix-IsBytes = all_bytes-IsBytes prefix refl

prefix-HasMagic : HasMagic prefix 32
unfolding field stream_bit bit
prefix-HasMagic = refl

abbrev boundary : BlockBoundary
boundary = record { bit_offset = 32 }

prefix_found : find_next_block prefix 3 ≡ some boundary
unfolding find_next_block
prefix_found = refl

find_next_block_sound_example :
    (3 ≤ boundary.bit_offset)
    × (boundary.bit_offset + 48 ≤ 8 * length prefix)
    × HasMagic prefix boundary.bit_offset
find_next_block_sound_example = find_next_block_sound prefix 3 prefix-IsBytes boundary prefix_found

find_next_block_complete_example :
    (b : BlockBoundary) × (find_next_block prefix 3 ≡ some b) × (b.bit_offset ≤ 32)
find_next_block_complete_example =
    find_next_block_complete prefix 3 prefix-IsBytes 32 (omega arith) (omega arith) prefix-HasMagic

find_all_blocks_sound_example :
    IsSpaced 0 (find_all_blocks prefix) × All (IsBoundary prefix) (find_all_blocks prefix)
find_all_blocks_sound_example = find_all_blocks_sound prefix prefix-IsBytes

find_all_blocks_complete_example : Covers (find_all_blocks prefix) 32
find_all_blocks_complete_example =
    find_all_blocks_complete prefix prefix-IsBytes 32 (omega arith) prefix-HasMagic

find_all_blocks_parallel_sound_example :
    IsIncreasing (find_all_blocks_parallel prefix 4)
    × All (IsBoundary prefix) (find_all_blocks_parallel prefix 4)
find_all_blocks_parallel_sound_example = find_all_blocks_parallel_sound prefix 4 prefix-IsBytes

find_all_blocks_parallel_complete_example : Covers (find_all_blocks_parallel prefix 4) 32
find_all_blocks_parallel_complete_example =
    find_all_blocks_parallel_complete prefix 4 prefix-IsBytes 32 (omega arith) prefix-HasMagic

split_chunk_single_example : split_chunk prefix 1 900_000 false ≡ none
split_chunk_single_example = split_chunk_single prefix 1 900_000 (omega arith)
