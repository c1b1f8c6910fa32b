-- ===== src/Tests.antt =====
-- Runs of the model on test_data/hello.bz2. The children apply the theorems at small inputs.
mod Bytes
mod Blocks
mod Streams
mod Wholes
mod Sources
mod Segments
mod Pipelines
mod Readers
mod Scans
mod Pools
mod Transforms
use lbzip2_rs.Prelude.{ℕ, ◌*◌, ◌≡◌, refl, List, [], ◌∷◌, ok}
use lbzip2_rs.Tests.Bytes.{hello}
use lbzip2_rs.Stream.{decompress}
use lbzip2_rs.Parallel.{decompress_parallel}
use lbzip2_rs.Chunk.Defs.{decode_segment}

-- "Hello, World!" and a line break.
decompress-hello :
    decompress hello
    ≡ ok (72 ∷ 101 ∷ 108 ∷ 108 ∷ 111 ∷ 44 ∷ 32 ∷ 87 ∷ 111 ∷ 114 ∷ 108 ∷ 100 ∷ 33 ∷ 10 ∷ [])
unfolding decompress
decompress-hello = refl

decompress_parallel-hello :
    decompress_parallel 4 hello
    ≡ ok (72 ∷ 101 ∷ 108 ∷ 108 ∷ 111 ∷ 44 ∷ 32 ∷ 87 ∷ 111 ∷ 114 ∷ 108 ∷ 100 ∷ 33 ∷ 10 ∷ [])
unfolding decompress_parallel
decompress_parallel-hello = refl

decode_segment-hello :
    decode_segment hello 32 (8 * 58) 900_000
    ≡ ok (72 ∷ 101 ∷ 108 ∷ 108 ∷ 111 ∷ 44 ∷ 32 ∷ 87 ∷ 111 ∷ 114 ∷ 108 ∷ 100 ∷ 33 ∷ 10 ∷ [])
unfolding decode_segment
decode_segment-hello = refl
