-- ===== src/Tests/Streams.antt =====
-- The theorems on src/parallel.rs and src/reader.rs at test_data/hello.bz2.
use mathlib.Core.Path.{subst}
use lbzip2_rs.Prelude.{min, ◌≤◌, length, ◌>>=◌, arith, ◌++◌, ℕ, ◌≡◌, refl, sym, List, [], ◌∷◌, ok}
use lbzip2_rs.Tests.Bytes.{hello}
use lbzip2_rs.Scan.Defs.{BlockBoundary}
use lbzip2_rs.Scan.Split.{find_all_blocks_parallel}
use lbzip2_rs.Scan.Defs.{find_all_blocks}
use lbzip2_rs.Reader.Batches.{ParallelBz2Read, new, read}
use lbzip2_rs.Reader.Whole.{read_to_end, read_to_end-new}
use lbzip2_rs.Reader.Pieces.{IsPending, read-IsPending}
use lbzip2_rs.Stream.{parse_header}
use lbzip2_rs.Parallel.{decode_at, decompress_parallel}
use lbzip2_rs.Parallel.Join.{Decodes, no_blocks, block, decompress_parallel-Decodes}

abbrev pub text : List ℕ
text = 72 ∷ 101 ∷ 108 ∷ 108 ∷ 111 ∷ 44 ∷ 32 ∷ 87 ∷ 111 ∷ 114 ∷ 108 ∷ 100 ∷ 33 ∷ 10 ∷ []

abbrev first_block : BlockBoundary
first_block = record { bit_offset = 32 }

pub hello_header : parse_header hello ≡ ok 900_000
unfolding parse_header
hello_header = refl

hello_boundaries : find_all_blocks_parallel hello 4 ≡ first_block ∷ []
unfolding find_all_blocks_parallel
hello_boundaries = refl

decode_at-hello : decode_at hello 900_000 first_block ≡ ok text
unfolding decode_at
decode_at-hello = refl

hello-Decodes : Decodes hello 900_000 (find_all_blocks_parallel hello 4) text
hello-Decodes =
    subst (λ bs. Decodes hello 900_000 bs text) (sym hello_boundaries)
      (block text decode_at-hello no_blocks)

decompress_parallel-Decodes_example : decompress_parallel 4 hello ≡ ok text
decompress_parallel-Decodes_example =
    decompress_parallel-Decodes 4 hello 900_000 text hello_header hello-Decodes

hello_blocks : find_all_blocks hello ≡ first_block ∷ []
unfolding find_all_blocks
hello_blocks = refl

pub hello_all-Decodes : Decodes hello 900_000 (find_all_blocks hello) text
hello_all-Decodes =
    subst (λ bs. Decodes hello 900_000 bs text) (sym hello_blocks)
      (block text decode_at-hello no_blocks)

read_to_end-new_example : (new hello >>= read_to_end 15 4) ≡ ok text
read_to_end-new_example =
    read_to_end-new 15 4 hello 900_000 text hello_header hello_all-Decodes (omega arith)
      (omega arith)

-- The reader of hello.bz2 before its first read.
abbrev unread : ParallelBz2Read
unread = record {
  bytes = hello;
  max_blocksize = 900_000;
  boundaries = first_block ∷ [];
  next_block = 0;
  buf = [];
  buf_pos = 0;
}

unread-IsPending : IsPending unread text
unread-IsPending = record {
  later = text;
  within = omega arith;
  left = block text decode_at-hello no_blocks;
  all = refl;
}

read-IsPending_example :
    (piece : List ℕ) × (s' : ParallelBz2Read) × (rest : List ℕ) × (read 5 unread ≡ ok (piece, s'))
    × IsPending s' rest
    × (text ≡ piece ++ rest)
    × (min 1 (min 5 (length text)) ≤ length piece)
read-IsPending_example = read-IsPending 5 unread text unread-IsPending
