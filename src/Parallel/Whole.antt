-- ===== src/Parallel/Whole.antt =====
-- src/parallel.rs against src/stream.rs: the blocks of a stream, found by the scan and decoded by
-- index, give what the sequential decoder gives.
use mathlib.Core.Path.{subst}
use lbzip2_rs.Prelude.{
  ℕ, ◌+◌, ◌*◌, ◌≤◌, ◌≡◌, refl, sym, ap, ◌∙◌, arith, List, [], ◌∷◌, map, length, All, All-weaken,
  Result, ok,
}
use lbzip2_rs.BitStream.{IsBytes}
use lbzip2_rs.BitReader.Defs.{BitReader, position, from_bit_offset}
use lbzip2_rs.Magic.{HasMagic}
use lbzip2_rs.Scan.Defs.{BlockBoundary, find_all_blocks}
use lbzip2_rs.Scan.Split.{find_all_blocks_parallel}
use lbzip2_rs.Scan.All.{Covers, IsBoundary, find_all_blocks_sound, find_all_blocks_complete}
use lbzip2_rs.Scan.Merge.{IsIncreasing}
use lbzip2_rs.Scan.Chunks.{
  IsIncreasing-IsSpaced, find_all_blocks_parallel_sound, find_all_blocks_parallel_complete,
}
use lbzip2_rs.Block.Common.{decode_block}
use lbzip2_rs.Stream.{parse_header, decompress}
use lbzip2_rs.Stream.Runs.{Runs, truncated, final, unknown, block_err, block_panic, block}
use lbzip2_rs.Stream.Outcome.{decompress-Runs}
use lbzip2_rs.Stream.Layout.{IsStart, Runs-AreSpaced, prepend-eq-ok, offset_of, boundaries-starts}
use lbzip2_rs.Parallel.{decode_at, decompress_parallel}
use lbzip2_rs.Parallel.Join.{Decodes, no_blocks, decompress_parallel-Decodes}
use lbzip2_rs.Parallel.Join

decode_at_ok :
    (bytes : List ℕ) (max_blocksize pos : ℕ) (b : BlockBoundary) (data_ : List ℕ) (r : BitReader)
    → b.bit_offset ≡ pos
    → decode_block max_blocksize (from_bit_offset bytes (pos + 48)) ≡ ok (data_, r)
    → decode_at bytes max_blocksize b ≡ ok data_
unfolding decode_at
decode_at_ok bytes size pos b data_ r at e = rw (at, e, decode_at) refl

-- The first offset, and the others.
abbrev head_of : ℕ → List ℕ → ℕ
head_of d [] = d
head_of d (p ∷ ps) = p

abbrev tail_of : List ℕ → List ℕ
tail_of [] = []
tail_of (p ∷ ps) = ps

-- The boundaries at the blocks of a stream decode to its output.
pub Runs-Decodes :
    (bytes : List ℕ) (max_blocksize pos : ℕ) (starts out : List ℕ) (outcome : Result (List ℕ))
    (bs : List BlockBoundary)
    → Runs bytes max_blocksize pos starts outcome
    → outcome ≡ ok out
    → map offset_of bs ≡ starts
    → Decodes bytes max_blocksize bs out
Runs-Decodes bytes size pos _ out _ bs (truncated nothing) e at = cc
Runs-Decodes bytes size pos _ out _ bs (unknown magic found other neither) e at = cc
Runs-Decodes bytes size pos _ out _ bs (block_err x found fails) e at = cc
Runs-Decodes bytes size pos _ out _ bs (block_panic found fails) e at = cc
Runs-Decodes bytes size pos _ out _ [] (final found) e at =
    let empty_ : [] ≡ out = cc in subst (Decodes bytes size []) empty_ no_blocks
Runs-Decodes bytes size pos _ out _ (b ∷ bs) (final found) e at = cc
Runs-Decodes bytes size pos _ out outcome [] (block data_ r found decoded runs whole) e at = cc
Runs-Decodes bytes size pos _ out outcome (b ∷ bs)
      (block {starts} {rest} data_ r found decoded runs whole) e at =
    let here : b.bit_offset ≡ pos = ap (head_of 0) at in
    let (later, rest_ok, split) = prepend-eq-ok data_ rest out (sym whole ∙ e) in
    let more : Decodes bytes size bs later =
      Runs-Decodes bytes size (position r) starts later rest bs runs rest_ok (ap tail_of at) in
    subst (Decodes bytes size (b ∷ bs)) (sym split)
      (Join.block data_ (decode_at_ok bytes size pos b data_ r here decoded) more)

-- The only block magics of the input are the starts.
abbrev pub HasOnly : List ℕ → List ℕ → Type 0
HasOnly bytes starts = (p : ℕ) → p + 48 ≤ 8 * length bytes → HasMagic bytes p → IsStart starts p

module _ (bytes : List ℕ) (max_blocksize : ℕ) (starts out : List ℕ) (bytes_ok : IsBytes bytes)
    (runs : Runs bytes max_blocksize 32 starts (ok out)) (only : HasOnly bytes starts) where
  -- Boundaries that are sound, ordered and complete are the starts.
  found-starts :
      (bs : List BlockBoundary)
      → IsIncreasing bs
      → All (IsBoundary bytes) bs
      → ((p : ℕ) → p + 64 ≤ 8 * length bytes → HasMagic bytes p → Covers bs p)
      → map offset_of bs ≡ starts
  found-starts bs increasing sound complete =
      let (spaced, all, room) =
        Runs-AreSpaced bytes max_blocksize 32 starts out (ok out) bytes_ok runs refl in
      boundaries-starts 32 starts bs spaced increasing
        (All-weaken bs (λ b h. only b.bit_offset h.0 h.1) sound)
        (All-weaken starts (λ p h. complete p (omega (arith, h.0)) h.1) all)

  -- In a stream that decodes to `out`, and that has no other block magics than its blocks', the
  -- boundaries that `find_all_blocks` gives decode to `out`.
  pub find_all_blocks-Decodes : Decodes bytes max_blocksize (find_all_blocks bytes) out
  find_all_blocks-Decodes =
      let (spaced, all) = find_all_blocks_sound bytes bytes_ok in
      Runs-Decodes bytes max_blocksize 32 starts out (ok out) (find_all_blocks bytes) runs refl (
        found-starts (find_all_blocks bytes)
          (IsIncreasing-IsSpaced 0 (find_all_blocks bytes) spaced).1 all
          (find_all_blocks_complete bytes bytes_ok))

  found_parallel-Decodes :
      (n_threads : ℕ) → Decodes bytes max_blocksize (find_all_blocks_parallel bytes n_threads) out
  found_parallel-Decodes n_threads =
      let (increasing, all) = find_all_blocks_parallel_sound bytes n_threads bytes_ok in
      Runs-Decodes bytes max_blocksize 32 starts out (ok out)
        (find_all_blocks_parallel bytes n_threads) runs refl
        (found-starts (find_all_blocks_parallel bytes n_threads) increasing all
          (find_all_blocks_parallel_complete bytes n_threads bytes_ok))

-- For bytes whose header gives a block size, that `decompress` decodes, and in which no block magic
-- stands but at the blocks of the stream, `decompress_parallel` gives what `decompress` gives, for
-- any number of threads.
pub decompress_parallel-decompress :
    (n_threads : ℕ) (bytes : List ℕ) (max_blocksize : ℕ) (starts out : List ℕ)
    → IsBytes bytes
    → parse_header bytes ≡ ok max_blocksize
    → Runs bytes max_blocksize 32 starts (ok out)
    → HasOnly bytes starts
    → (decompress_parallel n_threads bytes ≡ decompress bytes) × (decompress bytes ≡ ok out)
decompress_parallel-decompress n_threads bytes size starts out bytes_ok header runs only =
    let sequential : decompress bytes ≡ ok out =
      (decompress-Runs bytes size (ok out) bytes_ok header).1 (starts, runs) in
    (
      decompress_parallel-Decodes n_threads bytes size out header
            (found_parallel-Decodes bytes size starts out bytes_ok runs only n_threads)
          ∙ sym sequential,
      sequential,
    )
