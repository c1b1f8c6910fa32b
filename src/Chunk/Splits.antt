-- ===== src/Chunk/Splits.antt =====
-- src/chunk.rs, `split_chunk`: with one segment to a chunk, only the last chunk is split.
use lbzip2_rs.Prelude.{ℕ, ◌≤◌, ◌≡◌, refl, false, List, [], none, Option-cases, inl, inr, le→leb}
use lbzip2_rs.Scan.Defs.{find_next_block}
use lbzip2_rs.Scan.Split.{split_boundaries_parallel}
use lbzip2_rs.Chunk.Defs.{add_splits, split_chunk}

split_boundaries_parallel_single :
    (bytes : List ℕ) (n_segments max_blocksize : ℕ)
    → n_segments ≤ 1
    → split_boundaries_parallel bytes n_segments max_blocksize ≡ []
unfolding split_boundaries_parallel
split_boundaries_parallel_single bytes n_segments max_blocksize few =
    rw (le→leb n_segments 1 few) refl

-- With at most one segment, `split_chunk` gives nothing for a chunk that is not the last.
pub split_chunk_single :
    (bytes : List ℕ) (n_segments max_blocksize : ℕ)
    → n_segments ≤ 1
    → split_chunk bytes n_segments max_blocksize false ≡ none
unfolding split_chunk add_splits
split_chunk_single bytes n_segments max_blocksize few =
    elim (Option-cases (find_next_block bytes 0)) [
      | inl e ↦ rw (e, split_chunk) refl
      | inr (b, e) ↦
          rw (e, split_chunk)
            (rw (split_boundaries_parallel_single bytes n_segments max_blocksize few) refl)
    ]
