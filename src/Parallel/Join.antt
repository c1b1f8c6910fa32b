-- ===== src/Parallel/Join.antt =====
-- src/parallel.rs: the outputs of the blocks, decoded by index and joined in order.
use lbzip2_rs.Prelude.{
  ℕ, zero, suc, ◌≡◌, refl, ap, ◌∙◌, false, List, [], ◌∷◌, ◌++◌, map, count_up, length, ok,
}
use lbzip2_rs.ParMap.{par_map}
use lbzip2_rs.Scan.Defs.{BlockBoundary}
use lbzip2_rs.Scan.Split.{find_all_blocks_parallel}
use lbzip2_rs.Stream.{parse_header}
use lbzip2_rs.Parallel.{decode_at, worker, any_panic, join, assemble, decompress_parallel}

-- All the blocks decode, to `out` one behind the other.
pub data Decodes (bytes : List ℕ) (max_blocksize : ℕ) : List BlockBoundary → List ℕ → Type 0 where
  no_blocks : Decodes bytes max_blocksize [] []
  block :
      {boundary : BlockBoundary} {boundaries : List BlockBoundary} (data_ : List ℕ) {out : List ℕ}
      → decode_at bytes max_blocksize boundary ≡ ok data_
      → Decodes bytes max_blocksize boundaries out
      → Decodes bytes max_blocksize (boundary ∷ boundaries) (data_ ++ out)

map_shift :
    {A : Type 0} (f g : ℕ → A) (a n : ℕ)
    → ((i : ℕ) → f (suc i) ≡ g i)
    → map f (count_up (suc a) n) ≡ map g (count_up a n)
map_shift f g a zero h = refl
map_shift f g a (suc n) h = rw (h a, map_shift f g (suc a) n h) refl

module _ (bytes : List ℕ) (max_blocksize : ℕ) where
  -- By index, the workers decode the boundaries in their order.
  pub worker-decode_at :
      (boundaries : List BlockBoundary)
      → map (worker bytes max_blocksize boundaries) (count_up 0 (length boundaries))
        ≡ map (decode_at bytes max_blocksize) boundaries
  worker-decode_at [] = refl
  worker-decode_at (b ∷ bs) =
      ap (λ rs. decode_at bytes max_blocksize b ∷ rs)
        (map_shift (worker bytes max_blocksize (b ∷ bs)) (worker bytes max_blocksize bs) 0
            (length bs) (λ i. refl)
          ∙ worker-decode_at bs)

  pub join-Decodes :
      (boundaries : List BlockBoundary) (out : List ℕ)
      → Decodes bytes max_blocksize boundaries out
      → (any_panic (map (decode_at bytes max_blocksize) boundaries) ≡ false)
        × (join (map (decode_at bytes max_blocksize) boundaries) ≡ ok out)
  join-Decodes _ _ no_blocks = (refl, refl)
  join-Decodes _ _ (block {boundary} {boundaries} data_ {out} here rest) =
      let (calm, joined) = join-Decodes boundaries out rest in
      (rw here calm, rw (here, joined) refl)

pub assemble-Decodes :
    (bytes : List ℕ) (max_blocksize : ℕ) (boundaries : List BlockBoundary) (out : List ℕ)
    → Decodes bytes max_blocksize boundaries out
    → assemble (par_map (length boundaries) (worker bytes max_blocksize boundaries)) ≡ ok out
unfolding par_map assemble
assemble-Decodes bytes max_blocksize boundaries out decodes =
    let (calm, joined) = join-Decodes bytes max_blocksize boundaries out decodes in
    rw (worker-decode_at bytes max_blocksize boundaries, calm, joined) refl

-- If the header gives a block size, and the blocks at all the boundaries that the parallel scan
-- finds decode, then `decompress_parallel` gives their outputs one behind the other, in the order
-- of the boundaries, for any number of threads.
pub decompress_parallel-Decodes :
    (n_threads : ℕ) (bytes : List ℕ) (max_blocksize : ℕ) (out : List ℕ)
    → parse_header bytes ≡ ok max_blocksize
    → Decodes bytes max_blocksize (find_all_blocks_parallel bytes n_threads) out
    → decompress_parallel n_threads bytes ≡ ok out
unfolding decompress_parallel
decompress_parallel-Decodes n_threads bytes max_blocksize out header decodes =
    rw
      (
        header,
        assemble-Decodes bytes max_blocksize (find_all_blocks_parallel bytes n_threads) out decodes,
      )
      refl
