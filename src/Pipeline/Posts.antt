-- ===== src/Pipeline/Posts.antt =====
-- src/bin/lbunzip2.rs, the main thread: the slot and the items that it posts for a chunk.
use lbzip2_rs.Prelude.{
  ℕ, zero, suc, ◌+◌, ◌≡◌, refl, arith, Bool, List, map, count_up, All, get_elem?, Result, index,
  OnOk, >>=-OnOk, Anything, OnOk-Anything,
}
use lbzip2_rs.Scan.Defs.{BlockBoundary}
use lbzip2_rs.Chunk.Defs.{ChunkSplit}
use lbzip2_rs.Pipeline.Threads.{WorkItem, work_items, new_in_flight, Posted, post}

abbrev segment_of : WorkItem → ℕ
segment_of item = item.segment_id

-- Items for the segments from `i` on, of one chunk and its data.
abbrev AreItems : ℕ → List ℕ → ℕ → ℕ → List WorkItem → Type 0
AreItems chunk_id data_ i n items =
    (map segment_of items ≡ count_up i n)
    × All (λ item. (item.chunk_id ≡ chunk_id) × (item.data_ ≡ data_)) items

work_items-AreItems :
    (left i : ℕ) (data_ : List ℕ) (split : ChunkSplit) (chunk_id max_blocksize : ℕ)
    → OnOk (AreItems chunk_id data_ i left) (work_items left i data_ split chunk_id max_blocksize)
unfolding work_items
work_items-AreItems zero i data_ split chunk_id max_blocksize = (refl, tt)
work_items-AreItems (suc left) i data_ split chunk_id max_blocksize =
    let start : Result BlockBoundary = index (get_elem? split.segment_starts i) in
    let next : i + 1 ≡ suc i = omega arith in
    let rest : Result (List WorkItem) =
      work_items left (i + 1) data_ split chunk_id max_blocksize in
    >>=-OnOk Anything (AreItems chunk_id data_ i (suc left)) start _ (OnOk-Anything start) λ b _.
      >>=-OnOk (AreItems chunk_id data_ (i + 1) left) (AreItems chunk_id data_ i (suc left)) rest _
        (work_items-AreItems left (i + 1) data_ split chunk_id max_blocksize)
        (λ items h. (rw (h.0, next) refl, ((refl, refl), h.1)))

-- A new slot of a chunk, and an item for each of its segments, on the slot's data.
abbrev pub IsPosted : ℕ → Posted → Type 0
IsPosted chunk_id p =
    (p.slot ≡ new_in_flight chunk_id p.slot.slot p.slot.decode_segments p.slot.is_last)
    × (map segment_of p.items ≡ count_up 0 p.slot.decode_segments)
    × All (λ item. (item.chunk_id ≡ chunk_id) × (item.data_ ≡ p.slot.slot)) p.items

pub post-IsPosted :
    (max_blocksize chunk_id : ℕ) (data_ : List ℕ) (split : ChunkSplit) (is_last : Bool)
    → OnOk (IsPosted chunk_id) (post max_blocksize chunk_id data_ split is_last)
unfolding post new_in_flight
post-IsPosted max_blocksize chunk_id data_ split is_last =
    let items : Result (List WorkItem) =
      work_items split.decode_segments 0 data_ split chunk_id max_blocksize in
    >>=-OnOk (AreItems chunk_id data_ 0 split.decode_segments) (IsPosted chunk_id) items _
      (work_items-AreItems split.decode_segments 0 data_ split chunk_id max_blocksize)
      (λ posted h. (refl, h.0, h.1))
