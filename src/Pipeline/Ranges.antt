-- ===== src/Pipeline/Ranges.antt =====
-- src/bin/lbunzip2.rs, the main thread: the bits of the segments that it posts for a chunk.
use lbzip2_rs.Prelude.{
  ok, ℕ, zero, suc, ◌+◌, ◌-◌, ◌*◌, ◌/◌, ◌≤◌, ◌<◌, ◌≡◌, refl, ap, arith, Bool, true, false, inl, inr,
  Bool-cases, List, [], ◌∷◌, length, get_elem?, Option, none, some, Result, index, OnOk, >>=-OnOk,
  ltb,
}
use mathlib.Core.Path.{subst}
use lbzip2_rs.Scan.Defs.{BlockBoundary, find_next_block}
use lbzip2_rs.Scan.Split.{split_boundaries_parallel}
use lbzip2_rs.Chunk.Defs.{ChunkSplit, add_splits, consumed_bytes, split_chunk}
use lbzip2_rs.Chunk.Within.{Each, consumed_bytes-within}
use lbzip2_rs.Pipeline.{InFlightSlot}
use lbzip2_rs.Pipeline.Threads.{WorkItem, segment_end, work_items, new_in_flight, Posted, post}

-- Where segment `i` starts, or the end of the data behind the last.
abbrev pub bound : List ℕ → ChunkSplit → ℕ → ℕ
bound data_ split i = elim (get_elem? split.segment_starts i) [
  | some b ↦ b.bit_offset
  | none ↦ length data_ * 8
]

-- The items take the bits from `start` to `end` one after the other.
abbrev pub Tiles : ℕ → ℕ → List WorkItem → Type 0
Tiles start end [] = start ≡ end
Tiles start end (item ∷ items) = (item.start_bit ≡ start) × Tiles item.end_bit end items

index-some : {A : Type 0} (o : Option A) → OnOk (λ a. o ≡ some a) (index o)
index-some none = tt
index-some (some a) = refl

abbrev TilesFrom : List ℕ → ChunkSplit → ℕ → ℕ → List WorkItem → Type 0
TilesFrom data_ split i left items =
    (length items ≡ left) × Tiles (bound data_ split i) (bound data_ split (i + left)) items

pub work_items-Tiles :
    (left i : ℕ) (data_ : List ℕ) (split : ChunkSplit) (chunk_id max_blocksize : ℕ)
    → OnOk (TilesFrom data_ split i left) (work_items left i data_ split chunk_id max_blocksize)
unfolding work_items segment_end
work_items-Tiles zero i data_ split chunk_id max_blocksize =
    let e : i ≡ i + 0 = omega arith in (refl, ap (bound data_ split) e)
work_items-Tiles (suc left) i data_ split chunk_id max_blocksize =
    let found : Option BlockBoundary = get_elem? split.segment_starts i in
    let rest : Result (List WorkItem) =
      work_items left (i + 1) data_ split chunk_id max_blocksize in
    let e : i + 1 + left ≡ i + suc left = omega arith in
    >>=-OnOk (λ b. found ≡ some b) (TilesFrom data_ split i (suc left)) (index found) _
      (index-some found)
      λ b here.
        >>=-OnOk (TilesFrom data_ split (i + 1) left) (TilesFrom data_ split i (suc left)) rest _
          (work_items-Tiles left (i + 1) data_ split chunk_id max_blocksize)
          (λ items h. (ap suc h.0, (rw (here, bound) refl, rw (← e) h.1)))

get_elem?-some :
    (xs : List BlockBoundary) (i : ℕ)
    → i < length xs
    → (b : BlockBoundary) × (get_elem? xs i ≡ some b)
get_elem?-some [] i lt = absurd (omega arith)
get_elem?-some (x ∷ xs) zero lt = (x, refl)
get_elem?-some (x ∷ xs) (suc i) lt = get_elem?-some xs i (omega arith)

get_elem?-length : (xs : List BlockBoundary) → get_elem? xs (length xs) ≡ none
get_elem?-length [] = refl
get_elem?-length (x ∷ xs) = get_elem?-length xs

-- What a split has: it begins at the first block, and takes all of the data, or up to the byte where
-- the first segment begins that is left.
pub record IsSplit (data_ : List ℕ) (is_last : Bool) (split : ChunkSplit) : Type 0 where
  pub first : BlockBoundary
  pub begins : find_next_block data_ 0 ≡ some first
  pub at_first : bound data_ split 0 ≡ first.bit_offset
  pub nonempty : 0 < split.decode_segments
  pub started : split.decode_segments ≤ length split.segment_starts
  pub within : split.consumed ≤ length data_
  pub consumes : split.consumed ≡ bound data_ split split.decode_segments / 8
  pub whole : is_last ≡ true → bound data_ split split.decode_segments ≡ length data_ * 8

abbrev split_at : List ℕ → BlockBoundary → List BlockBoundary → ℕ → ChunkSplit
split_at data_ first more n = record {
  segment_starts = first ∷ more;
  decode_segments = n;
  consumed = consumed_bytes data_ (first ∷ more) n;
}

consumed-bound :
    (data_ : List ℕ) (n : ℕ) (o : Option BlockBoundary)
    → (let bytes : ℕ = elim o [ some b ↦ b.bit_offset / 8 | none ↦ length data_ ] in
        let bits : ℕ = elim o [ some b ↦ b.bit_offset | none ↦ length data_ * 8 ] in
        bytes ≡ bits / 8)
consumed-bound data_ n (some b) = refl
consumed-bound data_ n none = omega arith

split_at-IsSplit :
    (data_ : List ℕ) (first : BlockBoundary) (more : List BlockBoundary) (n : ℕ) (is_last : Bool)
    → find_next_block data_ 0 ≡ some first
    → 0 < n
    → n ≤ suc (length more)
    → consumed_bytes data_ (first ∷ more) n ≤ length data_
    → (is_last ≡ true → n ≡ suc (length more))
    → IsSplit data_ is_last (split_at data_ first more n)
split_at-IsSplit data_ first more n is_last begins some_ few within all = record {
  first = first;
  begins = begins;
  at_first = refl;
  nonempty = some_;
  started = few;
  within = within;
  consumes = consumed-bound data_ n (get_elem? (first ∷ more) n);
  whole = λ last. let e : n ≡ suc (length more) = all last in rw (e, get_elem?-length more) refl;
}

split_chunk-Each :
    (data_ : List ℕ) (n_segments max_blocksize : ℕ) (is_last : Bool) (o : Option BlockBoundary)
    → find_next_block data_ 0 ≡ o
    → Each (IsSplit data_ is_last) (split_chunk data_ n_segments max_blocksize is_last)
unfolding split_chunk
split_chunk-Each data_ n_segments m is_last none begins = rw (begins, Each) tt
split_chunk-Each data_ n_segments m true (some first) begins =
    let more : List BlockBoundary =
      add_splits first (split_boundaries_parallel data_ n_segments m) in
    rw (begins, Each)
      (split_at-IsSplit data_ first more (suc (length more)) true begins (omega arith) (omega arith)
        (consumed_bytes-within data_ first n_segments m (suc (length more)) (omega arith))
        (λ last. refl))
split_chunk-Each data_ n_segments m false (some first) begins =
    let more : List BlockBoundary =
      add_splits first (split_boundaries_parallel data_ n_segments m) in
    let n : ℕ = suc (length more) in
    rw (begins, Each)
      (elim (Bool-cases (ltb 1 n)) [
        | inl several ↦ rw several (
            split_at-IsSplit data_ first more (n - 1) false begins (ground arith) (omega arith)
              (consumed_bytes-within data_ first n_segments m (n - 1) (ground arith)) (λ last. cc))
        | inr one ↦ rw one tt
      ])

pub split_chunk-IsSplit :
    (data_ : List ℕ) (n_segments max_blocksize : ℕ) (is_last : Bool) (split : ChunkSplit)
    → split_chunk data_ n_segments max_blocksize is_last ≡ some split
    → IsSplit data_ is_last split
split_chunk-IsSplit data_ n_segments max_blocksize is_last split e =
    subst (Each (IsSplit data_ is_last)) e
      (split_chunk-Each data_ n_segments max_blocksize is_last (find_next_block data_ 0) refl)

-- All the segments of a split are posted.
work_items-total :
    (left i : ℕ) (data_ : List ℕ) (split : ChunkSplit) (chunk_id max_blocksize : ℕ)
    → i + left ≤ length split.segment_starts
    → (items : List WorkItem) × (work_items left i data_ split chunk_id max_blocksize ≡ ok items)
unfolding work_items
work_items-total zero i data_ split chunk_id max_blocksize le = ([], refl)
work_items-total (suc left) i data_ split chunk_id max_blocksize le =
    let (b, here) = get_elem?-some split.segment_starts i (omega arith) in
    let (items, rest) =
      work_items-total left (i + 1) data_ split chunk_id max_blocksize (omega arith) in
    let item : WorkItem = record {
      chunk_id = chunk_id;
      segment_id = i;
      data_ = data_;
      start_bit = b.bit_offset;
      end_bit = segment_end data_ split i;
      max_blocksize = max_blocksize;
    } in
    (item ∷ items, rw (here, rest) refl)

pub post-total :
    (max_blocksize k : ℕ) (data_ : List ℕ) (split : ChunkSplit) (is_last : Bool)
    → IsSplit data_ is_last split
    → (p : Posted) × (post max_blocksize k data_ split is_last ≡ ok p)
unfolding post
post-total max_blocksize k data_ split is_last is =
    let (items, good) =
      work_items-total split.decode_segments 0 data_ split k max_blocksize
        (omega (arith, is.started)) in
    let slot : InFlightSlot = new_in_flight k data_ split.decode_segments is_last in
    (record { slot = slot; items = items }, rw good refl)
