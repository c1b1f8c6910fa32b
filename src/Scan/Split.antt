-- ===== src/Scan/Split.antt =====
-- src/block_scan.rs: the quick check of a candidate, the split points for the workers, and the
-- parallel list of all boundaries.
use lbzip2_rs.Prelude.{
  ℕ, zero, suc, ◌+◌, ◌-◌, ◌*◌, ◌/◌, max, Bool, true, false, not, ◌||◌, List, [], ◌∷◌, Option, none,
  some, length, count_up, concat, ltb, leb, ◌==◌, if◌then◌else◌,
}
use lbzip2_rs.BitReader.Defs.{from_bit_offset, read_bit, read_u16, read_u32}
use lbzip2_rs.ParMap.{par_map}
use lbzip2_rs.Scan.Defs.{BlockBoundary, find_next_block, find_all_blocks}

-- `match o { Some(v) if test(v) => go on, _ => return false }`.
abbrev passes : {A : Type 0} → Option A → (A → Bool) → Bool → Bool
passes none test rest = false
passes (some v) test rest = if test v then rest else false

unfoldable pub quick_verify_block : List ℕ → ℕ → ℕ → Bool
unfolding from_bit_offset read_u32 read_bit read_u16
quick_verify_block buf magic_bit_offset max_blocksize =
    let total_bits = length buf * 8 in
    let after_magic = magic_bit_offset + 48 in
    let (crc, r1) = read_u32 32 (from_bit_offset buf after_magic) in
    let (randomised, r2) = read_bit r1 in
    let (orig_ptr, r3) = read_u32 24 r2 in
    let (bitmap, r4) = read_u16 16 r3 in
    if ltb total_bits (after_magic + 73)
    then false
    else passes crc (λ _. true)
        (passes randomised not
          (passes orig_ptr (λ v. ltb v max_blocksize) (passes bitmap (λ v. not (v == 0)) true)))

-- The loop of `find_quick_boundary`. A round moves on by a bit or more, so as many rounds as the
-- input has bits, and one more, are enough.
unfoldable pub quick_loop : ℕ → List ℕ → ℕ → ℕ → Option BlockBoundary
unfolding find_next_block quick_verify_block
quick_loop zero buf search_bit max_blocksize = none
quick_loop (suc fuel) buf search_bit max_blocksize = elim (find_next_block buf search_bit) [
  | none ↦ none
  | some candidate ↦ elim (ltb (length buf * 8) (candidate.bit_offset + 48 + 73)) [
    | true ↦ none
    | false ↦ elim (quick_verify_block buf candidate.bit_offset max_blocksize) [
      | true ↦ some candidate
      | false ↦ quick_loop fuel buf (candidate.bit_offset + 1) max_blocksize
    ]
  ]
]

unfoldable pub find_quick_boundary : List ℕ → ℕ → ℕ → Option BlockBoundary
unfolding quick_loop
find_quick_boundary buf start_bit max_blocksize =
    quick_loop (suc (length buf * 8)) buf start_bit max_blocksize

-- `sort_by_key(|b| b.bit_offset)`.
unfoldable pub insert_boundary : BlockBoundary → List BlockBoundary → List BlockBoundary
insert_boundary b [] = b ∷ []
insert_boundary b (c ∷ cs) =
    if leb b.bit_offset c.bit_offset then b ∷ c ∷ cs else c ∷ insert_boundary b cs

unfoldable pub sort_boundaries : List BlockBoundary → List BlockBoundary
unfolding insert_boundary
sort_boundaries [] = []
sort_boundaries (b ∷ bs) = insert_boundary b (sort_boundaries bs)

-- `dedup_by_key(|b| b.bit_offset)`: a boundary goes if it repeats the one that was kept last.
unfoldable pub dedup_after : BlockBoundary → List BlockBoundary → List BlockBoundary
dedup_after b [] = []
dedup_after b (c ∷ cs) = elim (b.bit_offset == c.bit_offset) [
  | true ↦ dedup_after b cs
  | false ↦ c ∷ dedup_after c cs
]

unfoldable pub dedup_boundaries : List BlockBoundary → List BlockBoundary
unfolding dedup_after
dedup_boundaries [] = []
dedup_boundaries (b ∷ bs) = b ∷ dedup_after b bs

-- `.into_iter().flatten().collect()` over options.
abbrev pub present : List (Option BlockBoundary) → List BlockBoundary
present [] = []
present (none ∷ os) = present os
present (some b ∷ os) = b ∷ present os

unfoldable pub split_boundaries_parallel : List ℕ → ℕ → ℕ → List BlockBoundary
unfolding par_map find_quick_boundary sort_boundaries dedup_boundaries
split_boundaries_parallel buf n_splits max_blocksize =
    let boundaries =
      par_map (n_splits - 1)
        (λ idx. find_quick_boundary buf (length buf * 8 * (idx + 1) / n_splits) max_blocksize) in
    if leb n_splits 1 || length buf == 0
    then []
    else dedup_boundaries (sort_boundaries (present boundaries))

-- The loop of `split_boundaries`, with the boundary that was added last.
unfoldable pub split_loop : List ℕ → List ℕ → ℕ → Option BlockBoundary → List BlockBoundary
unfolding find_next_block
split_loop [] buf n_splits last = []
split_loop (i ∷ is) buf n_splits last = elim (find_next_block buf (length buf * 8 * i / n_splits)) [
  | none ↦ split_loop is buf n_splits last
  | some b ↦ elim last [
    | none ↦ b ∷ split_loop is buf n_splits (some b)
    | some prev ↦ elim (prev.bit_offset == b.bit_offset) [
      | true ↦ split_loop is buf n_splits (some prev)
      | false ↦ b ∷ split_loop is buf n_splits (some b)
    ]
  ]
]

unfoldable pub split_boundaries : List ℕ → ℕ → List BlockBoundary
unfolding split_loop
split_boundaries buf n_splits =
    if leb n_splits 1 || length buf == 0
    then []
    else split_loop (count_up 1 (n_splits - 1)) buf n_splits none

-- The loop of one thread of `find_all_blocks_parallel`. A round moves on by 48 bits or more.
unfoldable pub chunk_loop : ℕ → List ℕ → ℕ → ℕ → List BlockBoundary
unfolding find_next_block
chunk_loop zero buf bit end_bit = []
chunk_loop (suc fuel) buf bit end_bit = elim (ltb bit end_bit) [
  | false ↦ []
  | true ↦ elim (find_next_block buf bit) [
    | none ↦ []
    | some b ↦ elim (ltb b.bit_offset end_bit) [
      | true ↦ b ∷ chunk_loop fuel buf (b.bit_offset + 48) end_bit
      | false ↦ []
    ]
  ]
]

unfoldable pub chunk_blocks : List ℕ → ℕ → ℕ → ℕ → List BlockBoundary
unfolding chunk_loop
chunk_blocks buf n chunk_size i =
    let start_byte = i * chunk_size in
    let end_byte = if ltb (i + 1) n then (i + 1) * chunk_size + 8 else length buf in
    chunk_loop (8 * length buf) buf (start_byte * 8) (end_byte * 8)

unfoldable pub find_all_blocks_parallel : List ℕ → ℕ → List BlockBoundary
unfolding find_all_blocks par_map chunk_blocks sort_boundaries dedup_boundaries
find_all_blocks_parallel buf n_threads =
    let n = max n_threads 1 in
    let per_thread = par_map n (chunk_blocks buf n (length buf / n)) in
    if ltb (length buf) 16 || n == 1
    then find_all_blocks buf
    else dedup_boundaries (sort_boundaries (concat per_thread))
