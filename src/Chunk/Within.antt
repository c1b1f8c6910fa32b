-- ===== src/Chunk/Within.antt =====
-- src/chunk.rs, `split_chunk`: the split stays within the chunk.
use lbzip2_rs.Prelude.{
  ℕ, zero, suc, ◌+◌, ◌-◌, ◌*◌, ◌/◌, ◌≤◌, ◌<◌, ◌≡◌, refl, arith, Bool, true, false, ◌||◌, Bool-cases,
  inl, inr, List, [], ◌∷◌, map, length, Option, none, some, All, leb, ltb, ltb→le, ◌==◌,
  if◌then◌else◌,
}
use lbzip2_rs.ParMap.{par_map}
use lbzip2_rs.Scan.Defs.{BlockBoundary, find_next_block}
use lbzip2_rs.Scan.Split.{
  quick_verify_block, quick_loop, find_quick_boundary, sort_boundaries, dedup_boundaries, present,
  split_boundaries_parallel,
}
use lbzip2_rs.Scan.Merge.{merge_lem}
use lbzip2_rs.Chunk.Defs.{add_splits, consumed_bytes}

-- The value of an option that has one.
abbrev pub Each : {A : Type 0} → (A → Type 0) → Option A → Type 0
Each P none = Unit
Each P (some a) = P a

abbrev Inside : List ℕ → BlockBoundary → Type 0
Inside buf b = b.bit_offset ≤ 8 * length buf

candidate_step :
    (fuel : ℕ) (buf : List ℕ) (search_bit m : ℕ) (o : Option BlockBoundary)
    → find_next_block buf search_bit ≡ o
    → ((bit : ℕ) → Each (Inside buf) (quick_loop fuel buf bit m))
    → Each (Inside buf) (quick_loop (suc fuel) buf search_bit m)
unfolding quick_loop
candidate_step fuel buf search_bit m none e later = rw (e, Each, quick_loop) tt
candidate_step fuel buf search_bit m (some c) e later =
    elim (Bool-cases (ltb (length buf * 8) (c.bit_offset + 48 + 73))) [
      | inl beyond ↦ rw (e, beyond, Each, quick_loop) tt
      | inr within ↦ elim (Bool-cases (quick_verify_block buf c.bit_offset m)) [
        | inl good ↦
            rw (e, within, good, Each, quick_loop)
              (omega (arith, ltb→le (length buf * 8) (c.bit_offset + 48 + 73) within))
        | inr bad ↦ rw (e, within, bad, quick_loop) (later (c.bit_offset + 1))
      ]
    ]

quick_loop-Inside :
    (fuel : ℕ) (buf : List ℕ) (search_bit m : ℕ)
    → Each (Inside buf) (quick_loop fuel buf search_bit m)
unfolding quick_loop
quick_loop-Inside zero buf search_bit m = tt
quick_loop-Inside (suc fuel) buf search_bit m =
    candidate_step fuel buf search_bit m (find_next_block buf search_bit) refl
      (λ bit. quick_loop-Inside fuel buf bit m)

present-more :
    (P : BlockBoundary → Type 0) (o : Option BlockBoundary) (os : List (Option BlockBoundary))
    → Each P o
    → All P (present os)
    → All P (present (o ∷ os))
present-more P none os g h = h
present-more P (some b) os g h = (g, h)

present-Inside :
    (P : BlockBoundary → Type 0) (f : ℕ → Option BlockBoundary) (is : List ℕ)
    → ((i : ℕ) → Each P (f i))
    → All P (present (map f is))
present-Inside P f [] h = tt
present-Inside P f (i ∷ is) h = present-more P (f i) (map f is) (h i) (present-Inside P f is h)

if-All :
    (P : BlockBoundary → Type 0) (b : Bool) (xs : List BlockBoundary)
    → All P xs
    → All P (if b then [] else xs)
if-All P true xs h = tt
if-All P false xs h = h

splits-Inside :
    (buf : List ℕ) (n_splits m : ℕ) → All (Inside buf) (split_boundaries_parallel buf n_splits m)
unfolding split_boundaries_parallel par_map find_quick_boundary
splits-Inside buf n_splits m =
    let f : ℕ → Option BlockBoundary =
      λ idx. find_quick_boundary buf (length buf * 8 * (idx + 1) / n_splits) m in
    let found : List BlockBoundary = present (par_map (n_splits - 1) f) in
    if-All (Inside buf) (leb n_splits 1 || length buf == 0)
      (dedup_boundaries (sort_boundaries found))
      ((merge_lem (Inside buf) found (
        present-Inside (Inside buf) f _ (λ idx.
          quick_loop-Inside (suc (length buf * 8)) buf (length buf * 8 * (idx + 1) / n_splits)
            m))).1)

add_splits-All :
    (P : BlockBoundary → Type 0) (prev : BlockBoundary) (splits : List BlockBoundary)
    → All P splits
    → All P (add_splits prev splits)
unfolding add_splits
add_splits-All P prev [] h = tt
add_splits-All P prev (s ∷ splits) h = elim (Bool-cases (prev.bit_offset == s.bit_offset)) [
  | inl same ↦ rw (same, add_splits) (add_splits-All P prev splits h.1)
  | inr other ↦ rw (other, add_splits) (h.0, add_splits-All P s splits h.1)
]

-- Behind the first segment, the bytes that are consumed are within the chunk.
pub consumed_bytes-within :
    (buf : List ℕ) (first : BlockBoundary) (n_splits m n : ℕ)
    → 0 < n
    → consumed_bytes buf (first ∷ add_splits first (split_boundaries_parallel buf n_splits m)) n
      ≤ length buf
consumed_bytes-within buf first n_splits m zero some_ = absurd (omega arith)
consumed_bytes-within buf first n_splits m (suc i) some_ =
    among (add_splits first (split_boundaries_parallel buf n_splits m)) i (
      add_splits-All (Inside buf) first (split_boundaries_parallel buf n_splits m)
        (splits-Inside buf n_splits m))
  where
    among :
        (bs : List BlockBoundary) (i : ℕ)
        → All (Inside buf) bs
        → consumed_bytes buf (first ∷ bs) (suc i) ≤ length buf
    among [] i h = omega arith
    among (b ∷ bs) zero h = omega (arith, h.0)
    among (b ∷ bs) (suc i) h = among bs i h.1
