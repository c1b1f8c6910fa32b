-- ===== src/Scan/Chunks.antt =====
-- src/block_scan.rs, `find_all_blocks_parallel`: the chunks that the threads scan, and the list of
-- all boundaries.
use lbzip2_rs.Prelude.{
  All-weaken, ℕ, zero, suc, ◌+◌, ◌-◌, ◌*◌, ◌/◌, ◌≤◌, ◌<◌, max, ◌≡◌, refl, arith, dec_lt, ℕ_discrete,
  ◌⊎◌, inl, inr, true, false, Bool-cases, ◌||◌, List, [], ◌∷◌, ◌++◌, map, length, All, count_up,
  concat, none, some, Option-cases, ltb, ltb→lt, lt→ltb, ◌==◌,
}
use lbzip2_rs.BitStream.{IsBytes}
use lbzip2_rs.Magic.{HasMagic}
use lbzip2_rs.ParMap.{par_map}
use lbzip2_rs.Scan.Defs.{BlockBoundary, find_next_block, find_all_blocks}
use lbzip2_rs.Scan.Split.{chunk_loop, chunk_blocks, find_all_blocks_parallel}
use lbzip2_rs.Scan.Found.{find_next_block_sound, find_next_block_complete}
use lbzip2_rs.Scan.All.{
  Covers, IsSpaced, IsBoundary, find_all_blocks_sound, find_all_blocks_complete,
}
use lbzip2_rs.Scan.Merge.{IsIncreasing, merge_lem}

chunk_loop_past :
    (fuel : ℕ) (buf : List ℕ) (bit end_bit : ℕ)
    → ltb bit end_bit ≡ false
    → chunk_loop (suc fuel) buf bit end_bit ≡ []
unfolding chunk_loop
chunk_loop_past fuel buf bit end_bit e = rw (e, chunk_loop) refl

chunk_loop_end :
    (fuel : ℕ) (buf : List ℕ) (bit end_bit : ℕ)
    → ltb bit end_bit ≡ true
    → find_next_block buf bit ≡ none
    → chunk_loop (suc fuel) buf bit end_bit ≡ []
unfolding chunk_loop
chunk_loop_end fuel buf bit end_bit e f = rw (e, f, chunk_loop) refl

chunk_loop_out :
    (fuel : ℕ) (buf : List ℕ) (bit end_bit : ℕ) (b : BlockBoundary)
    → ltb bit end_bit ≡ true
    → find_next_block buf bit ≡ some b
    → ltb b.bit_offset end_bit ≡ false
    → chunk_loop (suc fuel) buf bit end_bit ≡ []
unfolding chunk_loop
chunk_loop_out fuel buf bit end_bit b e f g = rw (e, f, g, chunk_loop) refl

chunk_loop_more :
    (fuel : ℕ) (buf : List ℕ) (bit end_bit : ℕ) (b : BlockBoundary)
    → ltb bit end_bit ≡ true
    → find_next_block buf bit ≡ some b
    → ltb b.bit_offset end_bit ≡ true
    → chunk_loop (suc fuel) buf bit end_bit ≡ b ∷ chunk_loop fuel buf (b.bit_offset + 48) end_bit
unfolding chunk_loop
chunk_loop_more fuel buf bit end_bit b e f g = rw (e, f, g, chunk_loop) refl

module _ (buf : List ℕ) (bytes_ok : IsBytes buf) where
  chunk_loop-IsBoundary :
      (fuel bit end_bit : ℕ) → All (IsBoundary buf) (chunk_loop fuel buf bit end_bit)
  unfolding chunk_loop
  chunk_loop-IsBoundary zero bit end_bit = tt
  chunk_loop-IsBoundary (suc fuel) bit end_bit = elim (Bool-cases (ltb bit end_bit)) [
    | inr past ↦ rw (chunk_loop_past fuel buf bit end_bit past) tt
    | inl before ↦ elim (Option-cases (find_next_block buf bit)) [
      | inl end ↦ rw (chunk_loop_end fuel buf bit end_bit before end) tt
      | inr (b, found) ↦ elim (Bool-cases (ltb b.bit_offset end_bit)) [
        | inr out ↦ rw (chunk_loop_out fuel buf bit end_bit b before found out) tt
        | inl inside ↦
            let (lo, within, magic) = find_next_block_sound buf bit bytes_ok b found in
            rw (chunk_loop_more fuel buf bit end_bit b before found inside)
              ((within, magic), chunk_loop-IsBoundary fuel (b.bit_offset + 48) end_bit)
      ]
    ]
  ]

  chunk_loop-Covers :
      (fuel bit end_bit p : ℕ)
      → 8 * length buf ≤ bit + fuel
      → bit ≤ p
      → p < end_bit
      → p + 64 ≤ 8 * length buf
      → HasMagic buf p
      → Covers (chunk_loop fuel buf bit end_bit) p
  chunk_loop-Covers zero bit end_bit p enough from upto room magic = absurd (omega arith)
  chunk_loop-Covers (suc fuel) bit end_bit p enough from upto room magic =
      let (b, found, le) = find_next_block_complete buf bit bytes_ok p from room magic in
      let (lo, within, is_magic) = find_next_block_sound buf bit bytes_ok b found in
      rw
        (chunk_loop_more fuel buf bit end_bit b (lt→ltb bit end_bit (omega arith)) found
          (lt→ltb b.bit_offset end_bit (omega arith)))
        (elim (dec_lt p (b.bit_offset + 48)) [
          | yes here ↦ inl (le, here)
          | no later ↦ inr (
              chunk_loop-Covers fuel (b.bit_offset + 48) end_bit p (omega arith) (omega arith) upto
                room magic)
        ])

  chunk_blocks-Covers :
      (n chunk_size i p : ℕ)
      → i < n
      → i * chunk_size * 8 ≤ p
      → (suc i ≡ n) ⊎ (p < suc i * chunk_size * 8)
      → p + 64 ≤ 8 * length buf
      → HasMagic buf p
      → Covers (chunk_blocks buf n chunk_size i) p
  unfolding chunk_blocks
  chunk_blocks-Covers n chunk_size i p lt lo hi room magic = elim (Bool-cases (ltb (i + 1) n)) [
    | inl inner ↦
        let e : i + 1 ≡ suc i = omega arith in
        rw inner (
          chunk_loop-Covers (8 * length buf) (i * chunk_size * 8) (((i + 1) * chunk_size + 8) * 8) p
            (omega arith) lo (rw e (ground (arith, ltb→lt (i + 1) n inner))) room magic)
    | inr last ↦ rw last (
        chunk_loop-Covers (8 * length buf) (i * chunk_size * 8) (length buf * 8) p (omega arith) lo
          (omega arith) room magic)
  ]

append-All :
    (P : BlockBoundary → Type 0) (xs ys : List BlockBoundary)
    → All P xs
    → All P ys
    → All P (xs ++ ys)
append-All P [] ys h g = g
append-All P (x ∷ xs) ys h g = (h.0, append-All P xs ys h.1 g)

append-Covers :
    (xs ys : List BlockBoundary) (p : ℕ) → Covers xs p ⊎ Covers ys p → Covers (xs ++ ys) p
append-Covers [] ys p (inl h) = absurd h
append-Covers [] ys p (inr h) = h
append-Covers (x ∷ xs) ys p (inl (inl here)) = inl here
append-Covers (x ∷ xs) ys p (inl (inr h)) = inr (append-Covers xs ys p (inl h))
append-Covers (x ∷ xs) ys p (inr h) = inr (append-Covers xs ys p (inr h))

concat-All :
    (P : BlockBoundary → Type 0) (f : ℕ → List BlockBoundary) (a n : ℕ)
    → ((i : ℕ) → All P (f i))
    → All P (concat (map f (count_up a n)))
concat-All P f a zero h = tt
concat-All P f a (suc n) h =
    append-All P (f a) (concat (map f (count_up (suc a) n))) (h a) (concat-All P f (suc a) n h)

concat-Covers :
    (f : ℕ → List BlockBoundary) (a n i p : ℕ)
    → a ≤ i
    → i < a + n
    → Covers (f i) p
    → Covers (concat (map f (count_up a n))) p
concat-Covers f a zero i p lo hi h = absurd (omega arith)
concat-Covers f a (suc n) i p lo hi h =
    append-Covers (f a) (concat (map f (count_up (suc a) n))) p (elim (ℕ_discrete a i) [
      | yes here ↦ inl (rw here h)
      | no later ↦ inr (concat-Covers f (suc a) n i p (omega arith) (omega arith) h)
    ])

-- The chunk of `chunk_size` bytes that has bit `p`, among those up to `m`; the last has the rest.
chunk_of :
    (n chunk_size p m : ℕ)
    → m < n
    → (suc m ≡ n) ⊎ (p < suc m * chunk_size * 8)
    → (i : ℕ) × (i < n) × (i * chunk_size * 8 ≤ p) × ((suc i ≡ n) ⊎ (p < suc i * chunk_size * 8))
chunk_of n chunk_size p zero lt h = (0, lt, omega arith, h)
chunk_of n chunk_size p (suc m) lt h = elim (dec_lt p (suc m * chunk_size * 8)) [
  | yes before ↦ chunk_of n chunk_size p m (omega arith) (inr before)
  | no after ↦ (suc m, lt, omega arith, h)
]

pub IsIncreasing-IsSpaced :
    (lo : ℕ) (bs : List BlockBoundary)
    → IsSpaced lo bs
    → All (λ c. lo ≤ c.bit_offset) bs × IsIncreasing bs
IsIncreasing-IsSpaced lo [] h = (tt, tt)
IsIncreasing-IsSpaced lo (b ∷ bs) h =
    let (above, rest) = IsIncreasing-IsSpaced (b.bit_offset + 48) bs h.1 in
    (
      (h.0, All-weaken bs (λ c l. omega (arith, h.0)) above),
      (All-weaken bs (λ c l. omega arith) above, rest),
    )

module _ (buf : List ℕ) (n_threads : ℕ) (bytes_ok : IsBytes buf) where
  -- In a buffer of bytes, the boundaries that `find_all_blocks_parallel` gives are block magics
  -- within the buffer, in strictly increasing order.
  pub find_all_blocks_parallel_sound :
      IsIncreasing (find_all_blocks_parallel buf n_threads)
      × All (IsBoundary buf) (find_all_blocks_parallel buf n_threads)
  unfolding find_all_blocks_parallel par_map chunk_blocks
  find_all_blocks_parallel_sound =
      let n : ℕ = max n_threads 1 in
      elim (Bool-cases (ltb (length buf) 16 || n == 1)) [
        | inl serial ↦
            let (spaced, all) = find_all_blocks_sound buf bytes_ok in
            rw serial ((IsIncreasing-IsSpaced 0 (find_all_blocks buf) spaced).1, all)
        | inr parallel ↦
            let all =
              concat-All (IsBoundary buf) (chunk_blocks buf n (length buf / n)) 0 n
                (λ i. chunk_loop-IsBoundary buf bytes_ok (8 * length buf) _ _) in
            let (increasing, kept, covers) = merge_lem (IsBoundary buf) _ all in
            rw parallel (increasing, kept)
      ]

  -- In a buffer of bytes, `find_all_blocks_parallel` gives for each block magic, with 64 bits of
  -- the buffer from its first bit on, a boundary at it or at most 47 bits before it, for any number
  -- of threads.
  pub find_all_blocks_parallel_complete :
      (p : ℕ)
      → p + 64 ≤ 8 * length buf
      → HasMagic buf p
      → Covers (find_all_blocks_parallel buf n_threads) p
  unfolding find_all_blocks_parallel par_map chunk_blocks
  find_all_blocks_parallel_complete p room magic =
      let n : ℕ = max n_threads 1 in
      elim (Bool-cases (ltb (length buf) 16 || n == 1)) [
        | inl serial ↦ rw serial (find_all_blocks_complete buf bytes_ok p room magic)
        | inr parallel ↦
            let chunk_size : ℕ = length buf / n in
            let all =
              concat-All (IsBoundary buf) (chunk_blocks buf n chunk_size) 0 n
                (λ i. chunk_loop-IsBoundary buf bytes_ok (8 * length buf) _ _) in
            let (increasing, kept, covers) = merge_lem (IsBoundary buf) _ all in
            let (i, lt, lo, hi) =
              chunk_of n chunk_size p (n - 1) (omega arith) (inl (omega arith)) in
            rw parallel (
              covers p (
                concat-Covers (chunk_blocks buf n chunk_size) 0 n i p (omega arith) (omega arith)
                  (chunk_blocks-Covers buf bytes_ok n chunk_size i p lt lo hi room magic)))
      ]
