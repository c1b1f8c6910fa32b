-- ===== src/Scan/All.antt =====
-- src/block_scan.rs, `find_all_blocks`: the list of all boundaries.
use lbzip2_rs.Prelude.{
  ℕ, zero, suc, ◌+◌, ◌*◌, ◌≤◌, ◌<◌, ◌≡◌, refl, arith, dec_lt, ◌⊎◌, inl, inr, List, [], ◌∷◌, length,
  All, none, some, Option-cases,
}
use lbzip2_rs.BitStream.{IsBytes}
use lbzip2_rs.Magic.{HasMagic}
use lbzip2_rs.Scan.Defs.{BlockBoundary, find_next_block, collect_blocks, find_all_blocks}
use lbzip2_rs.Scan.Found.{find_next_block_sound, find_next_block_complete}

-- One of the boundaries is at `p`, or at most 47 bits before it.
abbrev pub Covers : List BlockBoundary → ℕ → Type 0
Covers [] p = ⊥
Covers (b ∷ bs) p = ((b.bit_offset ≤ p) × (p < b.bit_offset + 48)) ⊎ Covers bs p

-- The boundaries are in order from `lo` on, and their magics do not overlap.
abbrev pub IsSpaced : ℕ → List BlockBoundary → Type 0
IsSpaced lo [] = Unit
IsSpaced lo (b ∷ bs) = (lo ≤ b.bit_offset) × IsSpaced (b.bit_offset + 48) bs

-- A boundary of the buffer.
abbrev pub IsBoundary : List ℕ → BlockBoundary → Type 0
IsBoundary buf b = (b.bit_offset + 48 ≤ 8 * length buf) × HasMagic buf b.bit_offset

collect_blocks_end :
    (fuel : ℕ) (buf : List ℕ) (bit : ℕ)
    → find_next_block buf bit ≡ none
    → collect_blocks (suc fuel) buf bit ≡ []
unfolding collect_blocks
collect_blocks_end fuel buf bit e = rw (e, collect_blocks) refl

collect_blocks_more :
    (fuel : ℕ) (buf : List ℕ) (bit : ℕ) (b : BlockBoundary)
    → find_next_block buf bit ≡ some b
    → collect_blocks (suc fuel) buf bit ≡ b ∷ collect_blocks fuel buf (b.bit_offset + 48)
unfolding collect_blocks
collect_blocks_more fuel buf bit b e = rw (e, collect_blocks) refl

module _ (buf : List ℕ) (bytes_ok : IsBytes buf) where
  collect_blocks-Covers :
      (fuel bit p : ℕ)
      → 8 * length buf ≤ bit + fuel
      → bit ≤ p
      → p + 64 ≤ 8 * length buf
      → HasMagic buf p
      → Covers (collect_blocks fuel buf bit) p
  unfolding collect_blocks
  collect_blocks-Covers zero bit p enough from room magic = absurd (omega arith)
  collect_blocks-Covers (suc fuel) bit p enough from room magic =
      let (b, found, le) = find_next_block_complete buf bit bytes_ok p from room magic in
      let (lo, inside, is_magic) = find_next_block_sound buf bit bytes_ok b found in
      rw (collect_blocks_more fuel buf bit b found) (elim (dec_lt p (b.bit_offset + 48)) [
        | yes here ↦ inl (le, here)
        | no later ↦ inr (
            collect_blocks-Covers fuel (b.bit_offset + 48) p (omega arith) (omega arith) room magic)
      ])

  collect_blocks-IsSpaced :
      (fuel bit : ℕ)
      → IsSpaced bit (collect_blocks fuel buf bit)
        × All (IsBoundary buf) (collect_blocks fuel buf bit)
  unfolding collect_blocks
  collect_blocks-IsSpaced zero bit = (tt, tt)
  collect_blocks-IsSpaced (suc fuel) bit = elim (Option-cases (find_next_block buf bit)) [
    | inl end ↦ rw (collect_blocks_end fuel buf bit end) (tt, tt)
    | inr (b, found) ↦
        let (lo, inside, is_magic) = find_next_block_sound buf bit bytes_ok b found in
        let (spaced, all) = collect_blocks-IsSpaced fuel (b.bit_offset + 48) in
        rw (collect_blocks_more fuel buf bit b found) ((lo, spaced), ((inside, is_magic), all))
  ]

  -- In a buffer of bytes, the boundaries that `find_all_blocks` gives are block magics within the
  -- buffer, in increasing order and without overlap.
  pub find_all_blocks_sound :
      IsSpaced 0 (find_all_blocks buf) × All (IsBoundary buf) (find_all_blocks buf)
  unfolding find_all_blocks
  find_all_blocks_sound = collect_blocks-IsSpaced (8 * length buf) 0

  -- In a buffer of bytes, `find_all_blocks` gives for each block magic, with 64 bits of the buffer
  -- from its first bit on, a boundary at it or at most 47 bits before it.
  pub find_all_blocks_complete :
      (p : ℕ) → p + 64 ≤ 8 * length buf → HasMagic buf p → Covers (find_all_blocks buf) p
  unfolding find_all_blocks
  find_all_blocks_complete p room magic =
      collect_blocks-Covers (8 * length buf) 0 p (omega arith) (omega arith) room magic
