-- ===== src/Scan/Found.antt =====
-- src/block_scan.rs, `find_next_block`: what the search promises its callers.
use lbzip2_rs.Prelude.{
  ℕ, ◌+◌, ◌*◌, ◌≤◌, ◌≡◌, arith, dec_lt, List, length, Option, none, some, Option-cases, inl, inr,
}
use mathlib.Core.Path.{subst}
use lbzip2_rs.BitStream.{IsBytes}
use lbzip2_rs.Magic.{HasMagic}
use lbzip2_rs.Scan.Defs.{BlockBoundary, find_next_block}
use lbzip2_rs.Scan.Next.{FindsFirst, find_next_block-FindsFirst}

module _ (buf : List ℕ) (start_bit : ℕ) (bytes_ok : IsBytes buf) where
  finds :
      (o : Option BlockBoundary) → find_next_block buf start_bit ≡ o → FindsFirst buf start_bit o
  finds o e = subst (FindsFirst buf start_bit) e (find_next_block-FindsFirst buf start_bit bytes_ok)

  -- In a buffer of bytes, a boundary that the search gives is at or after the starting bit, its 48
  -- bits are within the buffer, and they are the block magic.
  pub find_next_block_sound :
      (b : BlockBoundary)
      → find_next_block buf start_bit ≡ some b
      → (start_bit ≤ b.bit_offset)
        × (b.bit_offset + 48 ≤ 8 * length buf)
        × HasMagic buf b.bit_offset
  find_next_block_sound b e =
      let (from, inside, magic, rest) = finds (some b) e in (from, inside, magic)

  -- In a buffer of bytes, no block magic stands between the starting bit and the boundary that the
  -- search gives.
  pub find_next_block_first :
      (b : BlockBoundary) (p : ℕ)
      → find_next_block buf start_bit ≡ some b
      → start_bit ≤ p
      → HasMagic buf p
      → b.bit_offset ≤ p
  find_next_block_first b p e from magic = elim (dec_lt p b.bit_offset) [
    | yes before ↦ absurd ((finds (some b) e).3 p from before magic)
    | no after ↦ omega arith
  ]

  -- In a buffer of bytes, a block magic at or after the starting bit, with 64 bits of the buffer
  -- from its first bit on, makes the search give a boundary, at that magic or before it.
  pub find_next_block_complete :
      (p : ℕ)
      → start_bit ≤ p
      → p + 64 ≤ 8 * length buf
      → HasMagic buf p
      → (b : BlockBoundary) × (find_next_block buf start_bit ≡ some b) × (b.bit_offset ≤ p)
  find_next_block_complete p from room magic = elim (Option-cases (find_next_block buf start_bit)) [
    | inl e ↦ absurd (finds none e p from room magic)
    | inr (b, e) ↦ (b, e, find_next_block_first b p e from magic)
  ]
