-- ===== src/BitStream/Load.antt =====
-- A load of eight bytes as one big-endian word, as `refill` (src/bitreader.rs) and
-- `find_next_block` (src/block_scan.rs) make it.
use lbzip2_rs.Prelude.{
  ℕ, ◌+◌, ◌-◌, ◌*◌, ◌^◌, ◌≤◌, ◌<◌, ◌≡◌, ap, ◌∙◌, arith, List, length, take, drop, length-take,
  length-drop,
}
use lbzip2_rs.Bits.{bit}
use lbzip2_rs.BitStream.{
  IsBytes, be_word, be_word-lt, be_word-stream_bit, stream_bit, stream_bit-drop, stream_bit-take,
  drop-IsBytes, take-IsBytes,
}

-- The eight bytes from byte `k` on.
abbrev pub slice : List ℕ → ℕ → List ℕ
slice bytes k = take 8 (drop k bytes)

module _ (bytes : List ℕ) (k : ℕ) (enough : k + 8 ≤ length bytes) (bytes_ok : IsBytes bytes) where
  length-slice : length (slice bytes k) ≡ 8
  length-slice = omega (arith, length-take 8 (drop k bytes), length-drop k bytes)

  slice-IsBytes : IsBytes (slice bytes k)
  slice-IsBytes = take-IsBytes 8 (drop k bytes) (drop-IsBytes k bytes bytes_ok)

  pub word-lt : be_word (slice bytes k) < 2 ^ 64
  word-lt =
      let e : 8 * length (slice bytes k) ≡ 64 = omega (arith, length-slice) in
      rw (ap (λ (t : ℕ). 2 ^ t) e) at (be_word-lt (slice bytes k) slice-IsBytes)

  pub word_bit :
      (i : ℕ) → i < 64 → bit (be_word (slice bytes k)) (63 - i) ≡ stream_bit bytes (8 * k + i)
  word_bit i lt =
      be_word-stream_bit (slice bytes k) (63 - i) i slice-IsBytes (omega (arith, length-slice))
      ∙ stream_bit-take 8 (drop k bytes) i (omega arith)
      ∙ stream_bit-drop k bytes i
