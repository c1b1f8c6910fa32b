-- ===== src/BitReader/Bit.antt =====
-- src/bitreader.rs, `read_bit` and `from_bit_offset` against the input as a sequence of bits.
use lbzip2_rs.Prelude.{
  ℕ, ◌+◌, ◌*◌, ◌/◌, ◌%◌, ◌≤◌, ◌≡◌, refl, arith, inl, inr, Bool, not, Bool-cases, List, length,
  Option, none, some, ltb, ◌==◌, ltb→le, ==_iff, ==_false,
}
use mathlib.Core.Path.{subst}
use lbzip2_rs.BitStream.{IsBytes, cursor_read, cursor_next}
use lbzip2_rs.BitReader.Defs.{
  BitReader, refill, from_bit_offset, refill_if_low, drop_bits, take_bit, read_bit,
}
use lbzip2_rs.BitReader.Buffer.{Loaded-shr64}
use lbzip2_rs.BitReader.Refill.{Represents, IsFull, refill-Represents}
use lbzip2_rs.BitReader.Refinement.{
  Reads, fresh, fresh-Represents, there, short, drop_bits-Represents, refill_if_low-Represents,
}

-- A bit as a Boolean.
abbrev pub to_flag : Option ℕ → Option Bool
to_flag none = none
to_flag (some v) = some (not (v == 0))

take_bit-Reads :
    {bytes : List ℕ} {r : BitReader} {pos : ℕ}
    → 1 ≤ r.bits_in_buf
    → Represents bytes r pos
    → Reads bytes (cursor_next bytes pos 1) (take_bit r) (to_flag (cursor_read bytes pos 1))
unfolding take_bit
take_bit-Reads {r = r} has rep = rw (there 1 rep has) (
  refill_if_low (drop_bits 1 r),
  rw (Loaded-shr64 1 has (omega arith) (omega arith) rep.loaded),
  refill_if_low-Represents (drop_bits-Represents 1 has (omega arith) rep),
)

none-flag :
    {bytes : List ℕ} {r : BitReader} {pos : ℕ}
    → r.bits_in_buf ≡ 0
    → IsFull bytes r
    → Represents bytes r pos
    → Reads bytes (cursor_next bytes pos 1) (none, r) (to_flag (cursor_read bytes pos 1))
none-flag {r = r} none_left full rep =
    rw (short 1 rep (omega arith) (omega arith) full) (r, refl, rep)

-- For a reader that stands at `pos`, `read_bit` gives the next bit, and the reader after it stands
-- behind it; at the end of the input it gives nothing and stays at `pos`.
pub read_bit-Reads :
    (bytes : List ℕ) (r : BitReader) (pos : ℕ)
    → Represents bytes r pos
    → Reads bytes (cursor_next bytes pos 1) (read_bit r) (to_flag (cursor_read bytes pos 1))
unfolding read_bit
read_bit-Reads bytes r pos rep = elim (Bool-cases (r.bits_in_buf == 0)) [
  | inl low ↦
      let (rep', full) =
        refill-Represents {r = r} (omega (arith, (==_iff r.bits_in_buf 0).0 low)) rep in
      rw low (elim (Bool-cases ((refill r).bits_in_buf == 0)) [
        | inl end ↦ rw end (none-flag ((==_iff (refill r).bits_in_buf 0).0 end) full rep')
        | inr enough ↦
            rw enough
              (take_bit-Reads (omega (arith, ==_false (refill r).bits_in_buf 0 enough)) rep')
      ])
  | inr high ↦ rw high (take_bit-Reads (omega (arith, ==_false r.bits_in_buf 0 high)) rep)
]

-- For bytes and a bit offset up to their end, `from_bit_offset` gives a reader that stands at it.
pub from_bit_offset-Represents :
    (bytes : List ℕ) (bit_offset : ℕ)
    → IsBytes bytes
    → bit_offset ≤ 8 * length bytes
    → Represents bytes (from_bit_offset bytes bit_offset) bit_offset
unfolding from_bit_offset
from_bit_offset-Represents bytes off bytes_ok within =
    let (rep, full) =
      refill-Represents {r = fresh bytes (off / 8)} (omega arith)
        (fresh-Represents bytes (off / 8) bytes_ok (omega arith)) in
    elim (Bool-cases (ltb 0 (off % 8))) [
      | inl sub ↦
          let at : off / 8 * 8 + off % 8 ≡ off = omega arith in
          rw sub (
            subst (Represents bytes (drop_bits (off % 8) (refill (fresh bytes (off / 8))))) at (
              drop_bits-Represents (off % 8) (ground (arith, rep.here, rep.within)) (omega arith)
                rep))
      | inr aligned ↦
          let at : off / 8 * 8 ≡ off = omega (arith, ltb→le 0 (off % 8) aligned) in
          rw aligned (subst (Represents bytes (refill (fresh bytes (off / 8)))) at rep)
    ]
