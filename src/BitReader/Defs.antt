-- ===== src/BitReader/Defs.antt =====
-- src/bitreader.rs: the state of a `BitReader` and its methods.
use lbzip2_rs.Prelude.{
  ℕ, zero, suc, ◌+◌, ◌-◌, ◌*◌, ◌/◌, ◌%◌, ◌^◌, min, bit_or, Bool, not, ◌&&◌, List, Option, none,
  some, length, get_or, take, drop, ltb, leb, ◌==◌, if◌then◌else◌,
}
use lbzip2_rs.BitStream.{be_word, shl64, shr64}

pub record BitReader : Type 0 where
  pub bytes : List ℕ
  pub byte_pos : ℕ
  pub buf : ℕ
  pub bits_in_buf : ℕ

-- `position` and `remaining`, for a reader within its bytes.
abbrev pub position : BitReader → ℕ
position r = r.byte_pos * 8 - r.bits_in_buf

abbrev pub remaining : BitReader → ℕ
remaining r = (length r.bytes - r.byte_pos) * 8 + r.bits_in_buf

-- One round of the byte-at-a-time loop of `refill`.
abbrev pub load_byte : BitReader → BitReader
load_byte r = record r {
  buf = bit_or r.buf (shl64 (get_or r.bytes r.byte_pos 0) (56 - r.bits_in_buf));
  byte_pos = r.byte_pos + 1;
  bits_in_buf = r.bits_in_buf + 8;
}

-- The loop itself. A round adds 8 bits, so eight rounds are enough.
unfoldable pub refill_tail : ℕ → BitReader → BitReader
refill_tail zero r = r
refill_tail (suc fuel) r =
    let rest = refill_tail fuel (load_byte r) in
    if leb r.bits_in_buf 56 && ltb r.byte_pos (length r.bytes) then rest else r

-- The fast path of `refill`: one load of 8 bytes.
unfoldable pub refill_word : BitReader → BitReader
unfolding be_word
refill_word r =
    let word = be_word (take 8 (drop r.byte_pos r.bytes)) in
    let loaded = (64 - r.bits_in_buf) / 8 in
    record r {
      buf = bit_or r.buf (shr64 word r.bits_in_buf);
      byte_pos = r.byte_pos + loaded;
      bits_in_buf = r.bits_in_buf + loaded * 8;
    }

unfoldable pub refill : BitReader → BitReader
unfolding refill_word refill_tail
refill r = if leb (r.byte_pos + 8) (length r.bytes) then refill_word r else refill_tail 8 r

unfoldable pub new : List ℕ → BitReader
unfolding refill
new bytes = refill (record { bytes = bytes; byte_pos = 0; buf = 0; bits_in_buf = 0 })

unfoldable pub from_bit_offset : List ℕ → ℕ → BitReader
unfolding refill
from_bit_offset bytes bit_offset =
    let byte_off = bit_offset / 8 in
    let sub_bits = bit_offset % 8 in
    let r = refill (record { bytes = bytes; byte_pos = byte_off; buf = 0; bits_in_buf = 0 }) in
    if ltb 0 sub_bits
    then record r { buf = shl64 r.buf sub_bits; bits_in_buf = r.bits_in_buf - sub_bits }
    else r

-- `if self.bits_in_buf <= 32 { self.refill() }`, with which a read ends.
unfoldable pub refill_if_low : BitReader → BitReader
unfolding refill
refill_if_low r = if leb r.bits_in_buf 32 then refill r else r

-- `buf <<= n; bits_in_buf -= n`.
abbrev pub drop_bits : ℕ → BitReader → BitReader
drop_bits n r = record r { buf = shl64 r.buf n; bits_in_buf = r.bits_in_buf - n }

unfoldable pub take_bit : BitReader → Option Bool × BitReader
unfolding refill_if_low
take_bit r = (some (not (shr64 r.buf 63 == 0)), refill_if_low (drop_bits 1 r))

unfoldable pub read_bit : BitReader → Option Bool × BitReader
unfolding take_bit refill
read_bit r =
    if r.bits_in_buf == 0
    then (let r' = refill r in if r'.bits_in_buf == 0 then (none, r') else take_bit r')
    else take_bit r

-- The iterator over the bits.
unfoldable pub next : BitReader → Option Bool × BitReader
unfolding read_bit
next r = read_bit r

unfoldable pub take_bits : ℕ → BitReader → Option ℕ × BitReader
unfolding refill_if_low
take_bits n r = (some (shr64 r.buf (64 - n)), refill_if_low (drop_bits n r))

unfoldable pub read_bits : ℕ → BitReader → Option ℕ × BitReader
unfolding take_bits refill
read_bits n r =
    if ltb r.bits_in_buf (n % 256)
    then (let r' = refill r in if ltb r'.bits_in_buf n then (none, r') else take_bits n r')
    else take_bits n r

-- `read_u8`, `read_u16`, `read_u32` and `read_u64` cut the value to their width.
abbrev pub cut : ℕ → Option ℕ × BitReader → Option ℕ × BitReader
cut m (none, r) = (none, r)
cut m (some v, r) = (some (v % m), r)

unfoldable pub read_u8 : ℕ → BitReader → Option ℕ × BitReader
unfolding read_bits
read_u8 n r = cut (2 ^ 8) (read_bits n r)

unfoldable pub read_u16 : ℕ → BitReader → Option ℕ × BitReader
unfolding read_bits
read_u16 n r = cut (2 ^ 16) (read_bits n r)

unfoldable pub read_u32 : ℕ → BitReader → Option ℕ × BitReader
unfolding read_bits
read_u32 n r = cut (2 ^ 32) (read_bits n r)

unfoldable pub read_u64 : ℕ → BitReader → Option ℕ × BitReader
unfolding read_bits
read_u64 n r = read_bits n r

-- The loop of `skip` with `n` bits left to skip. A round skips at least one, so `n` rounds do.
unfoldable pub skip_loop : ℕ → ℕ → BitReader → BitReader
unfolding refill
skip_loop zero n r = r
skip_loop (suc fuel) n r =
    let r' = if r.bits_in_buf == 0 then refill r else r in
    let amount = min n r'.bits_in_buf in
    let rest = skip_loop fuel (n - amount) (drop_bits amount r') in
    if n == 0 then r else if r'.bits_in_buf == 0 then r' else rest

unfoldable pub skip : ℕ → BitReader → BitReader
unfolding skip_loop
skip n r = skip_loop n n r

unfoldable pub peeked : ℕ → BitReader → Option ℕ × BitReader
peeked n r = (some (shr64 r.buf (64 - n)), r)

unfoldable pub peek : ℕ → BitReader → Option ℕ × BitReader
unfolding peeked refill
peek n r =
    if ltb r.bits_in_buf n
    then (let r' = refill r in if ltb r'.bits_in_buf n then (none, r') else peeked n r')
    else peeked n r

unfoldable pub consume : ℕ → BitReader → BitReader
consume n r = record r { buf = shl64 r.buf n; bits_in_buf = (r.bits_in_buf + 256 - n) % 256 }
