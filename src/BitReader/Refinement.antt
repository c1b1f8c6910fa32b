-- ===== src/BitReader/Refinement.antt =====
-- src/bitreader.rs: the readers' methods against the input as a sequence of bits.
use lbzip2_rs.Prelude.{
  ℕ, ◌+◌, ◌*◌, ◌%◌, ◌^◌, ◌≤◌, ◌<◌, ◌≡◌, refl, arith, inl, inr, true, false, Bool-cases, List,
  length, Option, none, some, ltb, leb, leb→le, ltb→lt, ltb→le, le→leb, lt→leb,
}
use native.Mathlib.Nat.{mod-eq_of_lt, lt_of_lt_of_le, pow-le-pow_right}
use lbzip2_rs.BitStream.{
  IsBytes, stream_bit, stream_bit-lt, field, field-lt, cursor_read, cursor_next,
}
use lbzip2_rs.BitReader.Defs.{
  BitReader, refill, new, refill_if_low, drop_bits, take_bits, read_bits, cut, read_u8, read_u16,
  read_u32, read_u64,
}
use lbzip2_rs.BitReader.Buffer.{Loaded-zero, Loaded-shl64, Loaded-shr64}
use lbzip2_rs.BitReader.Refill.{Represents, IsFull, refill-Represents}

-- A reader with an empty buffer.
abbrev pub fresh : List ℕ → ℕ → BitReader
fresh bytes k = record { bytes = bytes; byte_pos = k; buf = 0; bits_in_buf = 0 }

pub fresh-Represents :
    (bytes : List ℕ) (k : ℕ)
    → IsBytes bytes
    → k ≤ length bytes
    → Represents bytes (fresh bytes k) (k * 8)
fresh-Represents bytes k bytes_ok within = record {
  same = refl;
  bytes_ok = bytes_ok;
  within = within;
  here = omega arith;
  fits = omega arith;
  loaded = Loaded-zero bytes (k * 8);
}

-- For bytes, a new reader stands at their first bit.
pub new-Represents : (bytes : List ℕ) → IsBytes bytes → Represents bytes (new bytes) 0
unfolding new
new-Represents bytes bytes_ok =
    (refill-Represents (omega arith) (fresh-Represents bytes 0 bytes_ok (omega arith))).0

pub drop_bits-Represents :
    {bytes : List ℕ} {r : BitReader} {pos : ℕ} (n : ℕ)
    → n ≤ r.bits_in_buf
    → n < 64
    → Represents bytes r pos
    → Represents bytes (drop_bits n r) (pos + n)
drop_bits-Represents n le lt rep = record {
  same = rep.same;
  bytes_ok = rep.bytes_ok;
  within = rep.within;
  here = omega (arith, rep.here);
  fits = omega (arith, rep.fits);
  loaded = Loaded-shl64 n le lt rep.fits rep.loaded;
}

pub refill_if_low-Represents :
    {bytes : List ℕ} {r : BitReader} {pos : ℕ}
    → Represents bytes r pos
    → Represents bytes (refill_if_low r) pos
unfolding refill_if_low
refill_if_low-Represents {r = r} rep = elim (Bool-cases (leb r.bits_in_buf 32)) [
  | inl low ↦ rw low (refill-Represents (omega (arith, leb→le r.bits_in_buf 32 low)) rep).0
  | inr high ↦ rw high rep
]

-- A method's result as the specification has it, with a state that stands where it should.
abbrev pub Reads {ℓ} : {A : Type ℓ} → List ℕ → ℕ → Option A × BitReader → Option A → Type ℓ
Reads bytes next result value = (r' : BitReader) × (result ≡ (value, r')) × Represents bytes r' next

take_bits_lem :
    {bytes : List ℕ} {r : BitReader} {pos : ℕ} (n : ℕ)
    → 0 < n
    → n ≤ 57
    → n ≤ r.bits_in_buf
    → Represents bytes r pos
    → Reads bytes (pos + n) (take_bits n r) (some (field (stream_bit bytes) pos n))
unfolding take_bits
take_bits_lem {r = r} n pos_n le has rep = (
  refill_if_low (drop_bits n r),
  rw (Loaded-shr64 n has pos_n (omega arith) rep.loaded),
  refill_if_low-Represents (drop_bits-Represents n has (omega arith) rep),
)

-- What the two paths of a read share: the bits are there, or they are not.
module _ {bytes : List ℕ} {r : BitReader} {pos : ℕ} (n : ℕ) (rep : Represents bytes r pos) where
  pub there : n ≤ r.bits_in_buf → leb (pos + n) (8 * length bytes) ≡ true
  there h = le→leb (pos + n) (8 * length bytes) (omega (arith, rep.here, rep.within))

  pub short : n ≤ 57 → r.bits_in_buf < n → IsFull bytes r → leb (pos + n) (8 * length bytes) ≡ false
  short le h full = lt→leb (pos + n) (8 * length bytes) (ground (arith, rep.here, rep.within))

  pub take_bits-Reads :
      0 < n
      → n ≤ 57
      → n ≤ r.bits_in_buf
      → Reads bytes (cursor_next bytes pos n) (take_bits n r) (cursor_read bytes pos n)
  take_bits-Reads pos_n le has = rw (there has) (take_bits_lem n pos_n le has rep)

  none-Reads :
      n ≤ 57
      → r.bits_in_buf < n
      → IsFull bytes r
      → Reads bytes (cursor_next bytes pos n) (none, r) (cursor_read bytes pos n)
  none-Reads le lt full = rw (short le lt full) (r, refl, rep)

-- For a reader that stands at `pos` and 1 to 57 bits, `read_bits` gives the next bits as a number,
-- and the reader after it stands behind them; if the input has fewer bits left, it gives nothing
-- and stays at `pos`.
pub read_bits-Reads :
    (bytes : List ℕ) (r : BitReader) (pos n : ℕ)
    → Represents bytes r pos
    → 0 < n
    → n ≤ 57
    → Reads bytes (cursor_next bytes pos n) (read_bits n r) (cursor_read bytes pos n)
unfolding read_bits
read_bits-Reads bytes r pos n rep pos_n le =
    let same : n % 256 ≡ n = mod-eq_of_lt (omega arith) in
    rw same (elim (Bool-cases (ltb r.bits_in_buf n)) [
      | inl low ↦
          let (rep', full) =
            refill-Represents {r = r} (omega (arith, ltb→lt r.bits_in_buf n low)) rep in
          rw low (elim (Bool-cases (ltb (refill r).bits_in_buf n)) [
            | inl end ↦ rw end (none-Reads n rep' le (ltb→lt (refill r).bits_in_buf n end) full)
            | inr enough ↦
                rw enough (take_bits-Reads n rep' pos_n le (ltb→le (refill r).bits_in_buf n enough))
          ])
      | inr high ↦ rw high (take_bits-Reads n rep pos_n le (ltb→le r.bits_in_buf n high))
    ])

-- The reads cut to a narrower type lose nothing, since the field fits it.
cut-Reads :
    (bytes : List ℕ) (pos n w next : ℕ) (o : Option ℕ × BitReader)
    → n ≤ w
    → Reads bytes next o (cursor_read bytes pos n)
    → Reads bytes next (cut (2 ^ w) o) (cursor_read bytes pos n)
cut-Reads bytes pos n w next o le (r', e, rep) =
    elim (Bool-cases (leb (pos + n) (8 * length bytes))) [
      | inl there ↦
          let small : field (stream_bit bytes) pos n < 2 ^ w =
            lt_of_lt_of_le (field-lt (stream_bit bytes) pos n (stream_bit-lt bytes))
              (pow-le-pow_right {n = 2} (omega arith) le) in
          let fits : field (stream_bit bytes) pos n % 2 ^ w ≡ field (stream_bit bytes) pos n =
            mod-eq_of_lt small in
          (r', rw (e, there, fits), rep)
      | inr short ↦ (r', rw (e, short), rep)
    ]

module _ (bytes : List ℕ) (r : BitReader) (pos n : ℕ) (rep : Represents bytes r pos)
    (pos_n : 0 < n) where
  -- For a reader that stands at `pos` and 1 to 8 bits, `read_u8` gives the next bits as a number,
  -- and the reader after it stands behind them; if the input has fewer bits left, it gives
  -- nothing and stays at `pos`.
  pub read_u8-Reads :
      n ≤ 8 → Reads bytes (cursor_next bytes pos n) (read_u8 n r) (cursor_read bytes pos n)
  unfolding read_u8
  read_u8-Reads le =
      cut-Reads bytes pos n 8 (cursor_next bytes pos n) (read_bits n r) le
        (read_bits-Reads bytes r pos n rep pos_n (omega arith))

  -- For a reader that stands at `pos` and 1 to 16 bits, `read_u16` gives the next bits as a number,
  -- and the reader after it stands behind them; if the input has fewer bits left, it gives
  -- nothing and stays at `pos`.
  pub read_u16-Reads :
      n ≤ 16 → Reads bytes (cursor_next bytes pos n) (read_u16 n r) (cursor_read bytes pos n)
  unfolding read_u16
  read_u16-Reads le =
      cut-Reads bytes pos n 16 (cursor_next bytes pos n) (read_bits n r) le
        (read_bits-Reads bytes r pos n rep pos_n (omega arith))

  -- For a reader that stands at `pos` and 1 to 32 bits, `read_u32` gives the next bits as a number,
  -- and the reader after it stands behind them; if the input has fewer bits left, it gives
  -- nothing and stays at `pos`.
  pub read_u32-Reads :
      n ≤ 32 → Reads bytes (cursor_next bytes pos n) (read_u32 n r) (cursor_read bytes pos n)
  unfolding read_u32
  read_u32-Reads le =
      cut-Reads bytes pos n 32 (cursor_next bytes pos n) (read_bits n r) le
        (read_bits-Reads bytes r pos n rep pos_n (omega arith))

  -- For a reader that stands at `pos` and 1 to 57 bits, `read_u64` gives the next bits as a number,
  -- and the reader after it stands behind them; if the input has fewer bits left, it gives
  -- nothing and stays at `pos`.
  pub read_u64-Reads :
      n ≤ 57 → Reads bytes (cursor_next bytes pos n) (read_u64 n r) (cursor_read bytes pos n)
  unfolding read_u64
  read_u64-Reads le = read_bits-Reads bytes r pos n rep pos_n le
