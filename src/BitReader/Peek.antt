-- ===== src/BitReader/Peek.antt =====
-- src/bitreader.rs, `peek` and `consume` against the input as a sequence of bits.
use lbzip2_rs.Prelude.{
  ℕ, ◌+◌, ◌-◌, ◌%◌, ◌≤◌, ◌<◌, ◌≡◌, refl, arith, inl, inr, Bool-cases, List, none, ltb, ltb→lt,
  ltb→le,
}
use lbzip2_rs.BitStream.{cursor_read}
use lbzip2_rs.BitReader.Defs.{BitReader, refill, drop_bits, peeked, peek, consume}
use lbzip2_rs.BitReader.Buffer.{Loaded-shr64}
use lbzip2_rs.BitReader.Refill.{Represents, IsFull, refill-Represents}
use lbzip2_rs.BitReader.Refinement.{Reads, there, short, drop_bits-Represents}

-- A look at the next bits moves nothing.
peeked-Reads :
    {bytes : List ℕ} {r : BitReader} {pos : ℕ} (n : ℕ)
    → 0 < n
    → n ≤ 56
    → n ≤ r.bits_in_buf
    → Represents bytes r pos
    → Reads bytes pos (peeked n r) (cursor_read bytes pos n)
unfolding peeked
peeked-Reads {r = r} n pos_n le has rep =
    rw (there n rep has) (r, rw (Loaded-shr64 n has pos_n (omega arith) rep.loaded), rep)

none-Peeks :
    {bytes : List ℕ} {r : BitReader} {pos : ℕ} (n : ℕ)
    → n ≤ 57
    → r.bits_in_buf < n
    → IsFull bytes r
    → Represents bytes r pos
    → Reads bytes pos (none, r) (cursor_read bytes pos n)
none-Peeks {r = r} n le lt full rep = rw (short n rep le lt full) (r, refl, rep)

-- For a reader that stands at `pos` and 1 to 56 bits, `peek` gives the next bits as a number, or
-- nothing if the input has fewer bits left, and the reader still stands at `pos`.
pub peek-Reads :
    (bytes : List ℕ) (r : BitReader) (pos n : ℕ)
    → Represents bytes r pos
    → 0 < n
    → n ≤ 56
    → Reads bytes pos (peek n r) (cursor_read bytes pos n)
unfolding peek
peek-Reads bytes r pos n rep pos_n le = elim (Bool-cases (ltb r.bits_in_buf n)) [
  | inl low ↦
      let (rep', full) =
        refill-Represents {r = r} (omega (arith, ltb→lt r.bits_in_buf n low)) rep in
      rw low (elim (Bool-cases (ltb (refill r).bits_in_buf n)) [
        | inl end ↦
            rw end (none-Peeks n (omega arith) (ltb→lt (refill r).bits_in_buf n end) full rep')
        | inr enough ↦
            rw enough (peeked-Reads n pos_n le (ltb→le (refill r).bits_in_buf n enough) rep')
      ])
  | inr high ↦ rw high (peeked-Reads n pos_n le (ltb→le r.bits_in_buf n high) rep)
]

-- For a reader that stands at `pos`, `consume` of fewer than 64 bits that its buffer has makes it
-- stand behind them.
pub consume-Represents :
    (bytes : List ℕ) (r : BitReader) (pos n : ℕ)
    → Represents bytes r pos
    → n ≤ r.bits_in_buf
    → n < 64
    → Represents bytes (consume n r) (pos + n)
unfolding consume
consume-Represents bytes r pos n rep le lt =
    let e : (r.bits_in_buf + 256 - n) % 256 ≡ r.bits_in_buf - n = omega (arith, rep.fits) in
    let moved : Represents bytes (drop_bits n r) (pos + n) = drop_bits-Represents n le lt rep in
    record {
      same = moved.same;
      bytes_ok = moved.bytes_ok;
      within = moved.within;
      here = rw e moved.here;
      fits = rw e moved.fits;
      loaded = rw e moved.loaded;
    }
