-- ===== src/BitReader/Refill.antt =====
-- src/bitreader.rs, `refill`: both paths load the input's next bits, and leave 57 bits in the
-- buffer unless the input ends.
use mathlib.Core.Path.{subst}
use native.Mathlib.Nat.{mod-lt, mod-eq_of_lt, div-le_self}
use lbzip2_rs.Prelude.{
  ℕ, zero, suc, ◌+◌, ◌-◌, ◌*◌, ◌/◌, ◌%◌, ◌^◌, ◌≤◌, ◌<◌, bit_or, ◌≡◌, sym, ap, ◌∙◌, arith, dec_lt,
  ◌⊎◌, inl, inr, ◌&&◌, Bool-cases, List, length, get_or, ltb, leb, leb→le,
}
use lbzip2_rs.Bits.{bit, bit-shr, bit-mod, bit-shl, bit-shl_low, bit_of_lt}
use lbzip2_rs.BitStream.{IsBytes, be_word, stream_bit, shl64, shr64, get_or-IsBytes}
use lbzip2_rs.BitStream.Load.{slice, word-lt, word_bit}
use lbzip2_rs.BitReader.Defs.{BitReader, load_byte, refill_tail, refill_word, refill}
use lbzip2_rs.BitReader.Buffer.{Loaded, Loaded-or}

-- The reader stands at bit `pos` of the input `bytes`.
pub record Represents (bytes : List ℕ) (r : BitReader) (pos : ℕ) : Type 0 where
  pub same : r.bytes ≡ bytes
  pub bytes_ok : IsBytes bytes
  pub within : r.byte_pos ≤ length bytes
  pub here : pos + r.bits_in_buf ≡ r.byte_pos * 8
  pub fits : r.bits_in_buf ≤ 64
  pub loaded : Loaded bytes pos r.buf r.bits_in_buf

module _ (bytes : List ℕ) (k : ℕ) (enough : k + 8 ≤ length bytes) (bytes_ok : IsBytes bytes) where
  -- Shifted behind the `m` bits that the buffer has.
  shifted_low : (m i : ℕ) → m < 64 → i < m → bit (shr64 (be_word (slice bytes k)) m) (63 - i) ≡ 0
  shifted_low m i small lt =
      let amount : m % 64 ≡ m = mod-eq_of_lt small in
      rw amount (
        bit-shr (be_word (slice bytes k)) m (63 - i)
        ∙ bit_of_lt 64 (be_word (slice bytes k)) (m + (63 - i)) (word-lt bytes k enough bytes_ok)
            (omega arith))

  shifted_bit :
      (m i pos : ℕ)
      → m < 64
      → m ≤ i
      → i < 64
      → pos + m ≡ k * 8
      → bit (shr64 (be_word (slice bytes k)) m) (63 - i) ≡ stream_bit bytes (pos + i)
  shifted_bit m i pos small le lt here =
      let amount : m % 64 ≡ m = mod-eq_of_lt small in
      let at : m + (63 - i) ≡ 63 - (i - m) = omega arith in
      let to : 8 * k + (i - m) ≡ pos + i = omega arith in
      rw amount (
        bit-shr (be_word (slice bytes k)) m (63 - i)
        ∙ ap (bit (be_word (slice bytes k))) at
        ∙ word_bit bytes k enough bytes_ok (i - m) (omega arith)
        ∙ ap (stream_bit bytes) to)

  shifted-lt : (m : ℕ) → shr64 (be_word (slice bytes k)) m < 2 ^ 64
  shifted-lt m =
      omega (
        arith,
        word-lt bytes k enough bytes_ok,
        div-le_self (be_word (slice bytes k)) (2 ^ (m % 64)),
      )

refill_word-Loaded :
    {bytes : List ℕ} {r : BitReader} {pos : ℕ} (m' : ℕ)
    → r.byte_pos + 8 ≤ length bytes
    → r.bits_in_buf ≤ 56
    → Represents bytes r pos
    → Loaded bytes pos (bit_or r.buf (shr64 (be_word (slice r.bytes r.byte_pos)) r.bits_in_buf)) m'
refill_word-Loaded {bytes} {r} {pos} m' enough low rep =
    subst (λ b. Loaded bytes pos (bit_or r.buf (shr64 (be_word (slice b k)) m)) m') (sym rep.same)
      (Loaded-or (shr64 (be_word (slice bytes k)) m) m' rep.loaded
        (shifted-lt bytes k enough rep.bytes_ok m)
        (λ i q. elim (dec_lt i m) [
          | yes old ↦ omega (arith, shifted_low bytes k enough rep.bytes_ok m i (omega arith) old)
          | no new ↦ omega (
            arith,
            shifted_bit bytes k enough rep.bytes_ok m i pos (omega arith) (omega arith) q rep.here,
          )
        ])
        (λ i p _ q. shifted_bit bytes k enough rep.bytes_ok m i pos (omega arith) p q rep.here))
  where
    k : ℕ
    k = r.byte_pos

    m : ℕ
    m = r.bits_in_buf

refill_word-Represents :
    {bytes : List ℕ} {r : BitReader} {pos : ℕ}
    → r.byte_pos + 8 ≤ length bytes
    → r.bits_in_buf ≤ 56
    → Represents bytes r pos
    → Represents bytes (refill_word r) pos × (57 ≤ (refill_word r).bits_in_buf)
unfolding refill_word
refill_word-Represents {bytes} {r} {pos} enough low rep = (
  record {
    same = rep.same;
    bytes_ok = rep.bytes_ok;
    within = omega arith;
    here = omega (arith, rep.here);
    fits = omega arith;
    loaded = refill_word-Loaded (r.bits_in_buf + (64 - r.bits_in_buf) / 8 * 8) enough low rep;
  },
  omega arith,
)

-- One byte, put behind the `m` bits that the buffer has.
module _ (bytes : List ℕ) (k m pos : ℕ) (low : m ≤ 56) (here : pos + m ≡ k * 8) where
  byte_bits :
      (i : ℕ)
      → m ≤ i
      → i < m + 8
      → bit (shl64 (get_or bytes k 0) (56 - m)) (63 - i) ≡ stream_bit bytes (pos + i)
  unfolding stream_bit
  byte_bits i le lt =
      let amount : (56 - m) % 64 ≡ 56 - m = mod-eq_of_lt (omega arith) in
      let at : 63 - i ≡ 56 - m + (7 - (i - m)) = omega arith in
      let byte : (pos + i) / 8 ≡ k = omega arith in
      let sub : 7 - (pos + i) % 8 ≡ 7 - (i - m) = omega arith in
      rw (amount, byte, sub)
        (bit-mod 64 (get_or bytes k 0 * 2 ^ (56 - m)) (63 - i) (omega arith)
          ∙ ap (bit (get_or bytes k 0 * 2 ^ (56 - m))) at
          ∙ bit-shl (get_or bytes k 0) (56 - m) (7 - (i - m)))

  byte_bits_left :
      (i : ℕ) → IsBytes bytes → i < m → bit (shl64 (get_or bytes k 0) (56 - m)) (63 - i) ≡ 0
  byte_bits_left i bytes_ok lt =
      let amount : (56 - m) % 64 ≡ 56 - m = mod-eq_of_lt (omega arith) in
      let at : 63 - i ≡ 56 - m + (7 + m - i) = omega arith in
      rw amount (
        bit-mod 64 (get_or bytes k 0 * 2 ^ (56 - m)) (63 - i) (omega arith)
        ∙ ap (bit (get_or bytes k 0 * 2 ^ (56 - m))) at
        ∙ bit-shl (get_or bytes k 0) (56 - m) (7 + m - i)
        ∙ bit_of_lt 8 (get_or bytes k 0) (7 + m - i) (get_or-IsBytes bytes k bytes_ok)
            (omega arith))

  byte_bits_right :
      (i : ℕ) → m + 8 ≤ i → i < 64 → bit (shl64 (get_or bytes k 0) (56 - m)) (63 - i) ≡ 0
  byte_bits_right i le lt =
      let amount : (56 - m) % 64 ≡ 56 - m = mod-eq_of_lt (omega arith) in
      rw amount (
        bit-mod 64 (get_or bytes k 0 * 2 ^ (56 - m)) (63 - i) (omega arith)
        ∙ bit-shl_low (56 - m) (get_or bytes k 0) (63 - i) (omega arith))

load_byte-Loaded :
    {bytes : List ℕ} {r : BitReader} {pos : ℕ}
    → r.bits_in_buf ≤ 56
    → Represents bytes r pos
    → Loaded bytes pos (load_byte r).buf (r.bits_in_buf + 8)
load_byte-Loaded {bytes} {r} {pos} low rep =
    subst (λ b. Loaded bytes pos (bit_or r.buf (shl64 (get_or b k 0) (56 - m))) (m + 8))
      (sym rep.same)
      (Loaded-or (shl64 (get_or bytes k 0) (56 - m)) (m + 8) rep.loaded
        (mod-lt (get_or bytes k 0 * 2 ^ ((56 - m) % 64)) {m = 2 ^ 64} (omega arith))
        (λ i q. elim (dec_lt i m) [
          | yes old ↦ omega (arith, byte_bits_left bytes k m pos low rep.here i rep.bytes_ok old)
          | no new ↦ elim (dec_lt i (m + 8)) [
            | yes inside ↦
                omega (arith, byte_bits bytes k m pos low rep.here i (omega arith) inside)
            | no out ↦ omega (arith, byte_bits_right bytes k m pos low rep.here i (omega arith) q)
          ]
        ])
        (λ i p lt _. byte_bits bytes k m pos low rep.here i p lt))
  where
    k : ℕ
    k = r.byte_pos

    m : ℕ
    m = r.bits_in_buf

load_byte-Represents :
    {bytes : List ℕ} {r : BitReader} {pos : ℕ}
    → r.bits_in_buf ≤ 56
    → r.byte_pos < length bytes
    → Represents bytes r pos
    → Represents bytes (load_byte r) pos
load_byte-Represents low inside rep = record {
  same = rep.same;
  bytes_ok = rep.bytes_ok;
  within = omega arith;
  here = omega (arith, rep.here);
  fits = omega arith;
  loaded = load_byte-Loaded low rep;
}

-- The loop stops with 57 bits or more, or at the end of the input.
abbrev pub IsFull : List ℕ → BitReader → Type 0
IsFull bytes r = (57 ≤ r.bits_in_buf) ⊎ (r.byte_pos ≡ length bytes)

refill_tail-Represents :
    {bytes : List ℕ} (fuel : ℕ) (r : BitReader) {pos : ℕ}
    → 57 ≤ r.bits_in_buf + fuel * 8
    → Represents bytes r pos
    → Represents bytes (refill_tail fuel r) pos × IsFull bytes (refill_tail fuel r)
unfolding refill_tail
refill_tail-Represents zero r enough rep = (rep, inl (omega arith))
refill_tail-Represents {bytes} (suc fuel) r enough rep =
    let len : length r.bytes ≡ length bytes = ap length rep.same in
    elim (Bool-cases (leb r.bits_in_buf 56 && ltb r.byte_pos (length r.bytes))) [
      | inl more ↦ rw more (
          refill_tail-Represents fuel (load_byte r) (omega arith)
            (load_byte-Represents (ground arith) (ground arith) rep))
      | inr stop ↦ rw stop (rep, ground arith)
    ]

pub refill-Represents :
    {bytes : List ℕ} {r : BitReader} {pos : ℕ}
    → r.bits_in_buf ≤ 56
    → Represents bytes r pos
    → Represents bytes (refill r) pos × IsFull bytes (refill r)
unfolding refill
refill-Represents {bytes} {r} {pos} low rep =
    let len : length r.bytes ≡ length bytes = ap length rep.same in
    elim (Bool-cases (leb (r.byte_pos + 8) (length r.bytes))) [
      | inl fast ↦
          let (done, full) =
            refill_word-Represents {r = r}
              (omega (arith, leb→le (r.byte_pos + 8) (length r.bytes) fast)) low rep in
          rw fast (done, inl full)
      | inr slow ↦ rw slow (refill_tail-Represents 8 r (omega arith) rep)
    ]
