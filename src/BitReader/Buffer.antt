-- ===== src/BitReader/Buffer.antt =====
-- What the 64-bit buffer holds: its first `m` bits are the input's from bit `start` on, and each
-- bit behind them is either not loaded yet, then 0, or already the input's.
use lbzip2_rs.Prelude.{
  ℕ, ◌+◌, ◌-◌, ◌*◌, ◌/◌, ◌%◌, ◌^◌, ◌≤◌, ◌<◌, bit_or, ◌≡◌, sym, ap, ◌∙◌, arith, dec_lt, List,
}
use mathlib.Core.Path.{subst}
use native.Mathlib.Nat.{mod-eq_of_lt, mod-lt, div-lt_iff_lt-mul, one-le-pow}
use lbzip2_rs.Bits.{zero-bit, pow-add, bit, bit-or, bit_or-lt, bit-mod, bit-shl, bit-shl_low}
use lbzip2_rs.BitStream.{stream_bit, shl64, shr64, field, shift_mask-field}

pub record Loaded (bytes : List ℕ) (start buf m : ℕ) : Type 0 where
  pub word : buf < 2 ^ 64
  pub valid : (i : ℕ) → i < m → i < 64 → bit buf (63 - i) ≡ stream_bit bytes (start + i)
  pub spare : (i : ℕ) → i < 64 → bit buf (63 - i) ≤ stream_bit bytes (start + i)

pub Loaded-zero : (bytes : List ℕ) (start : ℕ) → Loaded bytes start 0 0
Loaded-zero bytes start = record {
  word = omega arith;
  valid = λ i p q. absurd (omega arith);
  spare = λ i q. omega (arith, zero-bit (63 - i));
}

pub Loaded-weaken :
    {bytes : List ℕ} {start buf m : ℕ} (k : ℕ)
    → k ≤ m
    → Loaded bytes start buf m
    → Loaded bytes start buf k
Loaded-weaken k h l = record {
  word = l.word;
  valid = λ i p q. l.valid i (omega arith) q;
  spare = l.spare;
}

-- OR with a word that has the bits from `m` to `m'`, and nothing wrong elsewhere.
pub Loaded-or :
    {bytes : List ℕ} {start buf m : ℕ} (w m' : ℕ)
    → Loaded bytes start buf m
    → w < 2 ^ 64
    → ((i : ℕ) → i < 64 → bit w (63 - i) ≤ stream_bit bytes (start + i))
    → ((i : ℕ) → m ≤ i → i < m' → i < 64 → bit w (63 - i) ≡ stream_bit bytes (start + i))
    → Loaded bytes start (bit_or buf w) m'
Loaded-or {bytes} {start} {buf} {m} w m' l small low new = record {
  word = bit_or-lt 64 buf w l.word small;
  valid = λ i p q. rw (bit-or buf w (63 - i)) (elim (dec_lt i m) [
    | yes old ↦ omega (arith, l.valid i old q, low i q)
    | no fresh ↦ omega (arith, l.spare i q, new i (omega arith) p q)
  ]);
  spare = λ i q. rw (bit-or buf w (63 - i)) (omega (arith, l.spare i q, low i q));
}

bit-shl64 : (x n i : ℕ) → n < 64 → i + n < 64 → bit (shl64 x n) (63 - i) ≡ bit x (63 - (i + n))
bit-shl64 x n i lt inside =
    let amount : n % 64 ≡ n = mod-eq_of_lt lt in
    let at : 63 - i ≡ n + (63 - (i + n)) = omega arith in
    rw amount (
      bit-mod 64 (x * 2 ^ n) (63 - i) (omega arith)
      ∙ ap (bit (x * 2 ^ n)) at
      ∙ bit-shl x n (63 - (i + n)))

shl64-bit_out : (x n i : ℕ) → n < 64 → i < 64 → 64 ≤ i + n → bit (shl64 x n) (63 - i) ≡ 0
shl64-bit_out x n i lt q out =
    let amount : n % 64 ≡ n = mod-eq_of_lt lt in
    rw amount
      (bit-mod 64 (x * 2 ^ n) (63 - i) (omega arith) ∙ bit-shl_low n x (63 - i) (omega arith))

-- A shift by `n` bits moves the start on.
pub Loaded-shl64 :
    {bytes : List ℕ} {start buf m : ℕ} (n : ℕ)
    → n ≤ m
    → n < 64
    → m ≤ 64
    → Loaded bytes start buf m
    → Loaded bytes (start + n) (shl64 buf n) (m - n)
Loaded-shl64 {bytes} {start} {buf} {m} n le lt fits l = record {
  word = mod-lt (buf * 2 ^ (n % 64)) {m = 2 ^ 64} (omega arith);
  valid = λ i p q. rw (bit-shl64 buf n i lt (omega arith)) (
      let e : start + n + i ≡ start + (i + n) = omega arith in
      rw e (l.valid (i + n) (omega arith) (omega arith)));
  spare = λ i q. elim (dec_lt (i + n) 64) [
    | yes inside ↦
        rw (bit-shl64 buf n i lt inside)
          (let e : start + n + i ≡ start + (i + n) = omega arith in rw e (l.spare (i + n) inside))
    | no out ↦ omega (arith, shl64-bit_out buf n i lt q (omega arith))
  ];
}

-- The top `n` bits of the buffer are a field of the input.
pub Loaded-shr64 :
    {bytes : List ℕ} {start buf m : ℕ} (n : ℕ)
    → n ≤ m
    → 0 < n
    → n ≤ 64
    → Loaded bytes start buf m
    → shr64 buf (64 - n) ≡ field (stream_bit bytes) start n
Loaded-shr64 {bytes} {start} {buf} {m} n le pos fits l =
    let amount : (64 - n) % 64 ≡ 64 - n = mod-eq_of_lt (omega arith) in
    let parts : 2 ^ 64 ≡ 2 ^ n * 2 ^ (64 - n) =
      (let e : 64 ≡ n + (64 - n) = omega arith in ap (λ (t : ℕ). 2 ^ t) e ∙ pow-add n (64 - n)) in
    let small : buf / 2 ^ (64 - n) < 2 ^ n =
      (div-lt_iff_lt-mul (one-le-pow (64 - n) 2 (omega arith))).1
        (subst (λ t. buf < t) parts l.word) in
    rw amount (
      sym (mod-eq_of_lt small)
      ∙ shift_mask-field buf (64 - n) n (stream_bit bytes) start λ j lt.
        let e : 64 - n + n - 1 - j ≡ 63 - j = omega arith in
        rw e (l.valid j (omega arith) (omega arith)))
