-- ===== src/BitStream.antt =====
-- The input as the bits that it stands for, highest bit of each byte first: what the bit reader
-- (src/bitreader.rs) and the block scanner (src/block_scan.rs) are specified against. Also
-- `u64::from_be_bytes` and the shifts of a u64.
pub mod Load
use native.Mathlib.Nat.{
  one-le-pow, mul-add-mod_self_right, mul-add-div_right, mul_comm, div-eq_of_lt, mod-eq_of_lt,
  mul-le-mul_right, pow-succ',
}
use lbzip2_rs.Prelude.{
  ℕ, zero, suc, ◌+◌, ◌-◌, ◌*◌, ◌/◌, ◌%◌, ◌^◌, ◌≤◌, ◌<◌, ◌≡◌, refl, sym, ap, ◌∙◌, arith, dec_lt,
  List, [], ◌∷◌, length, get_or, All, take, drop, Option, none, some, leb, if◌then◌else◌,
}
use lbzip2_rs.Bits.{
  bit_sum_low, bit_sum_high, bit, bit-lt, bit-shr, bit-mod, bit_of_lt, zero-bit, shift_mask_suc,
  pow-add,
}

abbrev pub IsBytes : List ℕ → Type 0
IsBytes = All (λ b. b < 256)

-- Shifts of a u64 in a release build: the amount counts modulo 64, the result is cut to 64 bits.
abbrev pub shl64 : ℕ → ℕ → ℕ
shl64 x k = x * 2 ^ (k % 64) % 2 ^ 64

abbrev pub shr64 : ℕ → ℕ → ℕ
shr64 x k = x / 2 ^ (k % 64)

-- `from_be_bytes`.
unfoldable pub be_word : List ℕ → ℕ
be_word [] = 0
be_word (b ∷ bs) = b * 2 ^ (8 * length bs) + be_word bs

-- Bit `p` of the input; past its end the bits are 0.
unfoldable pub stream_bit : List ℕ → ℕ → ℕ
stream_bit bytes p = bit (get_or bytes (p / 8) 0) (7 - p % 8)

-- The number spelled by the bits `f p`, …, `f (p + n - 1)`, the highest first.
unfoldable pub field : (ℕ → ℕ) → ℕ → ℕ → ℕ
field f p zero = 0
field f p (suc n) = 2 * field f p n + f (p + n)

pub stream_bit-lt : (bytes : List ℕ) (p : ℕ) → stream_bit bytes p < 2
unfolding stream_bit
stream_bit-lt bytes p = bit-lt (get_or bytes (p / 8) 0) (7 - p % 8)

pub stream_bit_tail : (b : ℕ) (bs : List ℕ) (p : ℕ) → stream_bit (b ∷ bs) (8 + p) ≡ stream_bit bs p
unfolding stream_bit
stream_bit_tail b bs p =
    let e : (8 + p) / 8 ≡ suc (p / 8) = omega arith in
    let r : (8 + p) % 8 ≡ p % 8 = omega arith in rw (e, r)

pub stream_bit_head : (b : ℕ) (bs : List ℕ) (p : ℕ) → p < 8 → stream_bit (b ∷ bs) p ≡ bit b (7 - p)
unfolding stream_bit
stream_bit_head b bs p h =
    let e : p / 8 ≡ 0 = omega arith in let r : p % 8 ≡ p = omega arith in rw (e, r)

nil_bit : (p : ℕ) → stream_bit [] p ≡ 0
unfolding stream_bit
nil_bit p = zero-bit (7 - p % 8)

pub stream_bit_past : (bytes : List ℕ) (p : ℕ) → 8 * length bytes ≤ p → stream_bit bytes p ≡ 0
stream_bit_past [] p h = nil_bit p
stream_bit_past (b ∷ bs) p h =
    let e : p ≡ 8 + (p - 8) = omega arith in
    rw e (stream_bit_tail b bs (p - 8) ∙ stream_bit_past bs (p - 8) (omega arith))

pub stream_bit-drop :
    (k : ℕ) (bytes : List ℕ) (p : ℕ) → stream_bit (drop k bytes) p ≡ stream_bit bytes (8 * k + p)
stream_bit-drop zero bytes p = let e : 8 * 0 + p ≡ p = omega arith in rw e
stream_bit-drop (suc k) [] p = nil_bit p ∙ sym (nil_bit (8 * suc k + p))
stream_bit-drop (suc k) (b ∷ bs) p =
    let e : 8 * suc k + p ≡ 8 + (8 * k + p) = omega arith in
    rw e (stream_bit-drop k bs p ∙ sym (stream_bit_tail b bs (8 * k + p)))

pub stream_bit-take :
    (k : ℕ) (bytes : List ℕ) (p : ℕ) → p < 8 * k → stream_bit (take k bytes) p ≡ stream_bit bytes p
stream_bit-take zero bytes p h = absurd (omega arith)
stream_bit-take (suc k) [] p h = refl
stream_bit-take (suc k) (b ∷ bs) p h = elim (dec_lt p 8) [
  | yes low ↦ stream_bit_head b (take k bs) p low ∙ sym (stream_bit_head b bs p low)
  | no high ↦
      let e : p ≡ 8 + (p - 8) = omega arith in
      rw e (
        stream_bit_tail b (take k bs) (p - 8)
        ∙ stream_bit-take k bs (p - 8) (omega arith)
        ∙ sym (stream_bit_tail b bs (p - 8)))
]

pub drop-IsBytes : (k : ℕ) (bs : List ℕ) → IsBytes bs → IsBytes (drop k bs)
drop-IsBytes zero bs h = h
drop-IsBytes (suc k) [] h = h
drop-IsBytes (suc k) (b ∷ bs) h = drop-IsBytes k bs h.1

pub take-IsBytes : (k : ℕ) (bs : List ℕ) → IsBytes bs → IsBytes (take k bs)
take-IsBytes zero bs h = tt
take-IsBytes (suc k) [] h = h
take-IsBytes (suc k) (b ∷ bs) h = (h.0, take-IsBytes k bs h.1)

pub get_or-IsBytes : (bs : List ℕ) (i : ℕ) → IsBytes bs → get_or bs i 0 < 256
get_or-IsBytes [] i h = omega arith
get_or-IsBytes (b ∷ bs) zero h = h.0
get_or-IsBytes (b ∷ bs) (suc i) h = get_or-IsBytes bs i h.1

pub be_word-lt : (bs : List ℕ) → IsBytes bs → be_word bs < 2 ^ (8 * length bs)
unfolding be_word
be_word-lt [] h = omega arith
be_word-lt (b ∷ bs) h =
    let m : ℕ = 8 * length bs in
    let top : 2 ^ (8 * suc (length bs)) ≡ 2 ^ m * 256 =
      (let e : 8 * suc (length bs) ≡ m + 8 = omega arith in rw e (pow-add m 8)) in
    let bound : b * 2 ^ m ≤ 255 * 2 ^ m = mul-le-mul_right (2 ^ m) (omega arith) in
    rw top (omega (arith, be_word-lt bs h.1))

-- A word loaded from the bytes has the bits of the bytes.
pub be_word-stream_bit :
    (bs : List ℕ) (i j : ℕ)
    → IsBytes bs
    → i + j + 1 ≡ 8 * length bs
    → bit (be_word bs) i ≡ stream_bit bs j
unfolding be_word
be_word-stream_bit [] i j h e = absurd (omega arith)
be_word-stream_bit (b ∷ bs) i j h e = elim (dec_lt j 8) [
  | yes head ↦
      let at : i ≡ 8 * length bs + (7 - j) = omega arith in
      rw at (
        bit_sum_high b (8 * length bs) (be_word bs) (7 - j) (be_word-lt bs h.1)
        ∙ sym (stream_bit_head b bs j head))
  | no tail ↦
      let at : j ≡ 8 + (j - 8) = omega arith in
      rw at (
        bit_sum_low b (8 * length bs) (be_word bs) i (be_word-lt bs h.1) (omega arith)
        ∙ be_word-stream_bit bs i (j - 8) h.1 (omega arith)
        ∙ sym (stream_bit_tail b bs (j - 8)))
]

-- What a shift and a mask select from a word is the field that the word's bits spell.
pub shift_mask-field :
    (x k n : ℕ) (f : ℕ → ℕ) (p : ℕ)
    → ((j : ℕ) → j < n → bit x (k + n - 1 - j) ≡ f (p + j))
    → x / 2 ^ k % 2 ^ n ≡ field f p n
unfolding field
shift_mask-field x k zero f p h = omega arith
shift_mask-field x k (suc n) f p h =
    let rest : x / 2 ^ suc k % 2 ^ n ≡ field f p n = shift_mask-field x (suc k) n f p λ j lt.
      let e : suc k + n - 1 - j ≡ k + suc n - 1 - j = omega arith in rw e (h j (omega arith)) in
    let e : k + suc n - 1 - n ≡ k = omega arith in
    let last : bit x k ≡ f (p + n) = rw e at (h n (omega arith)) in
    rw (shift_mask_suc x k n, rest, last)

pub field-lt : (f : ℕ → ℕ) (p n : ℕ) → ((i : ℕ) → f i < 2) → field f p n < 2 ^ n
unfolding field
field-lt f p zero h = omega arith
field-lt f p (suc n) h = omega (arith, field-lt f p n h, h (p + n), pow-succ' 2 n)

-- The specification of a reader: a read of `n` bits at `pos` gives their number and moves on, or
-- gives nothing and stays, when fewer than `n` bits are left.
abbrev pub cursor_read : List ℕ → ℕ → ℕ → Option ℕ
cursor_read bytes pos n =
    if leb (pos + n) (8 * length bytes) then some (field (stream_bit bytes) pos n) else none

abbrev pub cursor_next : List ℕ → ℕ → ℕ → ℕ
cursor_next bytes pos n = if leb (pos + n) (8 * length bytes) then pos + n else pos
