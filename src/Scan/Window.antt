-- ===== src/Scan/Window.antt =====
-- src/block_scan.rs: the sixteen candidates of one window are the fields of 48 bits that begin in
-- its first two bytes.
use mathlib.Core.Path.{subst}
use native.Mathlib.Nat.{mod-eq_of_lt}
use lbzip2_rs.Prelude.{
  ℕ, zero, suc, ◌+◌, ◌-◌, ◌*◌, ◌/◌, ◌%◌, ◌^◌, ◌≤◌, ◌<◌, bit_and, ◌≡◌, sym, ◌∙◌, arith, dec_lt, inl,
  inr, Bool-cases, List, length, Option, none, some, leb, ◌==◌, ==_iff, ==_false, leb→le, leb→lt,
}
use lbzip2_rs.Bits.{bit_and-ones}
use lbzip2_rs.BitStream.{IsBytes, be_word, stream_bit, shr64, field, shift_mask-field}
use lbzip2_rs.BitStream.Load.{slice, word_bit}
use lbzip2_rs.Magic.{block_magic, HasMagic}
use lbzip2_rs.Scan.Defs.{BlockBoundary, scan_shifts}

-- `o` is the first place from `lo` to below `hi` where `P` holds, if there is one.
abbrev pub First : (ℕ → Type 0) → ℕ → ℕ → Option BlockBoundary → Type 0
First P lo hi none = (p : ℕ) → lo ≤ p → p < hi → ¬ P p
First P lo hi (some b) =
    (lo ≤ b.bit_offset)
    × (b.bit_offset < hi)
    × P b.bit_offset
    × ((p : ℕ) → lo ≤ p → p < b.bit_offset → ¬ P p)

pub First-extend :
    (P : ℕ → Type 0) (lo mid hi : ℕ) (o : Option BlockBoundary)
    → lo ≤ mid
    → First P lo mid none
    → First P mid hi o
    → First P lo hi o
First-extend P lo mid hi none le none_below rest = λ p l u. elim (dec_lt p mid) [
  | yes below ↦ none_below p l below
  | no above ↦ rest p (omega arith) u
]
First-extend P lo mid hi (some b) le none_below rest = (
  omega (arith, rest.0),
  rest.1,
  rest.2,
  λ p l u. elim (dec_lt p mid) [
    | yes below ↦ none_below p l below
    | no above ↦ rest.3 p (omega arith) u
  ],
)

-- What the scan looks for.
abbrev pub Wanted : List ℕ → ℕ → ℕ → Type 0
Wanted buf start_bit p = (start_bit ≤ p) × HasMagic buf p

module _ (buf : List ℕ) (bytes_ok : IsBytes buf) (base start_bit : ℕ)
    (fits : base + 8 ≤ length buf) where
  abbrev window : ℕ
  window = be_word (slice buf base)

  candidate-field :
      (shift : ℕ)
      → shift < 16
      → bit_and (shr64 window (16 - shift)) 0xFFFF_FFFF_FFFF
        ≡ field (stream_bit buf) (base * 8 + shift) 48
  candidate-field shift lt =
      let amount : (16 - shift) % 64 ≡ 16 - shift = mod-eq_of_lt (omega arith) in
      rw amount (
        bit_and-ones 48 (window / 2 ^ (16 - shift))
        ∙ shift_mask-field window (16 - shift) 48 (stream_bit buf) (base * 8 + shift) λ j q.
          let at : 16 - shift + 48 - 1 - j ≡ 63 - (shift + j) = omega arith in
          let to : 8 * base + (shift + j) ≡ base * 8 + shift + j = omega arith in
          rw (at, ← to) (word_bit buf base fits bytes_ok (shift + j) (omega arith)))

  -- A place that is not wanted, and no other.
  not_here : (p : ℕ) → ¬ Wanted buf start_bit p → First (Wanted buf start_bit) p (p + 1) none
  not_here p not_wanted q l u w =
      let e : q ≡ p = omega arith in not_wanted (subst (Wanted buf start_bit) e w)

  pub scan_shifts-First :
      (left shift : ℕ)
      → shift + left ≡ 16
      → First
          (Wanted buf start_bit)
          (base * 8 + shift)
          (base * 8 + 16)
          (scan_shifts left shift window base start_bit)
  unfolding scan_shifts
  scan_shifts-First zero shift e = λ p l u. absurd (omega arith)
  scan_shifts-First (suc left) shift e =
      let o : Option BlockBoundary = scan_shifts left (shift + 1) window base start_bit in
      let at : base * 8 + (shift + 1) ≡ base * 8 + shift + 1 = omega arith in
      let rest : First (Wanted buf start_bit) (base * 8 + shift + 1) (base * 8 + 16) o =
        subst (λ lo. First (Wanted buf start_bit) lo (base * 8 + 16) o) at
          (scan_shifts-First left (shift + 1) (omega arith)) in
      let same = candidate-field shift (omega arith) in
      let candidate : ℕ = bit_and (shr64 window (16 - shift)) 0xFFFF_FFFF_FFFF in
      let passed = λ (not_wanted : ¬ Wanted buf start_bit (base * 8 + shift)).
        First-extend (Wanted buf start_bit) (base * 8 + shift) (base * 8 + shift + 1)
          (base * 8 + 16) o (omega arith) (not_here (base * 8 + shift) not_wanted) rest in
      elim (Bool-cases (candidate == block_magic)) [
        | inl magic ↦ rw magic (elim (Bool-cases (leb start_bit (base * 8 + shift))) [
          | inl late ↦ rw late (
            omega arith,
            omega arith,
            (
              leb→le start_bit (base * 8 + shift) late,
              sym same ∙ (==_iff candidate block_magic).0 magic,
            ),
            λ p l u. absurd (omega arith),
          )
          | inr early ↦
              rw early (
                passed
                  (λ w. absurd (omega (arith, leb→lt start_bit (base * 8 + shift) early, w.0))))
        ])
        | inr other ↦ rw other (passed (λ w. ==_false candidate block_magic other (same ∙ w.1)))
      ]
