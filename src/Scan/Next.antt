-- ===== src/Scan/Next.antt =====
-- src/block_scan.rs, `find_next_block`: the first block magic at or after the starting bit.
use mathlib.Core.Path.{subst}
use lbzip2_rs.Prelude.{
  drop-drop, ℕ, zero, suc, ◌+◌, ◌-◌, ◌*◌, ◌/◌, ◌≤◌, ◌<◌, ◌≡◌, refl, arith, ◌⊎◌, inl, inr,
  Bool-cases, List, length, drop, length-drop, Option, none, some, ltb, leb, leb→le, leb→lt, ltb→lt,
  ltb→le,
}
use lbzip2_rs.BitStream.{IsBytes, be_word}
use lbzip2_rs.BitStream.Load.{slice}
use lbzip2_rs.Magic.{HasMagic}
use lbzip2_rs.Scan.Defs.{BlockBoundary, scan_shifts, scan_windows, find_next_block}
use lbzip2_rs.Scan.Window.{First, First-extend, Wanted, scan_shifts-First}

-- The windows cover the bits from `lo` up to some `hi`, close to the end of the input.
abbrev Covers : List ℕ → ℕ → ℕ → Option BlockBoundary → Type 0
Covers buf start_bit lo o =
    (hi : ℕ) × (lo ≤ hi)
    × (8 * length buf < hi + 64)
    × (hi ≤ lo ⊎ hi + 48 ≤ 8 * length buf)
    × First (Wanted buf start_bit) lo hi o

module _ (buf : List ℕ) (bytes_ok : IsBytes buf) (start_byte start_bit : ℕ) where
  round-Covers :
      (base : ℕ) (found rest : Option BlockBoundary)
      → base + 8 ≤ length buf
      → First (Wanted buf start_bit) (base * 8) (base * 8 + 16) found
      → Covers buf start_bit (base * 8 + 16) rest
      → Covers buf start_bit (base * 8) (elim found [ some b ↦ some b | none ↦ rest ])
  round-Covers base none rest fits first (hi, le, near, inside, more) = (
    hi,
    omega arith,
    near,
    ground arith,
    First-extend (Wanted buf start_bit) (base * 8) (base * 8 + 16) hi rest (omega arith) first more,
  )
  round-Covers base (some b) rest fits first (hi, le, near, inside, more) =
      (hi, omega arith, near, ground arith, (first.0, omega (arith, first.1), first.2, first.3))

  scan_windows-Covers :
      (fuel byte_idx : ℕ)
      → length buf < start_byte + byte_idx + 8 + fuel * 2
      → start_byte ≤ length buf
      → Covers buf start_bit
          ((start_byte + byte_idx) * 8)
          (scan_windows fuel (drop start_byte buf) start_byte byte_idx start_bit)
  unfolding scan_windows
  scan_windows-Covers zero byte_idx enough le = (
    (start_byte + byte_idx) * 8,
    omega arith,
    omega arith,
    inl (omega arith),
    λ p l u. absurd (omega arith),
  )
  scan_windows-Covers (suc fuel) byte_idx enough le =
      let base : ℕ = start_byte + byte_idx in
      let len : length (drop start_byte buf) ≡ length buf - start_byte =
        length-drop start_byte buf in
      elim (Bool-cases (leb (byte_idx + 8) (length (drop start_byte buf)))) [
        | inl inside ↦
            let fits : base + 8 ≤ length buf =
              omega (arith, leb→le (byte_idx + 8) (length (drop start_byte buf)) inside) in
            let rest : Option BlockBoundary =
              scan_windows fuel (drop start_byte buf) start_byte (byte_idx + 2) start_bit in
            let at : (start_byte + (byte_idx + 2)) * 8 ≡ base * 8 + 16 = omega arith in
            let start : base * 8 + 0 ≡ base * 8 = omega arith in
            let found : Option BlockBoundary =
              scan_shifts 16 0 (be_word (slice buf base)) base start_bit in
            rw (inside, drop-drop byte_idx start_byte buf)
              (round-Covers base found rest fits
                (subst (λ lo. First (Wanted buf start_bit) lo (base * 8 + 16) found) start
                  (scan_shifts-First buf bytes_ok base start_bit fits 16 0 refl))
                (subst (λ lo. Covers buf start_bit lo rest) at
                  (scan_windows-Covers fuel (byte_idx + 2) (omega arith) le)))
        | inr out ↦ rw out (
          base * 8,
          omega arith,
          omega (arith, leb→lt (byte_idx + 8) (length (drop start_byte buf)) out),
          inl (omega arith),
          λ p l u. absurd (omega arith),
        )
      ]

-- What a search from `start_bit` gives: the first magic, or the absence of one with 64 bits of
-- input from its first bit on.
abbrev pub FindsFirst : List ℕ → ℕ → Option BlockBoundary → Type 0
FindsFirst buf start_bit none = (p : ℕ) → start_bit ≤ p → p + 64 ≤ 8 * length buf → ¬ HasMagic buf p
FindsFirst buf start_bit (some b) =
    (start_bit ≤ b.bit_offset)
    × (b.bit_offset + 48 ≤ 8 * length buf)
    × HasMagic buf b.bit_offset
    × ((p : ℕ) → start_bit ≤ p → p < b.bit_offset → ¬ HasMagic buf p)

Covers-FindsFirst :
    (buf : List ℕ) (start_bit lo : ℕ) (o : Option BlockBoundary)
    → lo ≤ start_bit
    → Covers buf start_bit lo o
    → FindsFirst buf start_bit o
Covers-FindsFirst buf start_bit lo none le (hi, up, near, inside, first) =
    λ p l u m. first p (omega arith) (omega arith) (l, m)
Covers-FindsFirst buf start_bit lo (some b) le (hi, up, near, inside, first) = (
  first.2.0,
  ground (arith, first.0, first.1),
  first.2.1,
  λ p l u m. first.3 p (omega arith) u (l, m),
)

pub find_next_block-FindsFirst :
    (buf : List ℕ) (start_bit : ℕ)
    → IsBytes buf
    → FindsFirst buf start_bit (find_next_block buf start_bit)
unfolding find_next_block
find_next_block-FindsFirst buf start_bit bytes_ok =
    elim (Bool-cases (ltb (length buf) (start_bit / 8 + 8))) [
      | inl short ↦
          rw short
            (λ p l u _. absurd (omega (arith, ltb→lt (length buf) (start_bit / 8 + 8) short)))
      | inr long ↦
          let room : start_bit / 8 + 8 ≤ length buf =
            ltb→le (length buf) (start_bit / 8 + 8) long in
          rw long (
            Covers-FindsFirst buf start_bit ((start_bit / 8 + 0) * 8)
              (scan_windows (length buf) (drop (start_bit / 8) buf) (start_bit / 8) 0 start_bit)
              (omega arith)
              (scan_windows-Covers buf bytes_ok (start_bit / 8) start_bit (length buf) 0
                (omega arith) (omega arith)))
    ]
