-- ===== src/Scan/Defs.antt =====
-- src/block_scan.rs: the boundary type, `find_next_block` and `find_all_blocks`.
use lbzip2_rs.Prelude.{
  ℕ, zero, suc, ◌+◌, ◌-◌, ◌*◌, ◌/◌, ◌%◌, bit_and, List, [], ◌∷◌, Option, none, some, length, take,
  drop, ltb, leb, ◌==◌, if◌then◌else◌,
}
use lbzip2_rs.BitStream.{be_word, shr64}
use lbzip2_rs.Magic.{block_magic}

pub record BlockBoundary : Type 0 where
  pub bit_offset : ℕ

unfoldable pub byte_offset : BlockBoundary → ℕ
byte_offset b = b.bit_offset / 8

unfoldable pub bit_within_byte : BlockBoundary → ℕ
bit_within_byte b = b.bit_offset % 8

-- The loop over the shifts of one window, with `left` of them to go. `base` is
-- `start_byte + byte_idx`.
unfoldable pub scan_shifts : ℕ → ℕ → ℕ → ℕ → ℕ → Option BlockBoundary
scan_shifts zero shift window base start_bit = none
scan_shifts (suc left) shift window base start_bit =
    let rest = scan_shifts left (shift + 1) window base start_bit in
    let candidate = bit_and (shr64 window (16 - shift)) 0xFFFF_FFFF_FFFF in
    let abs_bit = base * 8 + shift in
    if candidate == block_magic
    then (if leb start_bit abs_bit then some (record { bit_offset = abs_bit }) else rest)
    else rest

-- The loop over the windows. It ends within `length search` rounds, since a round moves on by 2.
unfoldable pub scan_windows : ℕ → List ℕ → ℕ → ℕ → ℕ → Option BlockBoundary
unfolding scan_shifts be_word
scan_windows zero search start_byte byte_idx start_bit = none
scan_windows (suc fuel) search start_byte byte_idx start_bit =
    let rest = scan_windows fuel search start_byte (byte_idx + 2) start_bit in
    let window = be_word (take 8 (drop byte_idx search)) in
    let found = scan_shifts 16 0 window (start_byte + byte_idx) start_bit in
    let round : Option BlockBoundary = elim found [ some b ↦ some b | none ↦ rest ] in
    if leb (byte_idx + 8) (length search) then round else none

unfoldable pub find_next_block : List ℕ → ℕ → Option BlockBoundary
unfolding scan_windows
find_next_block buf start_bit =
    let start_byte = start_bit / 8 in
    if ltb (length buf) (start_byte + 8)
    then none
    else scan_windows (length buf) (drop start_byte buf) start_byte 0 start_bit

-- The `while let` of `find_all_blocks`. A round moves on by 48 bits or more.
unfoldable pub collect_blocks : ℕ → List ℕ → ℕ → List BlockBoundary
unfolding find_next_block
collect_blocks zero buf bit = []
collect_blocks (suc fuel) buf bit = elim (find_next_block buf bit) [
  | none ↦ []
  | some b ↦ b ∷ collect_blocks fuel buf (b.bit_offset + 48)
]

unfoldable pub find_all_blocks : List ℕ → List BlockBoundary
unfolding collect_blocks
find_all_blocks buf = collect_blocks (8 * length buf) buf 0
