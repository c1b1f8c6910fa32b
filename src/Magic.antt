-- ===== src/Magic.antt =====
-- src/lib.rs: the 48-bit magics, and where they stand in an input.
use lbzip2_rs.Prelude.{ℕ, ◌≡◌, List}
use lbzip2_rs.BitStream.{stream_bit, field}

abbrev pub block_magic : ℕ
block_magic = 0x314159265359

abbrev pub final_magic : ℕ
final_magic = 0x177245385090

-- The 48 bits from bit `p` on are the block magic.
abbrev pub HasMagic : List ℕ → ℕ → Type 0
HasMagic buf p = field (stream_bit buf) p 48 ≡ block_magic
