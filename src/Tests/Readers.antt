-- ===== src/Tests/Readers.antt =====
-- The theorems on src/bitreader.rs at two bytes.
use lbzip2_rs.Prelude.{ℕ, ◌+◌, ◌*◌, ◌≡◌, refl, min, arith, List, [], ◌∷◌, length}
use lbzip2_rs.Tests.Bytes.{all_bytes, all_bytes-IsBytes}
use lbzip2_rs.BitStream.{IsBytes, cursor_read, cursor_next}
use lbzip2_rs.BitReader.Defs.{from_bit_offset, read_bit, read_bits, peek, consume, skip}
use lbzip2_rs.BitReader.Refill.{Represents}
use lbzip2_rs.BitReader.Refinement.{Reads, read_bits-Reads}
use lbzip2_rs.BitReader.Peek.{peek-Reads, consume-Represents}
use lbzip2_rs.BitReader.Bit.{to_flag, read_bit-Reads, from_bit_offset-Represents}
use lbzip2_rs.BitReader.Skip.{skip-Represents}

abbrev two : List ℕ
two = 0xA5 ∷ 0x3C ∷ []

two-IsBytes : IsBytes two
unfolding all_bytes
two-IsBytes = all_bytes-IsBytes two refl

at_three : Represents two (from_bit_offset two 3) 3
at_three = from_bit_offset-Represents two 3 two-IsBytes (omega arith)

from_bit_offset-Represents_example : Represents two (from_bit_offset two 3) 3
from_bit_offset-Represents_example = from_bit_offset-Represents two 3 two-IsBytes (omega arith)

read_bits-Reads_example :
    Reads two (cursor_next two 3 9) (read_bits 9 (from_bit_offset two 3)) (cursor_read two 3 9)
read_bits-Reads_example =
    read_bits-Reads two (from_bit_offset two 3) 3 9 at_three (omega arith) (omega arith)

read_bit-Reads_example :
    Reads two
      (cursor_next two 3 1)
      (read_bit (from_bit_offset two 3))
      (to_flag (cursor_read two 3 1))
read_bit-Reads_example = read_bit-Reads two (from_bit_offset two 3) 3 at_three

peek-Reads_example : Reads two 3 (peek 10 (from_bit_offset two 3)) (cursor_read two 3 10)
peek-Reads_example =
    peek-Reads two (from_bit_offset two 3) 3 10 at_three (omega arith) (omega arith)

has_bits : (from_bit_offset two 3).bits_in_buf ≡ 13
unfolding from_bit_offset
has_bits = refl

consume-Represents_example : Represents two (consume 7 (from_bit_offset two 3)) (3 + 7)
consume-Represents_example =
    consume-Represents two (from_bit_offset two 3) 3 7 at_three (omega (arith, has_bits))
      (omega arith)

skip-Represents_example :
    Represents two (skip 40 (from_bit_offset two 3)) (min (3 + 40) (8 * length two))
skip-Represents_example = skip-Represents two (from_bit_offset two 3) 3 40 at_three (omega arith)
