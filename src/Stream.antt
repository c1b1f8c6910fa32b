-- ===== src/Stream.antt =====
-- src/stream.rs: the sequential decoder, and the stream header that all decoders check. `Runs` is what a
-- stream is, bit by bit, `Decoded` the decoder against it, and `Layout` the places of its blocks.
pub mod Runs
pub mod Decoded
pub mod Outcome
pub mod Layout
use lbzip2_rs.Prelude.{
  ℕ, zero, suc, ◌-◌, ◌*◌, true, false, not, ◌&&◌, List, [], ◌++◌, length, get_or, Result, ok, ◌>>=◌,
  ◌>>◌, fail_if, ltb, leb, ◌==◌,
}
use lbzip2_rs.BitReader.Defs.{remaining, from_bit_offset, read_u64}
use lbzip2_rs.Magic.{block_magic, final_magic}
use lbzip2_rs.Block.Reading
use lbzip2_rs.Block.Reading.{M, ok_or, or_err, return, stuck, fail}
use lbzip2_rs.Block.Common.{decode_block}

-- The checks of "BZh" and the level, which give the block size.
unfoldable pub parse_header : List ℕ → Result ℕ
parse_header bytes = do
  fail_if (ltb (length bytes) 4) "input too short for bzip2 header"
  fail_if (not (get_or bytes 0 0 == b'B' && get_or bytes 1 0 == b'Z')) "bad bzip2 signature"
  fail_if (not (get_or bytes 2 0 == b'h')) "only huffman bzip2 supported"
  let level = get_or bytes 3 0
  fail_if (not (leb b'1' level && leb level b'9')) "invalid bzip2 block size level"
  ok (100_000 * (level - b'0'))

-- The loop over the blocks. A round takes 48 bits, so one round more than the bits left is enough.
unfoldable pub decode_blocks : ℕ → ℕ → List ℕ → M (List ℕ)
unfolding read_u64 decode_block
decode_blocks zero max_blocksize output = stuck
decode_blocks (suc fuel) max_blocksize output =
    Reading.◌>>=◌ (ok_or (read_u64 48) "unexpected end of stream") λ magic.
      elim (magic == block_magic) [
        | true ↦
            Reading.◌>>=◌ (decode_block max_blocksize)
              λ block_data. decode_blocks fuel max_blocksize (output ++ block_data)
        | false ↦ elim (magic == final_magic) [
          | true ↦ return output
          | false ↦ fail "invalid block magic"
        ]
      ]

unfoldable pub decompress : List ℕ → Result (List ℕ)
unfolding parse_header from_bit_offset decode_blocks
decompress bytes = do
  max_blocksize ← parse_header bytes
  let r = from_bit_offset bytes 32
  decoded ← decode_blocks (suc (remaining r)) max_blocksize [] r
  ok decoded.0
