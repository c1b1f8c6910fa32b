-- ===== src/Tests/Blocks.antt =====
-- The theorems on src/block.rs at the block of test_data/hello.bz2.
use lbzip2_rs.Prelude.{
  OnOk, ℕ, ◌+◌, ◌/◌, ◌<◌, leb, if◌then◌else◌, ◌≤◌, ◌≡◌, refl, Bool, true, false, arith, ◌⊎◌, List,
  [], length, Result, ok, err, panic,
}
use lbzip2_rs.Tests.Bytes.{hello}
use lbzip2_rs.BitStream.{IsBytes}
use lbzip2_rs.BitReader.Defs.{BitReader, from_bit_offset}
use lbzip2_rs.Bwt.Buckets.{IsHistogram}
use lbzip2_rs.Block.Header.{Header, read_header}
use lbzip2_rs.Block.Symbols.{State, start, decode_symbols}
use lbzip2_rs.Block.Common.{decode_block, decode_block_into}
use lbzip2_rs.Block.Output.{decode_block-positive}
use lbzip2_rs.Block.Panics.{decode_symbols-IsHistogram, decode_block_safe}

abbrev pub value_or : {A : Type 0} → A → Result A → A
value_or d (ok a) = a
value_or d (err e) = d
value_or d panic = d

-- Behind the first block magic.
at_block : BitReader
unfolding from_bit_offset
at_block = from_bit_offset hello 80

block_header : Header × BitReader
block_header =
    value_or (record { orig_ptr = 0; used = []; selectors = []; trees = [] }, at_block)
      (read_header at_block)

block_symbols : State × BitReader
block_symbols = value_or (start [], at_block) (decode_symbols 900_000 block_header.0 block_header.1)

-- What succeeds, succeeds with its value.
abbrev pub is_ok : {A : Type 0} → Result A → Bool
is_ok (ok a) = true
is_ok (err e) = false
is_ok panic = false

pub ok-value_or : {A : Type 0} (d : A) (m : Result A) → is_ok m ≡ true → m ≡ ok (value_or d m)
ok-value_or d (ok a) e = refl
ok-value_or d (err x) e = cc
ok-value_or d panic e = cc

header_is_ok : is_ok (read_header at_block) ≡ true
unfolding read_header at_block
header_is_ok = refl

symbols_is_ok : is_ok (decode_symbols 900_000 block_header.0 block_header.1) ≡ true
unfolding decode_symbols block_header read_header at_block
symbols_is_ok = refl

header_reads : read_header at_block ≡ ok (block_header.0, block_header.1)
unfolding block_header
header_reads = ok-value_or _ (read_header at_block) header_is_ok

symbols_decode :
    decode_symbols 900_000 block_header.0 block_header.1 ≡ ok (block_symbols.0, block_symbols.1)
unfolding block_symbols
symbols_decode = ok-value_or _ (decode_symbols 900_000 block_header.0 block_header.1) symbols_is_ok

decode_symbols-IsHistogram_example :
    IsBytes block_symbols.0.tt_
    × (length block_symbols.0.tt_ ≤ 900_000)
    × IsHistogram block_symbols.0.tt_ block_symbols.0.c
decode_symbols-IsHistogram_example =
    decode_symbols-IsHistogram 900_000 at_block block_header.1 block_symbols.1 block_header.0
      block_symbols.0 (omega arith) header_reads symbols_decode

decode_block_safe_example :
    ((out : List ℕ) × ((decode_block 900_000 at_block ≡ ok (out, block_symbols.1))
        ⊎ (length block_symbols.0.tt_ + length block_symbols.0.tt_ / 4 < length out))
      × ((cap : ℕ)
          → decode_block_into 900_000 cap at_block
            ≡ (if leb (length out) cap then ok (out, block_symbols.1) else panic)))
    ⊎ ((decode_block 900_000 at_block ≡ err "orig_ptr out of bounds")
        × ((cap : ℕ) → decode_block_into 900_000 cap at_block ≡ err "orig_ptr out of bounds"))
decode_block_safe_example =
    decode_block_safe 900_000 at_block block_header.1 block_symbols.1 block_header.0 block_symbols.0
      (omega arith) header_reads symbols_decode

decode_block-positive_example : OnOk (λ o. 0 < length o.0) (decode_block 900_000 at_block)
decode_block-positive_example = decode_block-positive 900_000 at_block
