-- ===== src/Tests/Segments.antt =====
-- The theorems on src/chunk.rs at test_data/hello.bz2, and at two copies of it one behind the other.
use lbzip2_rs.Prelude.{
  ℕ, zero, suc, ◌+◌, ◌≤◌, ◌<◌, ◌≡◌, refl, arith, Bool, true, false, ◌&&◌, ◌||◌, not, dec_lt, List,
  [], ◌∷◌, ◌++◌, All, Option, some, none, ok, ◌==◌, ==_iff,
}
use lbzip2_rs.Tests.Bytes.{hello, all_bytes, all_bytes-IsBytes}
use lbzip2_rs.Tests.Blocks.{value_or, is_ok, ok-value_or}
use lbzip2_rs.Tests.Streams.{text, hello_header}
use lbzip2_rs.Tests.Wholes.{hello-IsBytes, first_decodes, decoded_text, hello-Runs}
use lbzip2_rs.Bits.{bit}
use lbzip2_rs.BitStream.{IsBytes, stream_bit, field, cursor_read}
use lbzip2_rs.BitReader.Defs.{BitReader, position, from_bit_offset}
use lbzip2_rs.Magic.{block_magic, final_magic}
use lbzip2_rs.Block.Common.{decode_block_into}
use lbzip2_rs.Stream.{decompress}
use lbzip2_rs.Stream.Runs.{cursor_some}
use lbzip2_rs.Chunk.Defs.{decode_segment}
use lbzip2_rs.Chunk.Streams.{stream_after}
use lbzip2_rs.Chunk.Walks.{block_cap, Walks, here, stream}
use lbzip2_rs.Chunk.Segments.{IsSegment, decode_segment-append}
use lbzip2_rs.Chunk.Whole.{FitsAt, decode_segment-decompress}

hello_fits : All (FitsAt hello 900_000) (32 ∷ [])
hello_fits = (rw (first_decodes, decoded_text) (omega arith), tt)

is_none : Option ℕ → Bool
is_none none = true
is_none (some v) = false

-- Behind each final magic at the `n` bits from `p` on, no stream follows.
ends_at : ℕ → ℕ → Bool
unfolding is_none
ends_at p zero = true
ends_at p (suc n) =
    (not (field (stream_bit hello) p 48 == final_magic) || is_none (stream_after hello (p + 48)))
    && ends_at (suc p) n

hello_ends : ends_at 0 417 ≡ true
unfolding ends_at field stream_bit bit
hello_ends = refl

none_behind : (o : Option ℕ) → is_none o ≡ true → o ≡ none
unfolding is_none
none_behind none e = refl
none_behind (some v) e = cc

ends_at_lem :
    (p n q : ℕ)
    → ends_at p n ≡ true
    → p ≤ q
    → q < p + n
    → field (stream_bit hello) q 48 ≡ final_magic
    → stream_after hello (q + 48) ≡ none
unfolding ends_at
ends_at_lem p zero q e le lt magic = absurd (omega arith)
ends_at_lem p (suc n) q e le lt magic = elim (dec_lt p q) [
  | yes later ↦ ends_at_lem (suc p) n q (ground arith) (omega arith) (omega arith) magic
  | no at_p ↦
      let at : p ≡ q = omega arith in
      let same : (field (stream_bit hello) p 48 == final_magic) ≡ true =
        (==_iff (field (stream_bit hello) p 48) final_magic).1 (rw at magic) in
      rw (← at) (none_behind (stream_after hello (p + 48)) (ground (arith, same)))
]

hello_last :
    (pos : ℕ) → cursor_read hello pos 48 ≡ some final_magic → stream_after hello (pos + 48) ≡ none
hello_last pos found =
    let (fits, next, magic) = cursor_some hello pos 48 final_magic found in
    ends_at_lem 0 417 pos hello_ends (omega arith) (omega (arith, fits)) magic

decode_segment-decompress_example : decode_segment hello 32 464 900_000 ≡ decompress hello
decode_segment-decompress_example =
    decode_segment-decompress hello 900_000 [] text hello-IsBytes hello_header hello-Runs hello_fits
      hello_last

two : List ℕ
two = hello ++ hello

two-IsBytes : IsBytes two
unfolding two all_bytes
two-IsBytes = all_bytes-IsBytes (hello ++ hello) refl

-- The blocks of the first and of the second copy.
block_of : ℕ → List ℕ × BitReader
unfolding two decode_block_into from_bit_offset
block_of pos =
    value_or ([], from_bit_offset two (pos + 48))
      (decode_block_into 900_000 (block_cap 900_000) (from_bit_offset two (pos + 48)))

first_ok : is_ok (decode_block_into 900_000 (block_cap 900_000) (from_bit_offset two 80)) ≡ true
unfolding two decode_block_into from_bit_offset
first_ok = refl

second_ok : is_ok (decode_block_into 900_000 (block_cap 900_000) (from_bit_offset two 544)) ≡ true
unfolding two decode_block_into from_bit_offset
second_ok = refl

first_end : (position (block_of 32).1 ≡ 377) × ((block_of 32).0 ≡ text)
unfolding block_of two decode_block_into from_bit_offset
first_end = (refl, refl)

second_end : (position (block_of 496).1 ≡ 841) × ((block_of 496).0 ≡ text)
unfolding block_of two decode_block_into from_bit_offset
second_end = (refl, refl)

first_block_magic : cursor_read two 32 48 ≡ some block_magic
unfolding two field stream_bit bit
first_block_magic = refl

second_block_magic : cursor_read two 496 48 ≡ some block_magic
unfolding two field stream_bit bit
second_block_magic = refl

first_final_magic : cursor_read two 377 48 ≡ some final_magic
unfolding two field stream_bit bit
first_final_magic = refl

first_next : stream_after two 425 ≡ some 496
unfolding two field stream_bit bit
first_next = refl

-- A segment of one block, and what follows it.
one_block :
    (start end_ stop : ℕ) (data_ : List ℕ) (r : BitReader)
    → cursor_read two start 48 ≡ some block_magic
    → decode_block_into 900_000 (block_cap 900_000) (from_bit_offset two (start + 48))
      ≡ ok (data_, r)
    → position r ≡ end_
    → data_ ≡ text
    → Walks two 900_000 end_ stop []
    → IsSegment two 900_000 start stop text
one_block start end_ stop data_ r magic decodes at same walk = record {
  data_ = data_;
  r = r;
  rest = [];
  magic = magic;
  decoded = decodes;
  more = rw at walk;
  whole = rw same refl;
}

first_block_decodes :
    decode_block_into 900_000 (block_cap 900_000) (from_bit_offset two 80)
    ≡ ok ((block_of 32).0, (block_of 32).1)
unfolding block_of
first_block_decodes =
    ok-value_or ([], from_bit_offset two 80)
      (decode_block_into 900_000 (block_cap 900_000) (from_bit_offset two 80)) first_ok

second_block_decodes :
    decode_block_into 900_000 (block_cap 900_000) (from_bit_offset two 544)
    ≡ ok ((block_of 496).0, (block_of 496).1)
unfolding block_of
second_block_decodes =
    ok-value_or ([], from_bit_offset two 544)
      (decode_block_into 900_000 (block_cap 900_000) (from_bit_offset two 544)) second_ok

first-IsSegment : IsSegment two 900_000 32 496 text
first-IsSegment =
    one_block 32 377 496 (block_of 32).0 (block_of 32).1 first_block_magic first_block_decodes
      first_end.0 first_end.1 (stream 496 first_final_magic first_next (omega arith) here)

second-IsSegment : IsSegment two 900_000 496 841 text
second-IsSegment =
    one_block 496 841 841 (block_of 496).0 (block_of 496).1 second_block_magic second_block_decodes
      second_end.0 second_end.1 here

decode_segment-append_example :
    (decode_segment two 32 496 900_000 ≡ ok text)
    × (decode_segment two 496 841 900_000 ≡ ok text)
    × (decode_segment two 32 841 900_000 ≡ ok (text ++ text))
decode_segment-append_example =
    decode_segment-append two 900_000 32 496 841 text text two-IsBytes first-IsSegment
      second-IsSegment
