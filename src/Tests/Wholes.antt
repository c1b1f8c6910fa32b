-- ===== src/Tests/Wholes.antt =====
-- The theorems on src/stream.rs, and on src/parallel.rs against it, at test_data/hello.bz2.
use lbzip2_rs.Prelude.{
  ◌↔◌, Anything, ℕ, zero, suc, ◌+◌, ◌≤◌, ◌<◌, ◌≡◌, refl, arith, inl, Bool, true, ◌&&◌, not, dec_lt,
  List, [], ◌∷◌, some, none, ok, ◌==◌, ==_iff,
}
use lbzip2_rs.Tests.Bytes.{hello, all_bytes, all_bytes-IsBytes}
use lbzip2_rs.Tests.Blocks.{value_or, is_ok, ok-value_or}
use lbzip2_rs.Tests.Streams.{text, hello_header}
use lbzip2_rs.Bits.{bit}
use lbzip2_rs.BitStream.{IsBytes, stream_bit, field, cursor_read}
use lbzip2_rs.BitReader.Defs.{BitReader, position, from_bit_offset, skip}
use lbzip2_rs.BitReader.Refill.{Represents}
use lbzip2_rs.BitReader.Bit.{from_bit_offset-Represents}
use lbzip2_rs.BitReader.Skip.{skip-Represents}
use lbzip2_rs.Magic.{HasMagic, block_magic, final_magic}
use lbzip2_rs.Scan.Defs.{find_next_block}
use lbzip2_rs.Scan.Next.{FindsFirst, find_next_block-FindsFirst}
use lbzip2_rs.Block.Common.{decode_block}
use lbzip2_rs.Block.Steady.{Agree}
use lbzip2_rs.Block.Steady.Blocks.{decode_block-Steady}
use lbzip2_rs.Stream.{decompress}
use lbzip2_rs.Stream.Runs.{Runs, final, block}
use lbzip2_rs.Stream.Outcome.{decompress-Runs}
use lbzip2_rs.Parallel.{decompress_parallel}
use lbzip2_rs.Parallel.Whole.{HasOnly, decompress_parallel-decompress}

pub hello-IsBytes : IsBytes hello
unfolding all_bytes
hello-IsBytes = all_bytes-IsBytes hello refl

pub at_block : BitReader
unfolding from_bit_offset
at_block = from_bit_offset hello 80

pub decoded : List ℕ × BitReader
unfolding decode_block at_block
decoded = value_or ([], at_block) (decode_block 900_000 at_block)

decoded_is_ok : is_ok (decode_block 900_000 at_block) ≡ true
unfolding decode_block at_block
decoded_is_ok = refl

pub first_decodes : decode_block 900_000 (from_bit_offset hello 80) ≡ ok (decoded.0, decoded.1)
unfolding decoded at_block
first_decodes = ok-value_or ([], at_block) (decode_block 900_000 at_block) decoded_is_ok

pub decoded_text : decoded.0 ≡ text
unfolding decoded at_block decode_block
decoded_text = refl

pub first_magic : cursor_read hello 32 48 ≡ some block_magic
unfolding field stream_bit bit
first_magic = refl

pub decoded_end : position decoded.1 ≡ 377
unfolding decoded at_block decode_block
decoded_end = refl

pub last_magic : cursor_read hello (position decoded.1) 48 ≡ some final_magic
unfolding field stream_bit bit
last_magic = rw decoded_end refl

pub hello-Runs : Runs hello 900_000 32 (32 ∷ []) (ok text)
hello-Runs =
    block decoded.0 decoded.1 first_magic first_decodes (final last_magic) (rw decoded_text refl)

decompress-Runs_example :
    (decompress hello ≡ ok text) ↔ ((starts : List ℕ) × Runs hello 900_000 32 starts (ok text))
decompress-Runs_example = decompress-Runs hello 900_000 (ok text) hello-IsBytes hello_header

no_later : find_next_block hello 33 ≡ none
unfolding find_next_block
no_later = refl

first_found : find_next_block hello 0 ≡ some (record { bit_offset = 32 })
unfolding find_next_block
first_found = refl

-- No magic at the `n` bits from `p` on.
none_at : ℕ → ℕ → Bool
none_at p zero = true
none_at p (suc n) = not (field (stream_bit hello) p 48 == block_magic) && none_at (suc p) n

none_at_lem : (p n q : ℕ) → none_at p n ≡ true → p ≤ q → q < p + n → ¬ HasMagic hello q
unfolding none_at
none_at_lem p zero q e le lt magic = absurd (omega arith)
none_at_lem p (suc n) q e le lt magic = elim (dec_lt p q) [
  | yes later ↦ none_at_lem (suc p) n q (ground arith) (omega arith) (omega arith) magic
  | no here ↦
      let at : p ≡ q = omega arith in
      let same : (field (stream_bit hello) p 48 == block_magic) ≡ true =
        (==_iff (field (stream_bit hello) p 48) block_magic).1 (rw at magic) in
      absurd (ground (arith, same))
]

end_is_free : none_at 401 16 ≡ true
unfolding none_at field stream_bit bit
end_is_free = refl

hello-HasOnly : HasOnly hello (32 ∷ [])
hello-HasOnly p fits magic =
    let first : FindsFirst hello 0 (some (record { bit_offset = 32 })) =
      rw first_found at (find_next_block-FindsFirst hello 0 hello-IsBytes) in
    let later : FindsFirst hello 33 none =
      rw no_later at (find_next_block-FindsFirst hello 33 hello-IsBytes) in
    elim (dec_lt p 32) [
      | yes before ↦ absurd (first.3 p (omega arith) before magic)
      | no from ↦ elim (dec_lt p 33) [
        | yes here ↦ inl (omega arith)
        | no behind ↦ elim (dec_lt p 401) [
          | yes inside ↦ absurd (later p (omega arith) (omega arith) magic)
          | no near_end ↦
              absurd (none_at_lem 401 16 p end_is_free (omega arith) (omega arith) magic)
        ]
      ]
    ]

decompress_parallel-decompress_example :
    (decompress_parallel 4 hello ≡ decompress hello) × (decompress hello ≡ ok text)
decompress_parallel-decompress_example =
    decompress_parallel-decompress 4 hello 900_000 (32 ∷ []) text hello-IsBytes hello_header
      hello-Runs hello-HasOnly

-- Two readers at the first block: one made for its first bit, one moved there.
moved : BitReader
unfolding from_bit_offset skip
moved = skip 8 (from_bit_offset hello 72)

moved-Represents : Represents hello moved 80
unfolding moved
moved-Represents =
    skip-Represents hello (from_bit_offset hello 72) 72 8
      (from_bit_offset-Represents hello 72 hello-IsBytes (omega arith)) (omega arith)

decode_block-Steady_example :
    Agree hello 80 Anything (decode_block 900_000 at_block) (decode_block 900_000 moved)
decode_block-Steady_example =
    decode_block-Steady 900_000 hello 80 at_block moved
      (unfold at_block in from_bit_offset-Represents hello 80 hello-IsBytes (omega arith))
      moved-Represents
