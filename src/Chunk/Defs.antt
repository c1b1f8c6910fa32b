-- ===== src/Chunk/Defs.antt =====
-- src/chunk.rs: `split_chunk`, `decode_segment` and `decode_block_into_vec`.
use lbzip2_rs.Prelude.{
  ℕ, zero, suc, ◌+◌, ◌-◌, ◌*◌, ◌/◌, ◌%◌, ◌^◌, Bool, true, false, ◌||◌, List, [], ◌∷◌, ◌++◌, Option,
  none, some, length, get_elem?, Result, ok, err, panic, ltb, leb, ◌==◌, if◌then◌else◌,
}
use lbzip2_rs.BitReader.Defs.{
  BitReader, position, remaining, from_bit_offset, read_u32, read_u64, skip,
}
use lbzip2_rs.Magic.{block_magic, final_magic}
use lbzip2_rs.Scan.Defs.{BlockBoundary, find_next_block}
use lbzip2_rs.Scan.Split.{split_boundaries_parallel}
use lbzip2_rs.Block.Common.{decode_block_into}

pub record ChunkSplit : Type 0 where
  pub segment_starts : List BlockBoundary
  pub decode_segments : ℕ
  pub consumed : ℕ

-- The loop that adds the splits behind the first block, but none that repeats the last.
unfoldable pub add_splits : BlockBoundary → List BlockBoundary → List BlockBoundary
add_splits prev [] = []
add_splits prev (s ∷ splits) = elim (prev.bit_offset == s.bit_offset) [
  | true ↦ add_splits prev splits
  | false ↦ s ∷ add_splits s splits
]

-- `segment_starts[decode_segments].byte_offset()`, or all of the data.
abbrev pub consumed_bytes : List ℕ → List BlockBoundary → ℕ → ℕ
consumed_bytes bytes starts decode_segments = elim (get_elem? starts decode_segments) [
  | some b ↦ b.bit_offset / 8
  | none ↦ length bytes
]

unfoldable pub split_chunk : List ℕ → ℕ → ℕ → Bool → Option ChunkSplit
unfolding find_next_block split_boundaries_parallel add_splits
split_chunk bytes n_segments max_blocksize is_last = elim (find_next_block bytes 0) [
  | none ↦ none
  | some first_block ↦
      let splits = split_boundaries_parallel bytes n_segments max_blocksize in
      let segment_starts = first_block ∷ add_splits first_block splits in
      let n = length segment_starts in
      let split : ℕ → ChunkSplit = λ decode_segments. record {
        segment_starts = segment_starts;
        decode_segments = decode_segments;
        consumed = consumed_bytes bytes segment_starts decode_segments;
      } in
      if is_last then some (split n) else (if ltb 1 n then some (split (n - 1)) else none)
]

-- `decode_block_into` writes behind what `output` has, into `block_cap` more bytes. An error
-- leaves `output` as it was; nobody uses the reader after one.
unfoldable pub decode_block_into_vec : List ℕ → BitReader → ℕ → ℕ → Result (List ℕ × BitReader)
unfolding decode_block_into
decode_block_into_vec output r max_blocksize block_cap =
    elim (decode_block_into max_blocksize block_cap r) [
      | ok (written, r') ↦ ok (output ++ written, r')
      | err e ↦ err e
      | panic ↦ panic
    ]

-- `&b[..3] != b"BZh"` for the big-endian bytes `b` of a u32.
abbrev pub is_bzh : ℕ → Bool
is_bzh h = h / 2 ^ 8 == 0x425A68

-- The rest of a stream's end: the CRC, the padding to a byte, and the header of the next stream.
-- `none` ends the loop.
unfoldable pub next_stream : BitReader → Option BitReader
unfolding read_u32 skip
next_stream r =
    let (crc, r1) = read_u32 32 r in
    elim crc [
      | none ↦ none
      | some _ ↦
          let pad = (8 - position r1 % 8) % 8 in
          let r2 = if ltb 0 pad then skip pad r1 else r1 in
          let (header, r3) = read_u32 32 r2 in
          elim header [ none ↦ none | some h ↦ if is_bzh h then some r3 else none ]
    ]

-- The loop of `decode_segment`. A round takes 48 bits or more, so one round more than the bits
-- left is enough.
unfoldable pub segment_loop : ℕ → List ℕ → ℕ → ℕ → ℕ → List ℕ → BitReader → Result (List ℕ)
unfolding read_u64 decode_block_into_vec next_stream
segment_loop zero bytes end_bit max_blocksize block_cap output r = panic
segment_loop (suc fuel) bytes end_bit max_blocksize block_cap output r =
    let pos = position r in
    let (read, r') = read_u64 48 r in
    elim (ltb (length bytes * 8) (pos + 48) || leb end_bit pos) [
      | true ↦ ok output
      | false ↦ elim read [
        | none ↦ ok output
        | some magic ↦ elim (magic == block_magic) [
          | true ↦ elim (decode_block_into_vec output r' max_blocksize block_cap) [
            | ok (output', r'') ↦
                segment_loop fuel bytes end_bit max_blocksize block_cap output' r''
            | err _ ↦ ok output
            | panic ↦ panic
          ]
          | false ↦ elim (magic == final_magic) [
            | false ↦ ok output
            | true ↦ elim (next_stream r') [
              | none ↦ ok output
              | some r'' ↦ segment_loop fuel bytes end_bit max_blocksize block_cap output r''
            ]
          ]
        ]
      ]
    ]

unfoldable pub decode_segment : List ℕ → ℕ → ℕ → ℕ → Result (List ℕ)
unfolding from_bit_offset decode_block_into_vec segment_loop
decode_segment bytes start_bit end_bit max_blocksize =
    let block_cap = max_blocksize + max_blocksize / 4 in
    let r = from_bit_offset bytes (start_bit + 48) in
    elim (decode_block_into_vec [] r max_blocksize block_cap) [
      | err _ ↦ ok []
      | panic ↦ panic
      | ok (output, r') ↦
          segment_loop (suc (remaining r')) bytes end_bit max_blocksize block_cap output r'
    ]
