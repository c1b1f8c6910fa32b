-- ===== src/Pipeline/Threads.antt =====
-- src/bin/lbunzip2.rs: the header, and what the reader, the main and the worker threads do with what
-- they receive. A slot is its part that holds data: the bytes carried over, which go to the end of
-- its headroom, and the bytes read.
use lbzip2_rs.Prelude.{
  ℕ, zero, suc, ◌+◌, ◌-◌, ◌*◌, Bool, true, false, not, ◌&&◌, ◌||◌, List, [], ◌∷◌, ◌++◌, length,
  get_or, get_elem?, drop, replicate, Option, none, some, Result, ok, panic, index, ◌>>=◌, ltb, leb,
  ◌==◌, if◌then◌else◌,
}
use lbzip2_rs.Source.{Source, read_chunk}
use lbzip2_rs.Chunk.Defs.{ChunkSplit, split_chunk, decode_segment}
use lbzip2_rs.Pipeline.{SegmentResult, InFlightSlot}

abbrev pub chunk_size : ℕ
chunk_size = 200 * 1024 * 1024

abbrev pub carry_headroom : ℕ
carry_headroom = 32 * 1024 * 1024

-- The block size that the header gives; without one the program exits.
unfoldable pub header_blocksize : List ℕ → Option ℕ
header_blocksize header =
    let level = get_or header 3 0 in
    if not (get_or header 0 0 == b'B' && get_or header 1 0 == b'Z')
      || not (get_or header 2 0 == b'h')
      || not (leb b'1' level && leb level b'9')
    then none
    else some (100_000 * (level - b'0'))

-- What the reader thread sends: the bytes read, and whether they are the last.
unfoldable pub reader_thread :
    {S : Type 0} → Source S → ℕ → ℕ → ℕ → S → Result (List (List ℕ × Bool))
unfolding read_chunk
reader_thread source zero fuel size s = panic
reader_thread source (suc chunks) fuel size s = do
  (bytes, s') ← read_chunk source fuel size s
  elim (ltb (length bytes) size) [
    | true ↦ ok ((bytes, true) ∷ [])
    | false ↦ do rest ← reader_thread source chunks fuel size s'; ok ((bytes, false) ∷ rest)
  ]

-- The pointer to a slot's data and its length are the data.
pub record WorkItem : Type 0 where
  pub chunk_id : ℕ
  pub segment_id : ℕ
  pub data_ : List ℕ
  pub start_bit : ℕ
  pub end_bit : ℕ
  pub max_blocksize : ℕ

-- The loop of a worker thread for one item.
unfoldable pub work : WorkItem → Result SegmentResult
unfolding decode_segment
work item = do
  output ← decode_segment item.data_ item.start_bit item.end_bit item.max_blocksize
  ok (record { chunk_id = item.chunk_id; segment_id = item.segment_id; output = output })

-- `segment_end`: where the next segment starts, or the end of the data.
unfoldable pub segment_end : List ℕ → ChunkSplit → ℕ → ℕ
segment_end data_ split i = elim (get_elem? split.segment_starts (i + 1)) [
  | some b ↦ b.bit_offset
  | none ↦ length data_ * 8
]

-- The loop that posts the segments of a chunk, from segment `i` on.
unfoldable pub work_items : ℕ → ℕ → List ℕ → ChunkSplit → ℕ → ℕ → Result (List WorkItem)
unfolding segment_end
work_items zero i data_ split chunk_id max_blocksize = ok []
work_items (suc left) i data_ split chunk_id max_blocksize = do
  start ← index (get_elem? split.segment_starts i)
  rest ← work_items left (i + 1) data_ split chunk_id max_blocksize
  ok (
      record {
        chunk_id = chunk_id;
        segment_id = i;
        data_ = data_;
        start_bit = start.bit_offset;
        end_bit = segment_end data_ split i;
        max_blocksize = max_blocksize;
      }
      ∷ rest)

-- The slot that is registered with the collector.
unfoldable pub new_in_flight : ℕ → List ℕ → ℕ → Bool → InFlightSlot
new_in_flight chunk_id slot decode_segments is_last = record {
  chunk_id = chunk_id;
  slot = slot;
  decode_segments = decode_segments;
  results = replicate decode_segments none;
  done_count = 0;
  is_last = is_last;
}

-- What the main thread sends for a chunk: the slot to the collector, then the items to the workers.
pub record Posted : Type 0 where
  pub slot : InFlightSlot
  pub items : List WorkItem

unfoldable pub post : ℕ → ℕ → List ℕ → ChunkSplit → Bool → Result Posted
unfolding work_items new_in_flight
post max_blocksize chunk_id data_ split is_last = do
  items ← work_items split.decode_segments 0 data_ split chunk_id max_blocksize
  ok (record { slot = new_in_flight chunk_id data_ split.decode_segments is_last; items = items })

-- The loop of the main thread over what it gets from the reader thread, with `carry` left of the
-- chunks before. A chunk that is not split is dropped.
unfoldable pub main_loop : ℕ → ℕ → List (List ℕ × Bool) → List ℕ → ℕ → Result (List Posted)
unfolding split_chunk post
main_loop n_workers max_blocksize [] carry chunk_id = ok []
main_loop n_workers max_blocksize ((bytes, is_last) ∷ filled) carry chunk_id =
    let data_ = carry ++ bytes in
    elim (length bytes == 0 && leb (length carry) 4) [
      | true ↦ ok []
      | false ↦ elim (ltb carry_headroom (length carry)) [
        | true ↦ panic
        | false ↦ elim (split_chunk data_ n_workers max_blocksize is_last) [
          | none ↦ elim is_last [
            | true ↦ ok []
            | false ↦ main_loop n_workers max_blocksize filled carry chunk_id
          ]
          | some split ↦ elim (ltb (length data_) split.consumed) [
            | true ↦ panic
            | false ↦ do
              posted ← post max_blocksize chunk_id data_ split is_last
              elim is_last [
                | true ↦ ok (posted ∷ [])
                | false ↦ do
                  rest ←
                      main_loop n_workers max_blocksize filled (drop split.consumed data_)
                        (chunk_id + 1)
                  ok (posted ∷ rest)
              ]
          ]
        ]
      ]
    ]
