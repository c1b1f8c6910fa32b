-- ===== src/Chunk/Whole.antt =====
-- src/chunk.rs against src/stream.rs: a whole stream as one segment.
use lbzip2_rs.Prelude.{
  ℕ, zero, suc, ◌+◌, ◌-◌, ◌*◌, ◌≤◌, ◌<◌, ◌≡◌, refl, sym, ap, ◌∙◌, arith, false, ◌||◌, List, [], ◌∷◌,
  length, All, Option, none, some, Result, ok, err, panic, OnOk, ltb, leb, le→leb,
}
use mathlib.Core.Path.{subst}
use lbzip2_rs.BitStream.{IsBytes, cursor_read}
use lbzip2_rs.BitReader.Defs.{BitReader, position, from_bit_offset, read_u64}
use lbzip2_rs.BitReader.Refill.{Represents}
use lbzip2_rs.BitReader.Refinement.{read_u64-Reads}
use lbzip2_rs.Magic.{block_magic, final_magic}
use lbzip2_rs.Block.Reading.{bind_result, lift}
use lbzip2_rs.Block.Runs.{rle2_decode_alloc, rle2_decode_into}
use lbzip2_rs.Block.Runs.Room.{rle2_decode_into-rle2_decode_alloc}
use lbzip2_rs.Block.Common.{decode_block_common, decode_block, decode_block_into}
use lbzip2_rs.Stream.{parse_header, decompress}
use lbzip2_rs.Stream.Runs.{Runs, truncated, final, unknown, block_err, block_panic, cursor_some}
use lbzip2_rs.Stream.Decoded.{position-Represents}
use lbzip2_rs.Stream.Outcome.{decompress-Runs}
use lbzip2_rs.Stream.Layout.{prepend-eq-ok}
use lbzip2_rs.Chunk.Defs.{next_stream, segment_loop, decode_segment}
use lbzip2_rs.Chunk.Streams.{stream_after, StandsAt, next_stream-StandsAt}
use lbzip2_rs.Chunk.Walks.{block_cap, Walks, here, block, loop-on_read, on_read, on_next, or_false}
use lbzip2_rs.Chunk.Segments.{IsSegment, decode_segment-Arrives}

lift-eq-ok :
    (o : Result (List ℕ)) (r : BitReader) (d : List ℕ) (r' : BitReader)
    → lift o r ≡ ok (d, r')
    → (o ≡ ok d) × (r ≡ r')
lift-eq-ok (ok e) r d r' same = (ap (λ t. value t) same, ap reader same)
  where
    value : Result (List ℕ × BitReader) → Result (List ℕ)
    value (ok (x, y)) = ok x
    value (err x) = err x
    value panic = panic

    reader : Result (List ℕ × BitReader) → BitReader
    reader (ok (x, y)) = y
    reader (err x) = r
    reader panic = r
lift-eq-ok (err e) r d r' same = cc
lift-eq-ok panic r d r' same = cc

-- A common part, and the final run decoding in a buffer with room for what it gives.
common-fits :
    (m : Result ((List ℕ × ℕ) × BitReader)) (cap : ℕ) (d : List ℕ) (r' : BitReader)
    → bind_result m (λ common. lift (rle2_decode_alloc common.0 common.1)) ≡ ok (d, r')
    → length d ≤ cap
    → bind_result m (λ common. lift (rle2_decode_into common.0 common.1 cap)) ≡ ok (d, r')
common-fits (ok (common, r)) cap d r' e le =
    let (alloc, same) = lift-eq-ok (rle2_decode_alloc common.0 common.1) r d r' e in
    let room : rle2_decode_into common.0 common.1 cap ≡ ok d =
      rle2_decode_into-rle2_decode_alloc common.0 common.1 cap d alloc
      ∙ rw (le→leb (length d) cap le) refl in
    rw (room, same) refl
common-fits (err x) cap d r' e le = cc
common-fits panic cap d r' e le = cc

-- What `decode_block` gives, `decode_block_into` gives in a buffer with room for it.
decode_block_into-decode_block :
    (max_blocksize cap : ℕ) (r : BitReader) (d : List ℕ) (r' : BitReader)
    → decode_block max_blocksize r ≡ ok (d, r')
    → length d ≤ cap
    → decode_block_into max_blocksize cap r ≡ ok (d, r')
unfolding decode_block decode_block_into
decode_block_into-decode_block max_blocksize cap r d r' e le =
    common-fits (decode_block_common max_blocksize r) cap d r' e le

-- The block at a bit fits the room that `decode_segment` gives it.
abbrev pub FitsAt : List ℕ → ℕ → ℕ → Type 0
FitsAt bytes max_blocksize pos =
    OnOk (λ decoded. length decoded.0 ≤ block_cap max_blocksize)
      (decode_block max_blocksize (from_bit_offset bytes (pos + 48)))

-- The blocks of a stream that fit, up to the final magic.
Runs-Walks :
    (bytes : List ℕ) (max_blocksize pos : ℕ) (starts out : List ℕ) (outcome : Result (List ℕ))
    → Runs bytes max_blocksize pos starts outcome
    → outcome ≡ ok out
    → All (FitsAt bytes max_blocksize) starts
    → (stop : ℕ) × Walks bytes max_blocksize pos stop out
      × (cursor_read bytes stop 48 ≡ some final_magic)
Runs-Walks bytes size pos _ out _ (truncated nothing) e fits = cc
Runs-Walks bytes size pos _ out _ (unknown magic found other neither) e fits = cc
Runs-Walks bytes size pos _ out _ (block_err x found fails) e fits = cc
Runs-Walks bytes size pos _ out _ (block_panic found fails) e fits = cc
Runs-Walks bytes size pos _ out _ (final found) e fits =
    let empty_ : [] ≡ out = cc in (pos, subst (Walks bytes size pos pos) empty_ here, found)
Runs-Walks bytes size pos _ out outcome
      (Runs.block {starts} {rest} data_ r found decoded runs whole) e fits =
    let (later, rest_ok, split) = prepend-eq-ok data_ rest out (sym whole ∙ e) in
    let (stop, walk, last) =
      Runs-Walks bytes size (position r) starts later rest runs rest_ok fits.1 in
    let room : length data_ ≤ block_cap size = rw decoded at fits.0 in
    let into =
      decode_block_into-decode_block size (block_cap size) (from_bit_offset bytes (pos + 48)) data_
        r decoded room in
    (stop, block data_ r found into walk split, last)

-- At a final magic behind which no stream follows, the loop stops.
segment_loop_final :
    (bytes : List ℕ) (fuel end_bit max_blocksize cap stop : ℕ) (output : List ℕ) (r : BitReader)
    → Represents bytes r stop
    → 8 * length bytes - stop < fuel
    → stop < end_bit
    → cursor_read bytes stop 48 ≡ some final_magic
    → stream_after bytes (stop + 48) ≡ none
    → segment_loop fuel bytes end_bit max_blocksize cap output r ≡ ok output
segment_loop_final bytes zero end_bit max_blocksize cap stop output r rep enough lt found last =
    absurd (omega arith)
segment_loop_final bytes (suc fuel) end_bit max_blocksize cap stop output r rep enough lt found
      last =
    let at_stop : position r ≡ stop = position-Represents bytes r stop rep in
    let (fits, next, magic) = cursor_some bytes stop 48 final_magic found in
    let (s, read, at) = read_u64-Reads bytes r stop 48 rep (omega arith) (omega arith) in
    let behind : Represents bytes s (stop + 48) = rw next at at in
    let read' : read_u64 48 r ≡ (some final_magic, s) = rw found at read in
    let nothing : next_stream s ≡ none =
      no_reader (next_stream s) (rw last at (next_stream-StandsAt bytes s (stop + 48) behind)) in
    let inside : (ltb (length bytes * 8) (position r + 48) || leb end_bit (position r)) ≡ false =
      or_false (length bytes * 8) (position r + 48) end_bit (position r) (omega arith)
        (omega arith) in
    loop-on_read fuel bytes end_bit max_blocksize cap output r s inside
    ∙ ap (on_read fuel bytes end_bit max_blocksize cap output r s inside) read'
    ∙ ap (on_next fuel bytes end_bit max_blocksize cap output r s inside) nothing
  where
    no_reader : (o : Option BitReader) → StandsAt bytes o none → o ≡ none
    no_reader none h = refl
    no_reader (some t) h = absurd h

magics_differ : ◌≡◌ {A = Option ℕ} (some block_magic) (some final_magic) → ⊥
magics_differ e =
    let same : ◌≡◌ {A = ℕ} block_magic final_magic = ap value_at e in absurd (omega (arith, same))
  where
    value_at : Option ℕ → ℕ
    value_at (some v) = v
    value_at none = 0

-- A walk that begins with a block magic, up to a final one.
as-IsSegment :
    (bytes : List ℕ) (max_blocksize pos stop : ℕ) (out : List ℕ)
    → Walks bytes max_blocksize pos stop out
    → cursor_read bytes pos 48 ≡ some block_magic
    → cursor_read bytes stop 48 ≡ some final_magic
    → IsSegment bytes max_blocksize pos stop out
as-IsSegment bytes size pos _ _ here first last = absurd (magics_differ (sym first ∙ last))
as-IsSegment bytes size pos stop out (block {rest} data_ r found decoded more whole) first last =
    record {
      data_ = data_;
      r = r;
      rest = rest;
      magic = found;
      decoded = decoded;
      more = more;
      whole = whole;
    }
as-IsSegment bytes size pos stop out (Walks.stream next found after forward more) first last =
    absurd (magics_differ (sym first ∙ found))

first_magic :
    (bytes : List ℕ) (max_blocksize pos p : ℕ) (starts ps : List ℕ) (outcome : Result (List ℕ))
    → Runs bytes max_blocksize pos starts outcome
    → starts ≡ p ∷ ps
    → cursor_read bytes pos 48 ≡ some block_magic
first_magic bytes size pos p _ ps _ (truncated nothing) e = cc
first_magic bytes size pos p _ ps _ (final found) e = cc
first_magic bytes size pos p _ ps _ (unknown magic found other neither) e = cc
first_magic bytes size pos p _ ps _ (block_err x found fails) e = cc
first_magic bytes size pos p _ ps _ (block_panic found fails) e = cc
first_magic bytes size pos p _ ps outcome (Runs.block data_ r found decoded runs whole) e = found

-- For bytes whose header gives a block size, that `decompress` decodes to at least one block, each
-- of which fits the room of a segment, and in which no stream follows a final magic,
-- `decode_segment` from the first block to the end of the bytes gives what `decompress` gives.
pub decode_segment-decompress :
    (bytes : List ℕ) (max_blocksize : ℕ) (starts out : List ℕ)
    → IsBytes bytes
    → parse_header bytes ≡ ok max_blocksize
    → Runs bytes max_blocksize 32 (32 ∷ starts) (ok out)
    → All (FitsAt bytes max_blocksize) (32 ∷ starts)
    → ((pos : ℕ)
        → cursor_read bytes pos 48 ≡ some final_magic
        → stream_after bytes (pos + 48) ≡ none)
    → decode_segment bytes 32 (8 * length bytes) max_blocksize ≡ decompress bytes
decode_segment-decompress bytes size starts out bytes_ok header runs fits last =
    let sequential : decompress bytes ≡ ok out =
      (decompress-Runs bytes size (ok out) bytes_ok header).1 (32 ∷ starts, runs) in
    let (stop, walk, found) = Runs-Walks bytes size 32 (32 ∷ starts) out (ok out) runs refl fits in
    let segment : IsSegment bytes size 32 stop out =
      as-IsSegment bytes size 32 stop out walk
        (first_magic bytes size 32 32 (32 ∷ starts) starts (ok out) runs refl) found in
    let inside = (cursor_some bytes stop 48 final_magic found).0 in
    let (fuel, r, rep, enough, same) =
      decode_segment-Arrives bytes size bytes_ok 32 stop (8 * length bytes) out segment
        (omega arith) in
    same
    ∙ segment_loop_final bytes fuel (8 * length bytes) size (block_cap size) stop out r rep enough
        (omega arith) found (last stop found)
    ∙ sym sequential
