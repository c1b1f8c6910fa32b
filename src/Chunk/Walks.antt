-- ===== src/Chunk/Walks.antt =====
-- src/chunk.rs, `decode_segment`: from block to block, and from stream to stream, up to the bit at
-- which the next segment starts.
use lbzip2_rs.Prelude.{
  ℕ, zero, suc, ◌+◌, ◌-◌, ◌*◌, ◌/◌, ◌≤◌, ◌<◌, ◌≡◌, refl, sym, ap, ◌∙◌, arith, true, false, ◌||◌,
  List, [], ◌++◌, length, Option, none, some, Result, ok, err, panic, ltb, leb, ◌==◌,
}
use mathlib.Core.List.{append_assoc}
use lbzip2_rs.BitStream.{IsBytes, cursor_read}
use lbzip2_rs.BitReader.Defs.{BitReader, position, from_bit_offset, read_u64}
use lbzip2_rs.BitReader.Refill.{Represents}
use lbzip2_rs.BitReader.Refinement.{read_u64-Reads}
use lbzip2_rs.BitReader.Bit.{from_bit_offset-Represents}
use lbzip2_rs.Magic.{block_magic, final_magic}
use lbzip2_rs.Block.Common.{decode_block_into}
use lbzip2_rs.Block.Steady.Blocks.{decode_block_into-Steady}
use lbzip2_rs.Stream.Runs.{cursor_some}
use lbzip2_rs.Stream.Decoded.{position-Represents, output_nil}
use lbzip2_rs.Stream.Outcome.{Agree-ok}
use lbzip2_rs.Chunk.Defs.{decode_block_into_vec, next_stream, segment_loop}
use lbzip2_rs.Chunk.Streams.{stream_after, StandsAt, next_stream-StandsAt}

-- The room that `decode_segment` gives a block.
abbrev pub block_cap : ℕ → ℕ
block_cap max_blocksize = max_blocksize + max_blocksize / 4

-- From one bit to another, over the blocks and the ends of streams between them, with their output.
pub data Walks (bytes : List ℕ) (max_blocksize : ℕ) : ℕ → ℕ → List ℕ → Type 0 where
  here : {pos : ℕ} → Walks bytes max_blocksize pos pos []
  block :
      {pos stop : ℕ} {rest out : List ℕ} (data_ : List ℕ) (r : BitReader)
      → cursor_read bytes pos 48 ≡ some block_magic
      → decode_block_into max_blocksize (block_cap max_blocksize) (from_bit_offset bytes (pos + 48))
        ≡ ok (data_, r)
      → Walks bytes max_blocksize (position r) stop rest
      → out ≡ data_ ++ rest
      → Walks bytes max_blocksize pos stop out
  stream :
      {pos stop : ℕ} {out : List ℕ} (next : ℕ)
      → cursor_read bytes pos 48 ≡ some final_magic
      → stream_after bytes (pos + 48) ≡ some next
      → pos + 48 ≤ next
      → Walks bytes max_blocksize next stop out
      → Walks bytes max_blocksize pos stop out

module _ (fuel : ℕ) (bytes : List ℕ) (end_bit max_blocksize cap : ℕ) (output : List ℕ)
    (r s : BitReader)
    (inside : (ltb (length bytes * 8) (position r + 48) || leb end_bit (position r)) ≡ false) where
  -- What the loop does with the next stream, with a block, and with what it has read.
  abbrev pub on_next : Option BitReader → Result (List ℕ)
  on_next o = elim o [
    | none ↦ ok output
    | some t ↦ segment_loop fuel bytes end_bit max_blocksize cap output t
  ]

  abbrev pub on_block : Result (List ℕ × BitReader) → Result (List ℕ)
  on_block o = elim o [
    | ok (output', t) ↦ segment_loop fuel bytes end_bit max_blocksize cap output' t
    | err _ ↦ ok output
    | panic ↦ panic
  ]

  abbrev pub on_read : Option ℕ × BitReader → Result (List ℕ)
  on_read o = elim o.0 [
    | none ↦ ok output
    | some magic ↦ elim (magic == block_magic) [
      | true ↦ on_block (decode_block_into_vec output o.1 max_blocksize cap)
      | false ↦ elim (magic == final_magic) [ false ↦ ok output | true ↦ on_next (next_stream o.1) ]
    ]
  ]

  pub loop-on_read :
      segment_loop (suc fuel) bytes end_bit max_blocksize cap output r ≡ on_read (read_u64 48 r)
  unfolding segment_loop
  loop-on_read = rw (inside, segment_loop) refl

  loop_block :
      (output' : List ℕ) (t : BitReader)
      → read_u64 48 r ≡ (some block_magic, s)
      → decode_block_into_vec output s max_blocksize cap ≡ ok (output', t)
      → segment_loop (suc fuel) bytes end_bit max_blocksize cap output r
        ≡ segment_loop fuel bytes end_bit max_blocksize cap output' t
  loop_block output' t e f = loop-on_read ∙ ap on_read e ∙ ap on_block f

  loop_stream :
      (t : BitReader)
      → read_u64 48 r ≡ (some final_magic, s)
      → next_stream s ≡ some t
      → segment_loop (suc fuel) bytes end_bit max_blocksize cap output r
        ≡ segment_loop fuel bytes end_bit max_blocksize cap output t
  loop_stream t e f = loop-on_read ∙ ap on_read e ∙ ap on_next f

pub loop_past :
    (fuel : ℕ) (bytes : List ℕ) (end_bit max_blocksize cap : ℕ) (output : List ℕ) (r : BitReader)
    → (ltb (length bytes * 8) (position r + 48) || leb end_bit (position r)) ≡ true
    → segment_loop (suc fuel) bytes end_bit max_blocksize cap output r ≡ ok output
unfolding segment_loop
loop_past fuel bytes end_bit max_blocksize cap output r past = rw (past, segment_loop) refl

vec_ok :
    (output : List ℕ) (s : BitReader) (max_blocksize cap : ℕ) (data_ : List ℕ) (t : BitReader)
    → decode_block_into max_blocksize cap s ≡ ok (data_, t)
    → decode_block_into_vec output s max_blocksize cap ≡ ok (output ++ data_, t)
unfolding decode_block_into_vec
vec_ok output s max_blocksize cap data_ t e = rw (e, decode_block_into_vec) refl

pub or_false : (a b : ℕ) (c d : ℕ) → b ≤ a → d < c → (ltb a b || leb c d) ≡ false
or_false a b c d le lt = ground arith

pub or_true : (a b : ℕ) (c d : ℕ) → c ≤ d → (ltb a b || leb c d) ≡ true
or_true a b c d le = ground arith

module _ (bytes : List ℕ) (max_blocksize : ℕ) (bytes_ok : IsBytes bytes) where
  -- The block behind a magic, decoded by any reader that stands there.
  pub block_at :
      (pos : ℕ) (s : BitReader) (output data_ : List ℕ) (r : BitReader)
      → pos ≤ 8 * length bytes
      → Represents bytes s pos
      → decode_block_into max_blocksize (block_cap max_blocksize) (from_bit_offset bytes pos)
        ≡ ok (data_, r)
      → (t : BitReader) × (decode_block_into_vec output s max_blocksize (block_cap max_blocksize)
          ≡ ok (output ++ data_, t))
        × (pos ≤ position r)
        × Represents bytes t (position r)
  block_at pos s output data_ r within rep decoded =
      let cap : ℕ = block_cap max_blocksize in
      let (t, e, le, at) =
        Agree-ok bytes pos (decode_block_into max_blocksize cap s)
          (decode_block_into max_blocksize cap (from_bit_offset bytes pos)) data_ r
          (decode_block_into-Steady max_blocksize cap bytes pos s (from_bit_offset bytes pos) rep
            (from_bit_offset-Represents bytes pos bytes_ok within))
          decoded in
      (t, vec_ok output s max_blocksize cap data_ t e, le, at)

  Walks-le : (pos stop : ℕ) (out : List ℕ) → Walks bytes max_blocksize pos stop out → pos ≤ stop
  Walks-le pos _ _ here = omega arith
  Walks-le pos stop out (block {rest} data_ r found decoded more whole) =
      let (fits, next, magic) = cursor_some bytes pos 48 block_magic found in
      let (t, e, le, at) =
        block_at (pos + 48) (from_bit_offset bytes (pos + 48)) [] data_ r fits
          (from_bit_offset-Represents bytes (pos + 48) bytes_ok fits) decoded in
      omega (arith, le, Walks-le (position r) stop rest more)
  Walks-le pos stop out (stream next found after forward more) =
      omega (arith, forward, Walks-le next stop out more)

  -- The loop at the end of a walk, with enough fuel left.
  abbrev pub Arrives : ℕ → ℕ → List ℕ → Result (List ℕ) → Type 0
  Arrives end_bit stop output result =
      (fuel : ℕ) × (r : BitReader) × Represents bytes r stop
      × (8 * length bytes - stop < fuel)
      × (result ≡ segment_loop fuel bytes end_bit max_blocksize (block_cap max_blocksize) output r)

  pub segment_loop-Walks :
      (fuel end_bit pos stop : ℕ) (output out : List ℕ) (r : BitReader)
      → Walks bytes max_blocksize pos stop out
      → Represents bytes r pos
      → 8 * length bytes - pos < fuel
      → stop ≤ end_bit
      → Arrives end_bit stop
          (output ++ out)
          (segment_loop fuel bytes end_bit max_blocksize (block_cap max_blocksize) output r)
  segment_loop-Walks fuel end_bit pos _ output _ r here rep enough le =
      (fuel, r, rep, enough, rw (output_nil output) refl)
  segment_loop-Walks zero end_bit pos stop output out r walk rep enough le = absurd (omega arith)
  segment_loop-Walks (suc fuel) end_bit pos stop output out r
        (block {rest} data_ r' found decoded more whole) rep enough le =
      let cap : ℕ = block_cap max_blocksize in
      let at_pos : position r ≡ pos = position-Represents bytes r pos rep in
      let (fits, next, magic) = cursor_some bytes pos 48 block_magic found in
      let (s, read, at) = read_u64-Reads bytes r pos 48 rep (omega arith) (omega arith) in
      let behind : Represents bytes s (pos + 48) = rw next at at in
      let read' : read_u64 48 r ≡ (some block_magic, s) = rw found at read in
      let (t, e, forward, there) = block_at (pos + 48) s output data_ r' fits behind decoded in
      let later : position r' ≤ stop = Walks-le (position r') stop rest more in
      let inside : (ltb (length bytes * 8) (position r + 48) || leb end_bit (position r)) ≡ false =
        or_false (length bytes * 8) (position r + 48) end_bit (position r) (omega arith)
          (omega arith) in
      let (fuel', r'', rep', enough', same) =
        segment_loop-Walks fuel end_bit (position r') stop (output ++ data_) rest t more there
          (omega arith) le in
      let joined : (output ++ data_) ++ rest ≡ output ++ out =
        append_assoc output data_ rest ∙ ap (λ u. output ++ u) (sym whole) in
      (
        fuel',
        r'',
        rep',
        enough',
        loop_block fuel bytes end_bit max_blocksize cap output r s inside (output ++ data_) t read'
              e
            ∙ same
            ∙ ap (λ u. segment_loop fuel' bytes end_bit max_blocksize cap u r'') joined,
      )
  segment_loop-Walks (suc fuel) end_bit pos stop output out r
        (stream after found next_ok forward more) rep enough le =
      let cap : ℕ = block_cap max_blocksize in
      let at_pos : position r ≡ pos = position-Represents bytes r pos rep in
      let (fits, next, magic) = cursor_some bytes pos 48 final_magic found in
      let (s, read, at) = read_u64-Reads bytes r pos 48 rep (omega arith) (omega arith) in
      let behind : Represents bytes s (pos + 48) = rw next at at in
      let read' : read_u64 48 r ≡ (some final_magic, s) = rw found at read in
      let (t, e, there) =
        stands (next_stream s) after
          (rw next_ok at (next_stream-StandsAt bytes s (pos + 48) behind)) in
      let later : after ≤ stop = Walks-le after stop out more in
      let inside : (ltb (length bytes * 8) (position r + 48) || leb end_bit (position r)) ≡ false =
        or_false (length bytes * 8) (position r + 48) end_bit (position r) (omega arith)
          (omega arith) in
      let (fuel', r'', rep', enough', same) =
        segment_loop-Walks fuel end_bit after stop output out t more there (omega arith) le in
      (
        fuel',
        r'',
        rep',
        enough',
        loop_stream fuel bytes end_bit max_blocksize cap output r s inside t read' e ∙ same,
      )
    where
      stands :
          (o : Option BitReader) (p : ℕ)
          → StandsAt bytes o (some p)
          → (t : BitReader) × (o ≡ some t) × Represents bytes t p
      stands none p h = absurd h
      stands (some t) p h = (t, refl, h)
