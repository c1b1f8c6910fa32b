-- ===== src/Chunk/Segments.antt =====
-- src/chunk.rs, `decode_segment`: segments that lie one behind the other, decoded each by itself.
use lbzip2_rs.Prelude.{
  ℕ, zero, suc, ◌+◌, ◌-◌, ◌*◌, ◌≤◌, ◌<◌, ◌≡◌, refl, sym, ap, ◌∙◌, arith, List, [], ◌++◌, length,
  some, ok,
}
use mathlib.Core.List.{append_assoc}
use lbzip2_rs.BitStream.{IsBytes, cursor_read}
use lbzip2_rs.BitReader.Defs.{BitReader, position, remaining, from_bit_offset}
use lbzip2_rs.BitReader.Refill.{Represents}
use lbzip2_rs.BitReader.Bit.{from_bit_offset-Represents}
use lbzip2_rs.Magic.{block_magic}
use lbzip2_rs.Block.Common.{decode_block_into}
use lbzip2_rs.Block.Steady.{remaining-Represents}
use lbzip2_rs.Stream.Runs.{cursor_some}
use lbzip2_rs.Stream.Decoded.{position-Represents}
use lbzip2_rs.Chunk.Defs.{decode_block_into_vec, segment_loop, decode_segment}
use lbzip2_rs.Chunk.Walks.{
  block_cap, Walks, here, block, stream, loop_past, or_true, block_at, Arrives, segment_loop-Walks,
}

-- From a block on up to a bit, with the output between.
pub record IsSegment (bytes : List ℕ) (max_blocksize start stop : ℕ) (out : List ℕ) : Type 0 where
  pub data_ : List ℕ
  pub r : BitReader
  pub rest : List ℕ
  pub magic : cursor_read bytes start 48 ≡ some block_magic
  pub decoded :
      decode_block_into max_blocksize (block_cap max_blocksize) (from_bit_offset bytes (start + 48))
      ≡ ok (data_, r)
  pub more : Walks bytes max_blocksize (position r) stop rest
  pub whole : out ≡ data_ ++ rest

segment_start :
    (bytes : List ℕ) (start end_bit max_blocksize : ℕ) (output : List ℕ) (r : BitReader)
    → decode_block_into_vec []
        (from_bit_offset bytes (start + 48))
        max_blocksize
        (block_cap max_blocksize)
      ≡ ok (output, r)
    → decode_segment bytes start end_bit max_blocksize
      ≡ segment_loop
          (suc (remaining r))
          bytes
          end_bit
          max_blocksize
          (block_cap max_blocksize)
          output
          r
unfolding decode_segment
segment_start bytes start end_bit max_blocksize output r e = rw (e, decode_segment) refl

Walks-trans :
    {bytes : List ℕ} {max_blocksize : ℕ} (a b c : ℕ) (xs ys : List ℕ)
    → Walks bytes max_blocksize a b xs
    → Walks bytes max_blocksize b c ys
    → Walks bytes max_blocksize a c (xs ++ ys)
Walks-trans a _ c _ ys here second = second
Walks-trans a b c xs ys (block {rest} data_ r found decoded more whole) second =
    block data_ r found decoded (Walks-trans (position r) b c rest ys more second)
      (ap (λ t. t ++ ys) whole ∙ append_assoc data_ rest ys)
Walks-trans a b c xs ys (stream next found after forward more) second =
    stream next found after forward (Walks-trans next b c xs ys more second)

segment-Walks :
    {bytes : List ℕ} {max_blocksize : ℕ} (start stop : ℕ) (out : List ℕ)
    → IsSegment bytes max_blocksize start stop out
    → Walks bytes max_blocksize start stop out
segment-Walks start stop out s = block s.data_ s.r s.magic s.decoded s.more s.whole

append-IsSegment :
    {bytes : List ℕ} {max_blocksize : ℕ} (a b c : ℕ) (xs ys : List ℕ)
    → IsSegment bytes max_blocksize a b xs
    → IsSegment bytes max_blocksize b c ys
    → IsSegment bytes max_blocksize a c (xs ++ ys)
append-IsSegment a b c xs ys s t = record {
  data_ = s.data_;
  r = s.r;
  rest = s.rest ++ ys;
  magic = s.magic;
  decoded = s.decoded;
  more = Walks-trans (position s.r) b c s.rest ys s.more (segment-Walks b c ys t);
  whole = ap (λ t'. t' ++ ys) s.whole ∙ append_assoc s.data_ s.rest ys;
}

module _ (bytes : List ℕ) (max_blocksize : ℕ) (bytes_ok : IsBytes bytes) where
  -- A segment's loop comes to its end, with enough fuel, if the segment may go on so far.
  pub decode_segment-Arrives :
      (start stop end_bit : ℕ) (out : List ℕ)
      → IsSegment bytes max_blocksize start stop out
      → stop ≤ end_bit
      → Arrives bytes max_blocksize bytes_ok end_bit stop out
          (decode_segment bytes start end_bit max_blocksize)
  decode_segment-Arrives start stop end_bit out s le =
      let (fits, next, magic) = cursor_some bytes start 48 block_magic s.magic in
      let (t, e, forward, there) =
        block_at bytes max_blocksize bytes_ok (start + 48) (from_bit_offset bytes (start + 48)) []
          s.data_ s.r fits (from_bit_offset-Represents bytes (start + 48) bytes_ok fits)
          s.decoded in
      let left : remaining t ≡ 8 * length bytes - position s.r =
        remaining-Represents bytes t (position s.r) there in
      let (fuel, r, rep, enough, same) =
        segment_loop-Walks bytes max_blocksize bytes_ok (suc (remaining t)) end_bit (position s.r)
          stop s.data_ s.rest t s.more there (omega arith) le in
      (
        fuel,
        r,
        rep,
        enough,
        segment_start bytes start end_bit max_blocksize s.data_ t e
            ∙ same
            ∙ ap (λ u. segment_loop fuel bytes end_bit max_blocksize (block_cap max_blocksize) u r)
                (sym s.whole),
      )

  -- The loop stops where the next segment starts.
  segment_loop_stop :
      (fuel stop : ℕ) (out : List ℕ) (r : BitReader)
      → Represents bytes r stop
      → 8 * length bytes - stop < fuel
      → segment_loop fuel bytes stop max_blocksize (block_cap max_blocksize) out r ≡ ok out
  segment_loop_stop zero stop out r rep enough = absurd (omega arith)
  segment_loop_stop (suc fuel) stop out r rep enough =
      let at : position r ≡ stop = position-Represents bytes r stop rep in
      loop_past fuel bytes stop max_blocksize (block_cap max_blocksize) out r
        (or_true (length bytes * 8) (position r + 48) stop (position r) (omega (arith, at)))

  decode_segment-IsSegment :
      (start stop : ℕ) (out : List ℕ)
      → IsSegment bytes max_blocksize start stop out
      → decode_segment bytes start stop max_blocksize ≡ ok out
  decode_segment-IsSegment start stop out s =
      let (fuel, r, rep, enough, same) =
        decode_segment-Arrives start stop stop out s (omega arith) in
      same ∙ segment_loop_stop fuel stop out r rep enough

-- In bytes, if a first segment leads from one block to another, and a second from there on to a
-- third bit, each over blocks that fit their room, then `decode_segment` gives the output of each,
-- and, for both as one segment, the one output behind the other.
pub decode_segment-append :
    (bytes : List ℕ) (max_blocksize a b c : ℕ) (xs ys : List ℕ)
    → IsBytes bytes
    → IsSegment bytes max_blocksize a b xs
    → IsSegment bytes max_blocksize b c ys
    → (decode_segment bytes a b max_blocksize ≡ ok xs)
      × (decode_segment bytes b c max_blocksize ≡ ok ys)
      × (decode_segment bytes a c max_blocksize ≡ ok (xs ++ ys))
decode_segment-append bytes max_blocksize a b c xs ys bytes_ok s t = (
  decode_segment-IsSegment bytes max_blocksize bytes_ok a b xs s,
  decode_segment-IsSegment bytes max_blocksize bytes_ok b c ys t,
  decode_segment-IsSegment bytes max_blocksize bytes_ok a c (xs ++ ys)
      (append-IsSegment a b c xs ys s t),
)
