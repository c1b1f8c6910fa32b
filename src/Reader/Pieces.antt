-- ===== src/Reader/Pieces.antt =====
-- src/reader.rs, `ParallelBz2Read`: the pieces that the reads give are the output, in order.
use lbzip2_rs.Prelude.{
  ◌<◌, ◌⊎◌, leb→lt, length-take, drop-drop, drop-all, take-append-drop, ℕ, ◌+◌, ◌-◌, ◌≤◌, min, ◌≡◌,
  refl, sym, ap, ◌∙◌, arith, true, false, Bool-cases, inl, inr, List, [], ◌++◌, length, length-drop,
  take, drop, ok, leb, leb→le, ◌==◌,
}
use mathlib.Core.List.{append_assoc}
use lbzip2_rs.Parallel.Outputs.{Decodes-split, Decodes-positive, Decodes-nothing}
use lbzip2_rs.Scan.Defs.{find_all_blocks}
use lbzip2_rs.Stream.{parse_header}
use lbzip2_rs.Parallel.Join.{Decodes, assemble-Decodes}
use lbzip2_rs.Reader.Batches.{ParallelBz2Read, batch_size, new, batch_of, fill_batch, serve, read}

-- What the reader has still to give: the rest of its buffer, and the blocks that are left.
pub record IsPending (s : ParallelBz2Read) (out : List ℕ) : Type 0 where
  pub later : List ℕ
  pub within : s.buf_pos ≤ length s.buf
  pub left : Decodes s.bytes s.max_blocksize (drop s.next_block s.boundaries) later
  pub all : out ≡ drop s.buf_pos s.buf ++ later

serve-IsPending :
    (room : ℕ) (s : ParallelBz2Read) (out : List ℕ)
    → IsPending s out
    → (rest : List ℕ) × IsPending (serve room s).1 rest × (out ≡ (serve room s).0 ++ rest)
serve-IsPending room s out h =
    let available : List ℕ = drop s.buf_pos s.buf in
    let n : ℕ = min room (length available) in
    (
      drop n available ++ h.later,
      record {
        later = h.later;
        within = omega (arith, h.within, length-drop s.buf_pos s.buf);
        left = h.left;
        all = rw (drop-drop n s.buf_pos s.buf) refl;
      },
      h.all
          ∙ ap (λ t. t ++ h.later) (sym (take-append-drop n available))
          ∙ append_assoc (take n available) (drop n available) h.later,
    )

-- A buffer of at least one byte gets at least one, if there is one to serve.
serve-positive :
    (room : ℕ) (s : ParallelBz2Read)
    → s.buf_pos < length s.buf
    → min 1 room ≤ length (serve room s).0
serve-positive room s more =
    let available : List ℕ = drop s.buf_pos s.buf in
    omega (arith, length-take (min room (length available)) available, length-drop s.buf_pos s.buf)

fill_batch_done :
    (s : ParallelBz2Read)
    → (length s.boundaries - s.next_block == 0) ≡ true
    → fill_batch s ≡ ok (record s { buf = []; buf_pos = 0 })
unfolding fill_batch
fill_batch_done s e = rw (e, fill_batch) refl

fill_batch_more :
    (s : ParallelBz2Read) (front : List ℕ)
    → (length s.boundaries - s.next_block == 0) ≡ false
    → Decodes s.bytes s.max_blocksize (batch_of s) front
    → fill_batch s
      ≡ ok (record s {
        buf = front;
        buf_pos = 0;
        next_block = s.next_block + min (length s.boundaries - s.next_block) batch_size;
      })
unfolding fill_batch
fill_batch_more s front e h =
    rw (e, assemble-Decodes s.bytes s.max_blocksize (batch_of s) front h, fill_batch) refl

fill_batch-IsPending :
    (s : ParallelBz2Read) (out : List ℕ)
    → IsPending s out
    → length s.buf ≤ s.buf_pos
    → (s' : ParallelBz2Read) × (fill_batch s ≡ ok s')
      × IsPending s' out
      × ((length out ≡ 0) ⊎ (s'.buf_pos < length s'.buf))
fill_batch-IsPending s out h spent =
    let later_only : out ≡ h.later =
      h.all ∙ ap (λ t. t ++ h.later) (drop-all s.buf_pos s.buf spent) in
    elim (Bool-cases (length s.boundaries - s.next_block == 0)) [
      | inl done ↦ (
        _,
        fill_batch_done s done,
        record { later = h.later; within = omega arith; left = h.left; all = later_only },
        (let none_left : length (drop s.next_block s.boundaries) ≡ 0 =
              ground (arith, length-drop s.next_block s.boundaries) in
            let nothing : length h.later ≡ 0 =
              Decodes-nothing (drop s.next_block s.boundaries) h.later h.left none_left in
            inl (ap length later_only ∙ nothing)),
      )
      | inr more ↦
          let k : ℕ = min (length s.boundaries - s.next_block) batch_size in
          let (front, rest, first, second, e) =
            Decodes-split k (drop s.next_block s.boundaries) h.later h.left in
          (
            _,
            fill_batch_more s front more first,
            record {
              later = rest;
              within = omega arith;
              left = rw (← drop-drop k s.next_block s.boundaries) second;
              all = later_only ∙ e;
            },
            (let batch : 0 < length (take k (drop s.next_block s.boundaries)) = ground (
              arith,
              length-take k (drop s.next_block s.boundaries),
              length-drop s.next_block s.boundaries,
            ) in
                inr (Decodes-positive (take k (drop s.next_block s.boundaries)) front first batch)),
          )
    ]

-- A new reader has the outputs of all blocks to give.
pub new-IsPending :
    (bytes : List ℕ) (max_blocksize : ℕ) (out : List ℕ)
    → parse_header bytes ≡ ok max_blocksize
    → Decodes bytes max_blocksize (find_all_blocks bytes) out
    → (s : ParallelBz2Read) × (new bytes ≡ ok s) × IsPending s out
unfolding new
new-IsPending bytes max_blocksize out header h = (
  record {
    bytes = bytes;
    max_blocksize = max_blocksize;
    boundaries = find_all_blocks bytes;
    next_block = 0;
    buf = [];
    buf_pos = 0;
  },
  rw header refl,
  record { later = out; within = omega arith; left = h; all = refl },
)

read_spent :
    (room : ℕ) (s s' : ParallelBz2Read)
    → leb (length s.buf) s.buf_pos ≡ true
    → fill_batch s ≡ ok s'
    → read room s ≡ elim (length s'.buf == 0) [ true ↦ ok ([], s') | false ↦ ok (serve room s') ]
unfolding read
read_spent room s s' e f = rw (e, f, read) refl

read_buffered :
    (room : ℕ) (s : ParallelBz2Read)
    → leb (length s.buf) s.buf_pos ≡ false
    → read room s ≡ ok (serve room s)
unfolding read
read_buffered room s e = rw (e, read) refl

-- A reader that has `out` to give, read into a buffer of any size, gives a piece that `out` begins
-- with, without an error, and the reader after it has the rest of `out` to give. The piece has at
-- least one byte, if the buffer has room for one and there is one to give.
pub read-IsPending :
    (room : ℕ) (s : ParallelBz2Read) (out : List ℕ)
    → IsPending s out
    → (piece : List ℕ) × (s' : ParallelBz2Read) × (rest : List ℕ) × (read room s ≡ ok (piece, s'))
      × IsPending s' rest
      × (out ≡ piece ++ rest)
      × (min 1 (min room (length out)) ≤ length piece)
read-IsPending room s out h = elim (Bool-cases (leb (length s.buf) s.buf_pos)) [
  | inr buffered ↦
      let (rest, pending, e) = serve-IsPending room s out h in
      let more : s.buf_pos < length s.buf = leb→lt (length s.buf) s.buf_pos buffered in
      (
        (serve room s).0,
        (serve room s).1,
        rest,
        read_buffered room s buffered,
        pending,
        e,
        omega (arith, serve-positive room s more),
      )
  | inl spent ↦
      let (s', filled, h', ready) =
        fill_batch-IsPending s out h (leb→le (length s.buf) s.buf_pos spent) in
      elim (Bool-cases (length s'.buf == 0)) [
        | inl end ↦
            let none_left : length out ≡ 0 = elim ready [
              | inl nothing ↦ nothing
              | inr more ↦ absurd (ground arith)
            ] in
            ([], s', out, read_spent room s s' spent filled ∙ rw end refl, h', refl, omega arith)
        | inr more ↦
            let (rest, pending, e) = serve-IsPending room s' out h' in
            (
              (serve room s').0,
              (serve room s').1,
              rest,
              read_spent room s s' spent filled ∙ rw more refl,
              pending,
              e,
              elim ready [
                | inl nothing ↦ omega arith
                | inr some_ ↦ omega (arith, serve-positive room s' some_)
              ],
            )
      ]
]
