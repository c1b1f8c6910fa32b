-- ===== src/Block/Runs/Overrun.antt =====
-- src/block.rs: `rle2_decode_alloc` writes behind the capacity of its output.
use lbzip2_rs.Prelude.{
  ℕ, suc, ◌+◌, ◌/◌, ◌^◌, ◌≤◌, ◌<◌, ◌≡◌, ◌≢◌, refl, ap, ◌∙◌, inl, inr, arith, ◌&&◌, Bool-cases, List,
  [], ◌∷◌, ◌++◌, length, get_elem?-eq-get_or, ok, panic, ltb, ◌==◌,
}
use lbzip2_rs.Block.Runs.{
  RunState, AllocState, start, write_byte, reserve, push_byte, rle2_loop, rle2_decode_alloc,
}
use lbzip2_rs.Block.Runs.Written.{write_byte-length}
use lbzip2_rs.Block.Runs.RoundTrip.{
  encode, encode_run, encode_from, encode_from_more, encode_from_new, push_all, push_all-append,
  push_all-encode, IsReady, run-RunDone, Chain,
}

push_byte_fits :
    (s : AllocState) (b : ℕ)
    → length (write_byte s.run b).output ≤ s.capacity
    → push_byte s b ≡ ok (record s { run = write_byte s.run b })
unfolding push_byte reserve
push_byte_fits s b room = ground (arith, write_byte-length s.run b)

push_byte_over :
    (s : AllocState) (b : ℕ)
    → s.run.byte_repeats ≢ 3
    → s.capacity ≤ length s.run.output
    → push_byte s b ≡ panic
unfolding push_byte
push_byte_over s b single full = ground arith

push_all-length : (bs : List ℕ) (s : RunState) → length s.output ≤ length (push_all s bs).output
unfolding push_all
push_all-length [] s = omega arith
push_all-length (b ∷ bs) s =
    omega (arith, write_byte-length s b, push_all-length bs (write_byte s b))

-- Bytes that fit are written, and the capacity stays.
loop_fits :
    (bs rest tt_ : List ℕ) (t_pos : ℕ) (s : AllocState)
    → Chain tt_ t_pos (bs ++ rest)
    → length (push_all s.run bs).output ≤ s.capacity
    → (at : ℕ) × Chain tt_ at rest
      × (rle2_loop (length (bs ++ rest)) tt_ t_pos s
          ≡ rle2_loop (length rest) tt_ at (record s { run = push_all s.run bs }))
unfolding rle2_loop push_all
loop_fits [] rest tt_ t_pos s c room = (t_pos, c, refl)
loop_fits (b ∷ bs) rest tt_ t_pos s (entry, here, low, inside_, c) room =
    let s' : AllocState = record s { run = write_byte s.run b } in
    let (at, later, runs) = loop_fits bs rest tt_ (entry / 2 ^ 8) s' c room in
    let fits : push_byte s b ≡ ok s' =
      push_byte_fits s b (omega (arith, push_all-length bs (write_byte s.run b))) in
    (at, later, rw (here, get_elem?-eq-get_or tt_ (entry / 2 ^ 8) 0 inside_, low, fits) runs)

-- No byte behind a run encoding is a count.
encode_from_open :
    (xs : List ℕ) (n b : ℕ) (s : RunState)
    → 0 < n
    → n ≤ 259
    → IsReady s b
    → (push_all s (encode_from b n xs)).byte_repeats ≢ 3
unfolding encode_from
encode_from_open [] n b s pos le r =
    let run = run-RunDone n s b pos r in
    let other : suc b ≢ b = λ e. omega arith in (run.ready (suc b) (inl other)).0
encode_from_open (x ∷ xs) n b s pos le r = elim (Bool-cases (x == b && ltb n 259)) [
  | inl more ↦
      let same : x ≡ b = ground arith in
      rw (encode_from_more x b n xs more)
        (encode_from_open xs (n + 1) b s (omega arith) (ground arith) r)
  | inr new ↦
      let run = run-RunDone n s b pos r in
      let t : RunState = push_all s (encode_run b n) in
      rw (encode_from_new x b n xs new, push_all-append s (encode_run b n) (encode_from x 1 xs))
        (encode_from_open xs 1 x t (omega arith) (omega arith) (run.ready x (ground arith)))
]

encode_open : (text : List ℕ) → (push_all start (encode text)).byte_repeats ≢ 3
unfolding encode push_all
encode_open [] = ground arith
encode_open (x ∷ xs) =
    encode_from_open xs 1 x start (omega arith) (omega arith) (ground arith, inl refl)

-- If the chain of indices spells the run encoding of a text that is as long as the capacity, and
-- then one byte or more, then `rle2_decode_alloc` writes behind the capacity.
pub rle2_decode_alloc_overrun :
    (text tt_ : List ℕ) (t_pos next : ℕ) (more : List ℕ)
    → Chain tt_ t_pos (encode text ++ (next ∷ more))
    → length tt_ ≡ length (encode text ++ (next ∷ more))
    → length text ≡ length tt_ + length tt_ / 4
    → rle2_decode_alloc tt_ t_pos ≡ panic
unfolding rle2_decode_alloc rle2_loop
rle2_decode_alloc_overrun text tt_ t_pos next more c size full =
    let coded : List ℕ = encode text ++ (next ∷ more) in
    let room : ℕ = length tt_ + length tt_ / 4 in
    let s : AllocState = record { run = start; capacity = room } in
    let all : length (push_all start (encode text)).output ≡ length text =
      ap length (push_all-encode text) in
    let (at, (entry, here, low, inside_, later), runs) =
      loop_fits (encode text) (next ∷ more) tt_ t_pos s c (omega arith) in
    let s' : AllocState = record s { run = push_all start (encode text) } in
    let over : push_byte s' next ≡ panic =
      push_byte_over s' next (encode_open text) (omega arith) in
    ap (λ n. rle2_loop n tt_ t_pos s) size
    ∙ runs
    ∙ rw (here, get_elem?-eq-get_or tt_ (entry / 2 ^ 8) 0 inside_, low, over) refl
