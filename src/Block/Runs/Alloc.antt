-- ===== src/Block/Runs/Alloc.antt =====
-- src/block.rs: `rle2_decode_alloc` against what is to be written, and the capacity of its output.
use lbzip2_rs.Prelude.{
  ℕ, zero, suc, ◌+◌, ◌/◌, ◌%◌, ◌^◌, ◌≤◌, ◌≡◌, arith, List, length, get_elem?, ok, ◌==◌,
  if◌then◌else◌, index, >>=-eq-ok,
}
use lbzip2_rs.Block.Runs.{
  AllocState, start, write_byte, reserve, push_byte, rle2_loop, rle2_decode_alloc,
}
use lbzip2_rs.Block.Runs.Written.{written_loop, written, write_byte-length, loop-length}

reserve_grows : (capacity len additional : ℕ) → capacity ≤ reserve capacity len additional
unfolding reserve
reserve_grows capacity len additional = ground arith

-- The state behind a byte, where there is room for it.
pushed : AllocState → ℕ → AllocState
pushed s b =
    if s.run.byte_repeats == 3
    then record { run = write_byte s.run b; capacity = reserve s.capacity (length s.run.output) b }
    else record s { run = write_byte s.run b }

pushed-run : (s : AllocState) (b : ℕ) → (pushed s b).run ≡ write_byte s.run b
unfolding pushed
pushed-run s b = ground arith

pushed-capacity : (s : AllocState) (b : ℕ) → s.capacity ≤ (pushed s b).capacity
unfolding pushed
pushed-capacity s b = ground (arith, reserve_grows s.capacity (length s.run.output) b)

-- A byte is pushed, or there is no room for it.
push_byte-eq-ok : (s t : AllocState) (b : ℕ) → push_byte s b ≡ ok t → t.run ≡ write_byte s.run b
unfolding push_byte
push_byte-eq-ok s t b h = ground arith

push_byte_room :
    (s : AllocState) (b : ℕ)
    → length (write_byte s.run b).output ≤ s.capacity
    → push_byte s b ≡ ok (pushed s b)
unfolding push_byte pushed
push_byte_room s b room = ground (arith, write_byte-length s.run b)

loop-written :
    (left : ℕ) (tt_ : List ℕ) (t_pos : ℕ) (s : AllocState) (out : List ℕ)
    → rle2_loop left tt_ t_pos s ≡ ok out
    → written_loop left tt_ t_pos s.run ≡ ok out
unfolding rle2_loop written_loop
loop-written zero tt_ t_pos s out h = h
loop-written (suc left) tt_ t_pos s out h =
    let (entry, good, h1) = >>=-eq-ok (index (get_elem? tt_ t_pos)) _ h in
    let (next_entry, good', h2) = >>=-eq-ok (index (get_elem? tt_ (entry / 2 ^ 8))) _ h1 in
    let (t, pushes, h3) = >>=-eq-ok (push_byte s (entry % 2 ^ 8)) _ h2 in
    rw (good, good', ← push_byte-eq-ok s t (entry % 2 ^ 8) pushes)
      (loop-written left tt_ (entry / 2 ^ 8) t out h3)

written-loop :
    (left : ℕ) (tt_ : List ℕ) (t_pos : ℕ) (s : AllocState) (out : List ℕ)
    → written_loop left tt_ t_pos s.run ≡ ok out
    → length out ≤ s.capacity
    → rle2_loop left tt_ t_pos s ≡ ok out
unfolding rle2_loop written_loop
written-loop zero tt_ t_pos s out h room = h
written-loop (suc left) tt_ t_pos s out h room =
    let (entry, good, h1) = >>=-eq-ok (index (get_elem? tt_ t_pos)) _ h in
    let (next_entry, good', h2) = >>=-eq-ok (index (get_elem? tt_ (entry / 2 ^ 8))) _ h1 in
    let b : ℕ = entry % 2 ^ 8 in
    let grows : length (write_byte s.run b).output ≤ length out =
      loop-length left tt_ (entry / 2 ^ 8) (write_byte s.run b) out h2 in
    let later : written_loop left tt_ (entry / 2 ^ 8) (pushed s b).run ≡ ok out =
      rw (pushed-run s b) h2 in
    rw (good, good', push_byte_room s b (omega arith))
      (written-loop left tt_ (entry / 2 ^ 8) (pushed s b) out later
        (omega (arith, pushed-capacity s b)))

pub rle2_decode_alloc-written :
    (tt_ : List ℕ) (t_pos : ℕ) (out : List ℕ)
    → rle2_decode_alloc tt_ t_pos ≡ ok out
    → written tt_ t_pos ≡ ok out
unfolding rle2_decode_alloc written
rle2_decode_alloc-written tt_ t_pos out h =
    let n : ℕ = length tt_ in
    loop-written n tt_ t_pos (record { run = start; capacity = n + n / 4 }) out h

-- What is to be written is given if it fits the capacity that the output begins with.
pub written-rle2_decode_alloc :
    (tt_ : List ℕ) (t_pos : ℕ) (out : List ℕ)
    → written tt_ t_pos ≡ ok out
    → length out ≤ length tt_ + length tt_ / 4
    → rle2_decode_alloc tt_ t_pos ≡ ok out
unfolding rle2_decode_alloc written
written-rle2_decode_alloc tt_ t_pos out h room =
    let n : ℕ = length tt_ in
    written-loop n tt_ t_pos (record { run = start; capacity = n + n / 4 }) out h room
