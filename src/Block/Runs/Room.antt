-- ===== src/Block/Runs/Room.antt =====
-- src/block.rs: `rle2_decode_into` writes what `rle2_decode_alloc` gives, if it fits the caller's
-- buffer, and panics if not.
use lbzip2_rs.Prelude.{
  ℕ, zero, suc, ◌/◌, ◌%◌, ◌^◌, ◌≤◌, ◌<◌, ◌≡◌, inl, inr, arith, Bool-cases, List, length, get_elem?,
  ok, panic, leb, leb→le, leb→lt, lt→leb, le→leb, if◌then◌else◌, index, >>=-eq-ok,
}
use lbzip2_rs.Block.Runs.Written.{written_loop, written, write_byte-length, loop-length}
use lbzip2_rs.Block.Runs.Alloc.{rle2_decode_alloc-written}
use lbzip2_rs.Block.Runs.{
  RunState, start, write_byte, push_byte_into, rle2_loop_into, rle2_decode_alloc, rle2_decode_into,
}

-- The assertion holds exactly when the byte's output fits.
push_byte_into_lem :
    (cap : ℕ) (s : RunState) (b : ℕ)
    → push_byte_into cap s b
      ≡ (if leb (length (write_byte s b).output) cap then ok (write_byte s b) else panic)
unfolding push_byte_into
push_byte_into_lem cap s b = ground (arith, write_byte-length s b)

loop_into_lem :
    (left : ℕ) (tt_ : List ℕ) (t_pos cap : ℕ) (s : RunState) (out : List ℕ)
    → length s.output ≤ cap
    → written_loop left tt_ t_pos s ≡ ok out
    → rle2_loop_into left tt_ t_pos cap s ≡ (if leb (length out) cap then ok out else panic)
unfolding written_loop rle2_loop_into
loop_into_lem zero tt_ t_pos cap s out room h =
    let e : s.output ≡ out = cc in rw (← e, le→leb (length s.output) cap room)
loop_into_lem (suc left) tt_ t_pos cap s out room h =
    let (entry, good, h1) = >>=-eq-ok (index (get_elem? tt_ t_pos)) _ h in
    let (next_entry, good', h2) = >>=-eq-ok (index (get_elem? tt_ (entry / 2 ^ 8))) _ h1 in
    let s' : RunState = write_byte s (entry % 2 ^ 8) in
    rw (good, good', push_byte_into_lem cap s (entry % 2 ^ 8))
      (elim (Bool-cases (leb (length s'.output) cap)) [
        | inl fits ↦ rw fits (
            loop_into_lem left tt_ (entry / 2 ^ 8) cap s' out (leb→le (length s'.output) cap fits)
              h2)
        | inr over ↦
            let long : cap < length out = omega (
              arith,
              leb→lt (length s'.output) cap over,
              loop-length left tt_ (entry / 2 ^ 8) s' out h2,
            ) in
            rw (over, lt→leb (length out) cap long)
      ])

pub rle2_decode_into-written :
    (tt_ : List ℕ) (t_pos cap : ℕ) (out : List ℕ)
    → written tt_ t_pos ≡ ok out
    → rle2_decode_into tt_ t_pos cap ≡ (if leb (length out) cap then ok out else panic)
unfolding written rle2_decode_into
rle2_decode_into-written tt_ t_pos cap out h =
    loop_into_lem (length tt_) tt_ t_pos cap start out (omega arith) h

-- If `rle2_decode_alloc` gives `out`, then `rle2_decode_into` with room for `cap` bytes gives `out`
-- too if it is at most `cap` bytes long, and panics if it is longer.
pub rle2_decode_into-rle2_decode_alloc :
    (tt_ : List ℕ) (t_pos cap : ℕ) (out : List ℕ)
    → rle2_decode_alloc tt_ t_pos ≡ ok out
    → rle2_decode_into tt_ t_pos cap ≡ (if leb (length out) cap then ok out else panic)
rle2_decode_into-rle2_decode_alloc tt_ t_pos cap out h =
    rle2_decode_into-written tt_ t_pos cap out (rle2_decode_alloc-written tt_ t_pos out h)
