-- ===== src/Block/Runs.antt =====
-- src/block.rs: `rle2_decode_alloc` and `rle2_decode_into`, the final run decoding along the chain
-- of indices in `tt`. A read or a write through a raw pointer that is out of range is a panic here.
pub mod Written
pub mod Alloc
pub mod RoundTrip
pub mod Room
pub mod Expansion
pub mod Overrun
use lbzip2_rs.Prelude.{
  ℕ, zero, suc, ◌+◌, ◌*◌, max, ◌/◌, ◌%◌, ◌^◌, Bool, true, false, ◌&&◌, List, [], ◌∷◌, ◌++◌, length,
  get_elem?, replicate, Result, ok, err, panic, index, ◌>>=◌, ltb, leb, ◌==◌, if◌then◌else◌,
}

-- The variables of both loops but the indices. `output` is what has been written, `out_len` its
-- length.
pub record RunState : Type 0 where
  pub output : List ℕ
  pub last_byte : ℕ
  pub has_last : Bool
  pub byte_repeats : ℕ

abbrev pub start : RunState
start = record { output = []; last_byte = 0; has_last = false; byte_repeats = 0 }

-- What the body of both loops writes for the byte `b`: after four equal bytes it is a count.
unfoldable pub write_byte : RunState → ℕ → RunState
write_byte s b =
    if s.byte_repeats == 3
    then record s {
      output = s.output ++ replicate b s.last_byte;
      byte_repeats = 0;
      has_last = false;
    }
    else record s {
      output = s.output ++ b ∷ [];
      byte_repeats = if s.has_last && s.last_byte == b then s.byte_repeats + 1 else 0;
      last_byte = b;
      has_last = true;
    }

-- `rle2_decode_alloc` writes to a `Vec` of a capacity.
pub record AllocState : Type 0 where
  pub run : RunState
  pub capacity : ℕ

-- `Vec::reserve` on bytes: where the room is too small, the capacity is doubled, or becomes what is
-- needed if that is more, and is at least 8.
unfoldable pub reserve : ℕ → ℕ → ℕ → ℕ
reserve capacity len additional =
    if ltb capacity (len + additional)
    then max (max (2 * capacity) (len + additional)) 8
    else capacity

-- The body of the loop of `rle2_decode_alloc`. Room is made for the bytes of a count; a single byte
-- is written whether there is room or not, and behind the capacity that is a panic here.
unfoldable pub push_byte : AllocState → ℕ → Result AllocState
unfolding write_byte reserve
push_byte s b =
    let len = length s.run.output in
    if s.run.byte_repeats == 3
    then ok (record { run = write_byte s.run b; capacity = reserve s.capacity len b })
    else if ltb len s.capacity
    then ok (record s { run = write_byte s.run b })
    else panic

-- The chain: one entry for each round, and a look at the next, which is only prefetched.
unfoldable pub rle2_loop : ℕ → List ℕ → ℕ → AllocState → Result (List ℕ)
unfolding push_byte
rle2_loop zero tt_ t_pos s = ok s.run.output
rle2_loop (suc left) tt_ t_pos s = do
  entry ← index (get_elem? tt_ t_pos)
  next_entry ← index (get_elem? tt_ (entry / 2 ^ 8))
  s' ← push_byte s (entry % 2 ^ 8)
  rle2_loop left tt_ (entry / 2 ^ 8) s'

unfoldable pub rle2_decode_alloc : List ℕ → ℕ → Result (List ℕ)
unfolding rle2_loop
rle2_decode_alloc tt_ t_pos =
    let n = length tt_ in rle2_loop n tt_ t_pos (record { run = start; capacity = n + n / 4 })

-- The same body with the `assert!`s on the room in the caller's buffer.
unfoldable pub push_byte_into : ℕ → RunState → ℕ → Result RunState
unfolding write_byte
push_byte_into out_cap s b =
    let room =
      if s.byte_repeats == 3
      then leb (length s.output + b) out_cap
      else ltb (length s.output) out_cap in
    if room then ok (write_byte s b) else panic

unfoldable pub rle2_loop_into : ℕ → List ℕ → ℕ → ℕ → RunState → Result (List ℕ)
unfolding push_byte_into
rle2_loop_into zero tt_ t_pos out_cap s = ok s.output
rle2_loop_into (suc left) tt_ t_pos out_cap s = do
  entry ← index (get_elem? tt_ t_pos)
  next_entry ← index (get_elem? tt_ (entry / 2 ^ 8))
  s' ← push_byte_into out_cap s (entry % 2 ^ 8)
  rle2_loop_into left tt_ (entry / 2 ^ 8) out_cap s'

unfoldable pub rle2_decode_into : List ℕ → ℕ → ℕ → Result (List ℕ)
unfolding rle2_loop_into
rle2_decode_into tt_ t_pos out_cap = rle2_loop_into (length tt_) tt_ t_pos out_cap start
