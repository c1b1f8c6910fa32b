-- ===== src/Block/Buffers.antt =====
-- src/block.rs, `take_tt_buffer` and `return_tt_buffer`: the thread-local slot with a vector to use
-- again. `decode_block` takes its `tt` from here, and always gets an empty one.
use lbzip2_rs.Prelude.{ℕ, ◌≤◌, max, ◌≡◌, refl, arith, List, []}

pub record TtBuf : Type 0 where
  pub items : List ℕ
  pub capacity : ℕ

-- What `std::mem::take` leaves.
abbrev pub taken : TtBuf
taken = record { items = []; capacity = 0 }

-- The buffer and the slot. `reserve` grows the capacity to at least what is asked for.
unfoldable pub take_tt_buffer : ℕ → TtBuf → TtBuf × TtBuf
take_tt_buffer capacity slot = (record { items = []; capacity = max slot.capacity capacity }, taken)

unfoldable pub return_tt_buffer : TtBuf → TtBuf → TtBuf
return_tt_buffer buf slot = buf

-- Whatever was returned before, the next buffer is empty and has the room.
pub take-return_tt_buffer :
    (capacity : ℕ) (buf slot : TtBuf)
    → ((take_tt_buffer capacity (return_tt_buffer buf slot)).0.items ≡ [])
      × (capacity ≤ (take_tt_buffer capacity (return_tt_buffer buf slot)).0.capacity)
unfolding take_tt_buffer return_tt_buffer
take-return_tt_buffer capacity buf slot = (refl, omega arith)
