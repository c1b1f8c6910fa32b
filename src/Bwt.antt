-- ===== src/Bwt.antt =====
-- src/bwt.rs: the inverse Burrows-Wheeler transform. `tt` is the vector of u32 entries: a byte in
-- the low 8 bits, and after `inverse_bwt` the next index in the upper 24.
pub mod Buckets
pub mod Links
use lbzip2_rs.Prelude.{
  ℕ, zero, suc, ◌+◌, ◌*◌, ◌/◌, ◌%◌, ◌^◌, bit_and, bit_or, List, [], ◌∷◌, length, get_elem?, set,
  Result, ok, index, ◌>>=◌,
}

-- `c[b]` becomes the number of bytes below `b`.
unfoldable pub cumulate : ℕ → List ℕ → List ℕ
cumulate sum [] = []
cumulate sum (count ∷ c) = sum ∷ cumulate ((sum + count) % 2 ^ 32) c

-- The loop that writes the next indices, at index `i` with `left` rounds to go.
unfoldable pub link : ℕ → ℕ → List ℕ → List ℕ → Result (List ℕ)
link zero i tt c = ok tt
link (suc left) i tt c = do
  entry ← index (get_elem? tt i)
  let b = bit_and entry 0xFF
  at ← index (get_elem? c b)
  target ← index (get_elem? tt at)
  link left (i + 1) (set tt at (bit_or target (i * 2 ^ 8 % 2 ^ 32))) (set c b ((at + 1) % 2 ^ 32))

unfoldable pub inverse_bwt : List ℕ → ℕ → List ℕ → Result (List ℕ × ℕ)
unfolding cumulate link
inverse_bwt tt orig_ptr c = do
  tt' ← link (length tt) 0 tt (cumulate 0 c)
  entry ← index (get_elem? tt' orig_ptr)
  ok (tt', entry / 2 ^ 8)

-- The byte at `t_pos`, and the next `t_pos`.
unfoldable pub next_byte : List ℕ → ℕ → Result (ℕ × ℕ)
next_byte tt t_pos = do entry ← index (get_elem? tt t_pos); ok (entry % 2 ^ 8, entry / 2 ^ 8)
