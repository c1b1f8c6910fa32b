-- ===== src/Block/Runs/Written.antt =====
-- src/block.rs: what the final run decoding writes where there is room for all of it, as the
-- specification of both of its forms.
use lbzip2_rs.Prelude.{
  ℕ, zero, suc, ◌+◌, ◌/◌, ◌%◌, ◌^◌, ◌≤◌, ◌≡◌, ap, ◌∙◌, inl, inr, arith, Bool-cases, List, [], ◌∷◌,
  length, length-append, length-replicate, get_elem?, replicate, Result, ok, ◌>>=◌, ◌==◌,
  if◌then◌else◌, index, >>=-eq-ok,
}
use lbzip2_rs.Block.Runs.{RunState, start, write_byte}

unfoldable pub written_loop : ℕ → List ℕ → ℕ → RunState → Result (List ℕ)
unfolding write_byte
written_loop zero tt_ t_pos s = ok s.output
written_loop (suc left) tt_ t_pos s = do
  entry ← index (get_elem? tt_ t_pos)
  next_entry ← index (get_elem? tt_ (entry / 2 ^ 8))
  written_loop left tt_ (entry / 2 ^ 8) (write_byte s (entry % 2 ^ 8))

unfoldable pub written : List ℕ → ℕ → Result (List ℕ)
unfolding written_loop
written tt_ t_pos = written_loop (length tt_) tt_ t_pos start

pub write_byte-length :
    (s : RunState) (b : ℕ)
    → length (write_byte s b).output ≡ length s.output + (if s.byte_repeats == 3 then b else 1)
unfolding write_byte
write_byte-length s b = elim (Bool-cases (s.byte_repeats == 3)) [
  | inl count ↦ rw count (
      length-append s.output (replicate b s.last_byte)
      ∙ ap (λ (t : ℕ). length s.output + t) (length-replicate b s.last_byte))
  | inr plain ↦ rw plain (length-append s.output (b ∷ []))
]

-- The output only grows.
pub loop-length :
    (left : ℕ) (tt_ : List ℕ) (t_pos : ℕ) (s : RunState) (out : List ℕ)
    → written_loop left tt_ t_pos s ≡ ok out
    → length s.output ≤ length out
unfolding written_loop
loop-length zero tt_ t_pos s out h = let e : s.output ≡ out = cc in rw e (omega arith)
loop-length (suc left) tt_ t_pos s out h =
    let (entry, good, h1) = >>=-eq-ok (index (get_elem? tt_ t_pos)) _ h in
    let (next_entry, good', h2) = >>=-eq-ok (index (get_elem? tt_ (entry / 2 ^ 8))) _ h1 in
    omega (
      arith,
      write_byte-length s (entry % 2 ^ 8),
      loop-length left tt_ (entry / 2 ^ 8) (write_byte s (entry % 2 ^ 8)) out h2,
    )
