-- ===== src/ParMap/Schedule.antt =====
-- src/par.rs: whatever the schedule of the threads, `par_map` gives the results in index order.
use lbzip2_rs.Prelude.{
  none, ℕ, zero, suc, ◌+◌, ◌≤◌, ◌<◌, ◌≡◌, refl, arith, inl, inr, map, count_up, Option, some, ok,
}
use lbzip2_rs.ParMap.{par_map}
use lbzip2_rs.ParMap.Threads.{running, Pool, Reach, IsFinished, collect}
use lbzip2_rs.ParMap.Invariant.{Inv, Reach-Inv}

collect_filled :
    {T : Type 0} (f : ℕ → T) (slots : ℕ → Option T) (left i : ℕ)
    → ((j : ℕ) → i ≤ j → j < i + left → slots j ≡ some (f j))
    → collect i left slots ≡ ok (map f (count_up i left))
unfolding collect
collect_filled f slots zero i h = refl
collect_filled f slots (suc left) i h = rw (
  h i (omega arith) (omega arith),
  collect_filled f slots left (suc i) (λ j l u. h j (omega arith) (omega arith)),
)

-- Once all threads, of which there is at least one, have stopped, however their steps were
-- interleaved, the slots hold the values of `f` at all indices, in index order.
pub collect-par_map :
    {T : Type 0} (f : ℕ → T) (n threads : ℕ) (s : Pool T)
    → 0 < threads
    → Reach f n threads s
    → IsFinished threads s
    → collect 0 n s.slots ≡ ok (par_map n f)
unfolding par_map
collect-par_map f n threads s pos r finished =
    let inv : Inv f n threads s = Reach-Inv f n threads r in
    collect_filled f s.slots n 0 λ j l u.
      let all : n ≤ s.next = inv.ended 0 (finished 0 pos) in
      elim (inv.pending j (omega arith) (omega arith)) [
        | inl filled ↦ filled
        | inr (w, below, runs) ↦ cc (finished w below)
      ]

-- In every reachable state, an index that a thread is working on is below `n`, no other thread
-- works on it, and its slot is empty.
pub running_once :
    {T : Type 0} (f : ℕ → T) (n threads : ℕ) (s : Pool T) (v w i : ℕ)
    → Reach f n threads s
    → s.pc v ≡ running i
    → s.pc w ≡ running i
    → (i < n) × (v ≡ w) × (s.slots i ≡ none)
running_once f n threads s v w i r e e' =
    let inv : Inv f n threads s = Reach-Inv f n threads r in
    ((inv.bounded v i e).1, inv.unique v w i e e', inv.once v i e)
