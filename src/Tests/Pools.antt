-- ===== src/Tests/Pools.antt =====
-- The theorems on src/par.rs at two threads and two indices: the second thread claims and stores
-- between the first thread's claim and its store.
use lbzip2_rs.Prelude.{none, ◌<◌, ℕ, zero, suc, ◌+◌, ◌≡◌, refl, arith, ◌<◌, none, ok, some}
use lbzip2_rs.ParMap.{par_map}
use lbzip2_rs.ParMap.Threads.{
  update, ready, Pool, spawn, claimed, claim, store, Reach, start, later, IsFinished, collect,
}
use lbzip2_rs.ParMap.Schedule.{collect-par_map, running_once}

abbrev square : ℕ → ℕ
square i = i + 10

abbrev claims : ℕ → Pool ℕ → Pool ℕ
claims w s = record s { next = s.next + 1; pc = update s.pc w (claimed 2 s.next) }

abbrev stores : ℕ → ℕ → Pool ℕ → Pool ℕ
stores w i s = record s { slots = update s.slots i (some (square i)); pc = update s.pc w ready }

abbrev last : Pool ℕ
last = claims 0 (claims 1 (stores 0 0 (stores 1 1 (claims 1 (claims 0 spawn)))))

last-Reach : Reach square 2 2 last
last-Reach =
    later
      (later
        (later
          (later (later (later start (claim 0 (omega arith) refl)) (claim 1 (omega arith) refl))
            (store 1 1 (omega arith) refl))
          (store 0 0 (omega arith) refl))
        (claim 1 (omega arith) refl))
      (claim 0 (omega arith) refl)

last-IsFinished : IsFinished 2 last
last-IsFinished zero lt = refl
last-IsFinished (suc zero) lt = refl
last-IsFinished (suc (suc w)) lt = absurd (omega arith)

collect-par_map_example : collect 0 2 last.slots ≡ ok (par_map 2 square)
collect-par_map_example = collect-par_map square 2 2 last (omega arith) last-Reach last-IsFinished

abbrev busy : Pool ℕ
busy = claims 1 (claims 0 spawn)

running_once_example : (1 < 2) × (◌≡◌ {A = ℕ} 1 1) × (busy.slots 1 ≡ none)
running_once_example =
    running_once square 2 2 busy 1 1 1
      (later (later start (claim 0 (omega arith) refl)) (claim 1 (omega arith) refl)) refl refl
