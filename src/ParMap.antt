-- ===== src/ParMap.antt =====
-- src/par.rs: the work-stealing map. `par_map` is what its callers get, the results in index
-- order, as the branch for one thread computes it. `Threads` is the branch for several threads,
-- as interleaved steps, and `Schedule` shows that every schedule gives the same.
pub mod Threads
pub mod Invariant
pub mod Schedule
use lbzip2_rs.Prelude.{ℕ, max, List, map, count_up, Option, none, some}

-- `worker_count`, for what LBZIP2_THREADS parses to and what `available_parallelism` gives.
unfoldable pub worker_count : Option ℕ → Option ℕ → ℕ
worker_count (some n) available = max n 1
worker_count none (some n) = max n 1
worker_count none none = max 4 1

-- `(0..n).map(f).collect()`.
unfoldable pub par_map {ℓ} : {T : Type ℓ} → ℕ → (ℕ → T) → List T
par_map n f = map f (count_up 0 n)
