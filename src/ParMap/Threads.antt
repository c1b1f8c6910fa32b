-- ===== src/ParMap/Threads.antt =====
-- src/par.rs, `par_map`: the threads that claim indices from a shared counter, one shared access
-- at a time.
use lbzip2_rs.Prelude.{
  ℕ, zero, suc, ◌+◌, ◌<◌, ◌≡◌, List, [], ◌∷◌, Option, none, some, Result, ok, ◌>>=◌, index, ltb,
  ◌==◌, if◌then◌else◌,
}

-- A family with one value changed.
abbrev pub update {ℓ} : {A : Type ℓ} → (ℕ → A) → ℕ → A → ℕ → A
update g i a j = if i == j then a else g j

-- Where a worker stands: before `fetch_add`, with a claimed index, or past the `break`.
pub data Pc : Type 0 where
  ready : Pc
  running : ℕ → Pc
  stopped : Pc

pub record Pool (T : Type 0) : Type 0 where
  pub next : ℕ
  pub slots : ℕ → Option T
  pub pc : ℕ → Pc

abbrev pub spawn : {T : Type 0} → Pool T
spawn = record { next = 0; slots = λ _. none; pc = λ _. ready }

-- What follows `fetch_add`: the test `i >= n`.
abbrev pub claimed : ℕ → ℕ → Pc
claimed n i = if ltb i n then running i else stopped

module _ {T : Type 0} (f : ℕ → T) (n threads : ℕ) where
  pub data Step (s : Pool T) : Pool T → Type 0 where
    claim :
        (w : ℕ)
        → w < threads
        → s.pc w ≡ ready
        → Step s (record s { next = s.next + 1; pc = update s.pc w (claimed n s.next) })
    store :
        (w i : ℕ)
        → w < threads
        → s.pc w ≡ running i
        → Step s (record s { slots = update s.slots i (some (f i)); pc = update s.pc w ready })

  pub data Reach : Pool T → Type 0 where
    start : Reach spawn
    later : {s t : Pool T} → Reach s → Step s t → Reach t

-- The scope ends when every thread has.
abbrev pub IsFinished : {T : Type 0} → ℕ → Pool T → Type 0
IsFinished threads s = (w : ℕ) → w < threads → s.pc w ≡ stopped

-- The slots are taken out in order; an empty one panics.
unfoldable pub collect : {T : Type 0} → ℕ → ℕ → (ℕ → Option T) → Result (List T)
collect i zero slots = ok []
collect i (suc left) slots = do v ← index (slots i); vs ← collect (suc i) left slots; ok (v ∷ vs)
