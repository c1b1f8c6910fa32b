-- ===== src/Pipeline/Flush.antt =====
-- src/bin/lbunzip2.rs, `flush_completed`: no chunk that could be written is left behind.
use mathlib.Core.Path.{subst}
use lbzip2_rs.Prelude.{
  ℕ, zero, suc, ◌+◌, ◌<◌, ◌≡◌, refl, sym, arith, true, false, Bool-cases, inl, inr, List, [], ◌∷◌,
  ◌++◌, Option, none, some, Option-cases, length, ltb, ltb→lt, ◌==◌,
}
use lbzip2_rs.Pipeline.{InFlightSlot, Collector, pick, drained, flush_loop, flush_completed}

-- What is picked leaves one slot less than `n`.
abbrev LeavesOneLess : ℕ → Option (InFlightSlot × List InFlightSlot) → Type 0
LeavesOneLess n none = Unit
LeavesOneLess n (some found) = length found.1 + 1 ≡ n

pub pick_here :
    (id : ℕ) (s : InFlightSlot) (slots : List InFlightSlot)
    → (s.chunk_id == id) ≡ true
    → pick id (s ∷ slots) ≡ some (s, slots)
unfolding pick
pick_here id s slots e = rw (e, pick) refl

pick-none :
    (id : ℕ) (s : InFlightSlot) (slots : List InFlightSlot)
    → (s.chunk_id == id) ≡ false
    → pick id slots ≡ none
    → pick id (s ∷ slots) ≡ none
unfolding pick
pick-none id s slots e f = rw (e, pick) (rw (f, pick) refl)

pick_there :
    (id : ℕ) (s : InFlightSlot) (slots : List InFlightSlot)
    (found : InFlightSlot × List InFlightSlot)
    → (s.chunk_id == id) ≡ false
    → pick id slots ≡ some found
    → pick id (s ∷ slots) ≡ some (found.0, s ∷ found.1)
unfolding pick
pick_there id s slots found e f = rw (e, pick) (rw (f, pick) refl)

pick-LeavesOneLess :
    (id : ℕ) (slots : List InFlightSlot) → LeavesOneLess (length slots) (pick id slots)
unfolding pick
pick-LeavesOneLess id [] = tt
pick-LeavesOneLess id (s ∷ slots) = elim (Bool-cases (s.chunk_id == id)) [
  | inl here ↦ rw (pick_here id s slots here) (omega arith)
  | inr other ↦ elim (Option-cases (pick id slots)) [
    | inl e ↦ rw (pick-none id s slots other e) tt
    | inr (found, e) ↦
        let shorter : length found.1 + 1 ≡ length slots =
          subst (LeavesOneLess (length slots)) e (pick-LeavesOneLess id slots) in
        rw (pick_there id s slots found other e) (omega arith)
  ]
]

-- The chunk to write next is not there, or not complete.
abbrev pub IsWaiting : Option (InFlightSlot × List InFlightSlot) → Type 0
IsWaiting none = Unit
IsWaiting (some found) = found.0.done_count < found.0.decode_segments

flush_loop-none :
    (fuel : ℕ) (c : Collector)
    → pick c.next_write_id c.in_flight ≡ none
    → flush_loop (suc fuel) c ≡ c
unfolding flush_loop
flush_loop-none fuel c e = rw (e, flush_loop) refl

flush_loop_waits :
    (fuel : ℕ) (c : Collector) (found : InFlightSlot × List InFlightSlot)
    → pick c.next_write_id c.in_flight ≡ some found
    → ltb found.0.done_count found.0.decode_segments ≡ true
    → flush_loop (suc fuel) c ≡ c
unfolding flush_loop
flush_loop_waits fuel c found e f = rw (e, f, flush_loop) refl

-- What a round leaves.
abbrev written_out : Collector → InFlightSlot × List InFlightSlot → Collector
written_out c found = record {
  in_flight = found.1;
  next_write_id = c.next_write_id + 1;
  written = c.written ++ drained found.0.results;
  returned = c.returned ++ found.0.slot ∷ [];
}

flush_loop_writes :
    (fuel : ℕ) (c : Collector) (found : InFlightSlot × List InFlightSlot)
    → pick c.next_write_id c.in_flight ≡ some found
    → ltb found.0.done_count found.0.decode_segments ≡ false
    → flush_loop (suc fuel) c ≡ flush_loop fuel (written_out c found)
unfolding flush_loop
flush_loop_writes fuel c found e f = rw (e, f, flush_loop) refl

abbrev Waits : Collector → Type 0
Waits c = IsWaiting (pick c.next_write_id c.in_flight)

flush_loop-Waits :
    (fuel : ℕ) (c : Collector) → length c.in_flight < fuel → Waits (flush_loop fuel c)
unfolding flush_loop
flush_loop-Waits zero c enough = absurd (omega arith)
flush_loop-Waits (suc fuel) c enough = elim (Option-cases (pick c.next_write_id c.in_flight)) [
  | inl e ↦ rw (flush_loop-none fuel c e) (subst IsWaiting (sym e) tt)
  | inr (found, e) ↦ elim (Bool-cases (ltb found.0.done_count found.0.decode_segments)) [
    | inl waits ↦
        rw (flush_loop_waits fuel c found e waits)
          (subst IsWaiting (sym e) (ltb→lt found.0.done_count found.0.decode_segments waits))
    | inr complete ↦
        let shorter : length found.1 + 1 ≡ length c.in_flight =
          subst (LeavesOneLess (length c.in_flight)) e
            (pick-LeavesOneLess c.next_write_id c.in_flight) in
        rw (flush_loop_writes fuel c found e complete)
          (flush_loop-Waits fuel (written_out c found) (omega arith))
  ]
]

-- After `flush_completed`, the chunk to write next is not in flight, or has segments that are not
-- done.
pub flush_completed-IsWaiting :
    (c : Collector)
    → IsWaiting (pick (flush_completed c).next_write_id (flush_completed c).in_flight)
unfolding flush_completed
flush_completed-IsWaiting c = flush_loop-Waits (suc (length c.in_flight)) c (omega arith)
