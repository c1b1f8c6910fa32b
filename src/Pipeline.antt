-- ===== src/Pipeline.antt =====
-- src/bin/lbunzip2.rs: the collector thread, which gets the decoded segments in any order and sends
-- them to the writer in the order of the chunks.
pub mod Flush
pub mod Threads
pub mod Posts
pub mod Ranges
pub mod Carry
pub mod Slots
pub mod States
pub mod Order
use lbzip2_rs.Prelude.{
  ℕ, zero, suc, ◌+◌, Bool, true, false, List, [], ◌∷◌, ◌++◌, Option, none, some, length, set,
  Result, ok, err, panic, ◌>>=◌, ltb, ◌==◌,
}

pub record SegmentResult : Type 0 where
  pub chunk_id : ℕ
  pub segment_id : ℕ
  pub output : List ℕ

pub record InFlightSlot : Type 0 where
  pub chunk_id : ℕ
  pub slot : List ℕ
  pub decode_segments : ℕ
  pub results : List (Option (List ℕ))
  pub done_count : ℕ
  pub is_last : Bool

pub data CollectorMsg : Type 0 where
  new_slot : InFlightSlot → CollectorMsg
  result : SegmentResult → CollectorMsg

-- The variables of the thread, with what it has sent to the writer and back to the reader.
pub record Collector : Type 0 where
  pub in_flight : List InFlightSlot
  pub next_write_id : ℕ
  pub written : List (List ℕ)
  pub returned : List (List ℕ)

-- The slot of the result's chunk gets its output. A result of no slot is dropped, and a segment
-- out of range panics.
unfoldable pub apply_result : List InFlightSlot → SegmentResult → Result (List InFlightSlot)
apply_result [] r = ok []
apply_result (s ∷ slots) r = elim (s.chunk_id == r.chunk_id) [
  | true ↦ elim (ltb r.segment_id (length s.results)) [
    | true ↦ ok (
        record s {
          results = set s.results r.segment_id (some r.output);
          done_count = s.done_count + 1;
        }
        ∷ slots)
    | false ↦ panic
  ]
  | false ↦ do rest ← apply_result slots r; ok (s ∷ rest)
]

-- `position` and `remove`: the first slot of a chunk, and the others.
unfoldable pub pick : ℕ → List InFlightSlot → Option (InFlightSlot × List InFlightSlot)
pick id [] = none
pick id (s ∷ slots) = elim (s.chunk_id == id) [
  | true ↦ some (s, slots)
  | false ↦ elim (pick id slots) [ none ↦ none | some found ↦ some (found.0, s ∷ found.1) ]
]

-- What a slot sends to the writer: its outputs in order, but no empty ones.
unfoldable pub drained : List (Option (List ℕ)) → List (List ℕ)
drained [] = []
drained (none ∷ results) = drained results
drained (some [] ∷ results) = drained results
drained (some (b ∷ bs) ∷ results) = (b ∷ bs) ∷ drained results

-- The loop of `flush_completed`. A round removes a slot, so one round more than the slots is
-- enough.
unfoldable pub flush_loop : ℕ → Collector → Collector
unfolding pick drained
flush_loop zero c = c
flush_loop (suc fuel) c = elim (pick c.next_write_id c.in_flight) [
  | none ↦ c
  | some found ↦ elim (ltb found.0.done_count found.0.decode_segments) [
    | true ↦ c
    | false ↦ flush_loop fuel (record {
      in_flight = found.1;
      next_write_id = c.next_write_id + 1;
      written = c.written ++ drained found.0.results;
      returned = c.returned ++ found.0.slot ∷ [];
    })
  ]
]

unfoldable pub flush_completed : Collector → Collector
unfolding flush_loop
flush_completed c = flush_loop (suc (length c.in_flight)) c

-- One round of the thread's loop.
unfoldable pub receive : CollectorMsg → Collector → Result Collector
unfolding apply_result flush_completed
receive (new_slot s) c = ok (flush_completed (record c { in_flight = c.in_flight ++ s ∷ [] }))
receive (result r) c = do
  slots ← apply_result c.in_flight r
  ok (flush_completed (record c { in_flight = slots }))

-- The loop until the channel is closed, and the last flush.
unfoldable pub collector : List CollectorMsg → Collector → Result Collector
unfolding receive flush_completed
collector [] c = ok (flush_completed c)
collector (msg ∷ msgs) c = do c' ← receive msg c; collector msgs c'
