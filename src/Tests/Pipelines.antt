-- ===== src/Tests/Pipelines.antt =====
-- The collector of src/bin/lbunzip2.rs on results that come out of order.
use lbzip2_rs.Prelude.{
  length, ℕ, zero, suc, ◌+◌, ◌*◌, ◌<◌, arith, ◌==◌, concat, map, count_up, ◌≡◌, refl, false, true,
  Bool, List, [], ◌∷◌, none, ok, OnOk,
}
use lbzip2_rs.Pipeline.{InFlightSlot, CollectorMsg, new_slot, result, Collector, collector}
use lbzip2_rs.Pipeline.Threads.{new_in_flight, main_loop}
use lbzip2_rs.Pipeline.Carry.{Feeds, main_loop-Feeds}
use lbzip2_rs.Tests.Bytes.{hello}
use lbzip2_rs.Pipeline.Slots.{Awaited, delivered, expected}
use lbzip2_rs.Pipeline.Order.{
  Trace, closed, announced, arrived, idle, output_upto, collector-in_order,
}

abbrev before : Collector
before = record { in_flight = []; next_write_id = 0; written = []; returned = [] }

abbrev chunk_of_two : ℕ → Bool → InFlightSlot
chunk_of_two id last = record {
  chunk_id = id;
  slot = id ∷ [];
  decode_segments = 2;
  results = none ∷ none ∷ [];
  done_count = 0;
  is_last = last;
}

abbrev segment : ℕ → ℕ → ℕ → CollectorMsg
segment chunk_id segment_id b =
    result (record { chunk_id = chunk_id; segment_id = segment_id; output = b ∷ [] })

abbrev messages : List CollectorMsg
messages =
    new_slot (chunk_of_two 0 false)
    ∷ new_slot (chunk_of_two 1 true)
    ∷ segment 1 1 13
    ∷ segment 0 1 11
    ∷ segment 1 0 12
    ∷ segment 0 0 10
    ∷ []

-- All is written in the order of the chunks and their segments.
collector-messages :
    collector messages before
    ≡ ok (record {
      in_flight = [];
      next_write_id = 2;
      written = (10 ∷ []) ∷ (11 ∷ []) ∷ (12 ∷ []) ∷ (13 ∷ []) ∷ [];
      returned = (0 ∷ []) ∷ (1 ∷ []) ∷ [];
    })
unfolding collector
collector-messages = refl

abbrev half_done : Collector
half_done = record {
  in_flight = chunk_of_two 1 true ∷ record (chunk_of_two 0 false) { done_count = 2 } ∷ [];
  next_write_id = 0;
  written = [];
  returned = [];
}

abbrev two_each : ℕ → ℕ
two_each k = 2

abbrev bytes_of : ℕ → ℕ → List ℕ
bytes_of k i = (10 + 2 * k + i) ∷ []

abbrev slot_bytes : ℕ → List ℕ
slot_bytes k = k ∷ []

abbrev is_second : ℕ → Bool
is_second k = k == 1

-- Nothing is awaited behind the four results.
abbrev after_all : Awaited
after_all = delivered 0 0 (
    delivered 1 0 (
      delivered 0 1 (
        delivered 1 1 (
          expected two_each bytes_of slot_bytes is_second 1
            (expected two_each bytes_of slot_bytes is_second 0 (λ k i. false))))))

none_awaited : (k i : ℕ) → k < 2 → i < 2 → after_all k i ≡ false
none_awaited zero zero lt inside = refl
none_awaited zero (suc zero) lt inside = refl
none_awaited (suc zero) zero lt inside = refl
none_awaited (suc zero) (suc zero) lt inside = refl
none_awaited (suc (suc k)) i lt inside = absurd (omega arith)
none_awaited zero (suc (suc i)) lt inside = absurd (omega arith)
none_awaited (suc zero) (suc (suc i)) lt inside = absurd (omega arith)

messages-Trace : Trace two_each bytes_of slot_bytes is_second 2 0 (λ k i. false) messages
unfolding new_in_flight
messages-Trace = announced (
    announced (
      arrived 1 1 (omega arith) (omega arith) refl (
        arrived 0 1 (omega arith) (omega arith) refl (
          arrived 1 0 (omega arith) (omega arith) refl
            (arrived 0 0 (omega arith) (omega arith) refl (closed none_awaited))))))

collector-in_order_example :
    (c : Collector) × (collector messages idle ≡ ok c)
    × (c.in_flight ≡ [])
    × (concat c.written ≡ output_upto two_each bytes_of slot_bytes is_second 2)
    × (c.returned ≡ map slot_bytes (count_up 0 2))
collector-in_order_example =
    collector-in_order two_each bytes_of slot_bytes is_second 2 messages messages-Trace

main_loop-Feeds_example :
    Feeds 1 900_000 ((hello, true) ∷ []) [] 0 (main_loop 1 900_000 ((hello, true) ∷ []) [] 0)
main_loop-Feeds_example = main_loop-Feeds 1 900_000 ((hello, true) ∷ []) [] 0

-- A chunk is posted there.
one_posted : OnOk (λ ps. length ps ≡ 1) (main_loop 1 900_000 ((hello, true) ∷ []) [] 0)
unfolding main_loop
one_posted = refl
