-- ===== src/Pipeline/Order.antt =====
-- src/bin/lbunzip2.rs: whatever the order in which the segments of the chunks are decoded, the
-- collector sends them to the writer in the order of the input.
use mathlib.Core.List.{append_assoc}
use lbzip2_rs.Prelude.{
  ℕ, zero, suc, ◌+◌, ◌<◌, ◌≡◌, refl, sym, ap, ◌∙◌, arith, Bool, true, false, List, [], ◌∷◌, ◌++◌,
  map, count_up, concat, some, ok,
}
use lbzip2_rs.Pipeline.{CollectorMsg, new_slot, result, Collector, drained, receive, collector}
use lbzip2_rs.Pipeline.Threads.{new_in_flight}
use lbzip2_rs.Pipeline.States.{
  full, written_upto, returned_upto, state, IsState, receive_slot, receive_result,
  flush_completed-all, initial-IsState, map_snoc,
}
use lbzip2_rs.Pipeline.Slots.{Awaited, delivered, the_result, expected}

concat-append : (xss yss : List (List ℕ)) → concat (xss ++ yss) ≡ concat xss ++ concat yss
concat-append [] yss = refl
concat-append (xs ∷ xss) yss =
    ap (λ t. xs ++ t) (concat-append xss yss) ∙ sym (append_assoc xs (concat xss) (concat yss))

-- Empty outputs are not sent, and would add nothing.
concat-drained :
    (f : ℕ → List ℕ) (a n : ℕ)
    → concat (drained (map (λ i. some (f i)) (count_up a n))) ≡ concat (map f (count_up a n))
unfolding drained
concat-drained f a zero = refl
concat-drained f a (suc n) = first (f a) (concat-drained f (suc a) n)
  where
    first :
        (xs : List ℕ)
        → concat (drained (map (λ i. some (f i)) (count_up (suc a) n)))
          ≡ concat (map f (count_up (suc a) n))
        → concat (drained (some xs ∷ map (λ i. some (f i)) (count_up (suc a) n)))
          ≡ xs ++ concat (map f (count_up (suc a) n))
    first [] h = h
    first (x ∷ xs) h = ap (λ t. (x ∷ xs) ++ t) h

collector_step :
    (msg : CollectorMsg) (msgs : List CollectorMsg) (c c' : Collector)
    → receive msg c ≡ ok c'
    → collector (msg ∷ msgs) c ≡ collector msgs c'
unfolding collector
collector_step msg msgs c c' e = rw (e, collector) refl

-- The collector thread as it starts.
abbrev pub idle : Collector
idle = record { in_flight = []; next_write_id = 0; written = []; returned = [] }

module _ (segments : ℕ → ℕ) (outputs : ℕ → ℕ → List ℕ) (memory : ℕ → List ℕ) (last : ℕ → Bool) where
  -- The messages of a run, from `announced` chunks and the results awaited on: the chunks are
  -- announced in order, each result comes once, behind the announcement of its chunk, and in the
  -- end none is awaited.
  pub data Trace (total : ℕ) : ℕ → Awaited → List CollectorMsg → Type 0 where
    closed :
        {out : Awaited}
        → ((k i : ℕ) → k < total → i < segments k → out k i ≡ false)
        → Trace total total out []
    announced :
        {m : ℕ} {out : Awaited} {msgs : List CollectorMsg}
        → Trace total (suc m) (expected segments outputs memory last m out) msgs
        → Trace total m out (new_slot (new_in_flight m (memory m) (segments m) (last m)) ∷ msgs)
    arrived :
        {m : ℕ} {out : Awaited} {msgs : List CollectorMsg} (k i : ℕ)
        → k < m
        → i < segments k
        → out k i ≡ true
        → Trace total m (delivered k i out) msgs
        → Trace total m out (result (the_result segments outputs memory last k i) ∷ msgs)

  -- The outputs of the chunks below `k`, chunk by chunk and segment by segment.
  abbrev pub output_upto : ℕ → List ℕ
  output_upto zero = []
  output_upto (suc k) = output_upto k ++ concat (map (outputs k) (count_up 0 (segments k)))

  written-output : (k : ℕ) → concat (written_upto segments outputs memory last k) ≡ output_upto k
  written-output zero = refl
  written-output (suc k) =
      concat-append (written_upto segments outputs memory last k)
        (drained (full segments outputs memory last k))
      ∙ rw (written-output k, concat-drained (outputs k) 0 (segments k)) refl

  returned-map : (k : ℕ) → returned_upto segments outputs memory last k ≡ map memory (count_up 0 k)
  returned-map zero = refl
  returned-map (suc k) =
      let e : 0 + k ≡ k = omega arith in rw (map_snoc memory 0 k, e, returned-map k) refl

  collector-Trace :
      (total m : ℕ) (out : Awaited) (msgs : List CollectorMsg) (c : Collector)
      → Trace total m out msgs
      → IsState segments outputs memory last m out c
      → collector msgs c ≡ ok (state segments outputs memory last out total 0)
  unfolding collector
  collector-Trace total _ out _ c (closed settled) h =
      ap (λ t. ok t) (flush_completed-all segments outputs memory last total out c h settled)
  collector-Trace total m out _ c (announced {msgs} rest) h =
      let (c', e, h') = receive_slot segments outputs memory last m out c h in
      collector_step (new_slot (new_in_flight m (memory m) (segments m) (last m))) msgs c c' e
      ∙ collector-Trace total (suc m) (expected segments outputs memory last m out) msgs c' rest h'
  collector-Trace total m out _ c (arrived {msgs} k i lt inside awaited rest) h =
      let (c', e, h') =
        receive_result segments outputs memory last m k i out c lt inside awaited h in
      collector_step (result (the_result segments outputs memory last k i)) msgs c c' e
      ∙ collector-Trace total m (delivered k i out) msgs c' rest h'

-- If the chunks are announced in order, and each segment's result comes once, at any time behind
-- its chunk's announcement, then the collector ends without a panic, no chunk is left in flight,
-- what it has sent to the writer is the output of all segments, chunk by chunk and segment by
-- segment, and it has given back the slots of all chunks in order.
pub collector-in_order :
    (segments : ℕ → ℕ) (outputs : ℕ → ℕ → List ℕ) (memory : ℕ → List ℕ) (last : ℕ → Bool)
    (total : ℕ) (msgs : List CollectorMsg)
    → Trace segments outputs memory last total 0 (λ k i. false) msgs
    → (c : Collector) × (collector msgs idle ≡ ok c)
      × (c.in_flight ≡ [])
      × (concat c.written ≡ output_upto segments outputs memory last total)
      × (c.returned ≡ map memory (count_up 0 total))
collector-in_order segments outputs memory last total msgs trace =
    let out : Awaited = λ k i. false in
    (
      state segments outputs memory last out total 0,
      collector-Trace segments outputs memory last total 0 out msgs idle trace
          (initial-IsState segments outputs memory last out),
      refl,
      written-output segments outputs memory last total,
      returned-map segments outputs memory last total,
    )
