-- ===== src/Pipeline/States.antt =====
-- src/bin/lbunzip2.rs: the collector's state, as the results that are still awaited and the chunk
-- that is written next determine it, and what each message makes of it.
use mathlib.Core.Path.{subst}
use lbzip2_rs.Prelude.{
  ℕ, zero, suc, ◌+◌, ◌≤◌, ◌<◌, ◌≡◌, ◌≢◌, refl, sym, ap, ◌∙◌, arith, Bool, true, false, Bool-cases,
  ◌&&◌, inl, inr, List, [], ◌∷◌, ◌++◌, map, length, count_up, Option, none, some, ok, ltb, ltb→le,
  le→ltb, ◌==◌, ==_iff, dec_lt,
}
use lbzip2_rs.Pipeline.{
  InFlightSlot, new_slot, result, Collector, pick, drained, flush_loop, flush_completed, receive,
}
use lbzip2_rs.Pipeline.Flush.{pick_here}
use lbzip2_rs.Pipeline.Threads.{new_in_flight}
use lbzip2_rs.Pipeline.Slots.{
  Awaited, delivered, map_ext, length-map, count_some, count_some-all, entry, results_of, slot_of,
  the_result, expected, apply_result-delivered, slot_of-expected, slots-expected,
}

pick_nil : (id : ℕ) → pick id [] ≡ none
unfolding pick
pick_nil id = refl

flush_stop :
    (fuel : ℕ) (c : Collector) → pick c.next_write_id c.in_flight ≡ none → flush_loop fuel c ≡ c
unfolding flush_loop
flush_stop zero c e = refl
flush_stop (suc fuel) c e = rw (e, flush_loop) refl

flush_hold :
    (fuel : ℕ) (c : Collector) (found : InFlightSlot × List InFlightSlot)
    → pick c.next_write_id c.in_flight ≡ some found
    → ltb found.0.done_count found.0.decode_segments ≡ true
    → flush_loop (suc fuel) c ≡ c
unfolding flush_loop
flush_hold fuel c found e hold = rw (e, flush_loop) (rw hold refl)

flush_go :
    (fuel : ℕ) (c : Collector) (found : InFlightSlot × List InFlightSlot)
    → pick c.next_write_id c.in_flight ≡ some found
    → ltb found.0.done_count found.0.decode_segments ≡ false
    → flush_loop (suc fuel) c
      ≡ flush_loop fuel (record {
        in_flight = found.1;
        next_write_id = c.next_write_id + 1;
        written = c.written ++ drained found.0.results;
        returned = c.returned ++ found.0.slot ∷ [];
      })
unfolding flush_loop
flush_go fuel c found e go = rw (e, flush_loop) (rw go refl)

pub map_snoc :
    {A : Type 0} (f : ℕ → A) (a n : ℕ)
    → map f (count_up a (suc n)) ≡ map f (count_up a n) ++ f (a + n) ∷ []
map_snoc f a zero = let e : a + 0 ≡ a = omega arith in rw e refl
map_snoc f a (suc n) =
    let e : a + suc n ≡ suc a + n = omega arith in rw e (ap (λ t. f a ∷ t) (map_snoc f (suc a) n))

count_some-map : (f : ℕ → List ℕ) (a n : ℕ) → count_some (map (λ i. some (f i)) (count_up a n)) ≡ n
count_some-map f a zero = refl
count_some-map f a (suc n) = ap suc (count_some-map f (suc a) n)

module _ (segments : ℕ → ℕ) (outputs : ℕ → ℕ → List ℕ) (memory : ℕ → List ℕ) (last : ℕ → Bool) where
  -- All results of a chunk, and what is written of the chunks below `k`.
  abbrev pub full : ℕ → List (Option (List ℕ))
  full k = map (λ i. some (outputs k i)) (count_up 0 (segments k))

  abbrev pub written_upto : ℕ → List (List ℕ)
  written_upto zero = []
  written_upto (suc k) = written_upto k ++ drained (full k)

  abbrev pub returned_upto : ℕ → List (List ℕ)
  returned_upto zero = []
  returned_upto (suc k) = returned_upto k ++ memory k ∷ []

  -- The collector with the chunks below `next` written, and `n` more in flight.
  abbrev pub state : Awaited → ℕ → ℕ → Collector
  state out next n = record {
    in_flight = map (slot_of segments outputs memory last out) (count_up next n);
    next_write_id = next;
    written = written_upto next;
    returned = returned_upto next;
  }

  pub record IsState (m : ℕ) (out : Awaited) (c : Collector) : Type 0 where
    pub next : ℕ
    pub n : ℕ
    pub sum : next + n ≡ m
    pub same : c ≡ state out next n
    pub settled : (k i : ℕ) → k < next → i < segments k → out k i ≡ false

  full-results :
      (out : Awaited) (k : ℕ)
      → ((i : ℕ) → i < segments k → out k i ≡ false)
      → results_of segments outputs memory last out k ≡ full k
  full-results out k none_left =
      map_ext (entry segments outputs memory last out k) (λ i. some (outputs k i)) 0 (segments k)
        (λ i l u. rw (none_left i (omega arith)) refl)

  complete-settled :
      (out : Awaited) (k : ℕ)
      → segments k ≤ count_some (results_of segments outputs memory last out k)
      → (i : ℕ) → i < segments k
      → out k i ≡ false
  complete-settled out k le i lt =
      let there : entry segments outputs memory last out k i ≢ none =
        (count_some-all (entry segments outputs memory last out k) 0 (segments k)).1 le i
          (omega arith) (omega arith) in
      elim (Bool-cases (out k i)) [
        | inl awaited ↦ absurd (there (rw awaited refl))
        | inr here ↦ here
      ]

  -- The chunk to write next is complete: it is written.
  flush_next :
      (fuel : ℕ) (out : Awaited) (next n : ℕ)
      → ((i : ℕ) → i < segments next → out next i ≡ false)
      → flush_loop (suc fuel) (state out next (suc n)) ≡ flush_loop fuel (state out (suc next) n)
  flush_next fuel out next n settled =
      let slots : List InFlightSlot =
        map (slot_of segments outputs memory last out) (count_up (suc next) n) in
      let here : InFlightSlot = slot_of segments outputs memory last out next in
      let results : results_of segments outputs memory last out next ≡ full next =
        full-results out next settled in
      let done : ltb (count_some (results_of segments outputs memory last out next)) (segments next)
          ≡ false =
        le→ltb (count_some (results_of segments outputs memory last out next)) (segments next)
          (omega (arith, ap count_some results, count_some-map (outputs next) 0 (segments next))) in
      let e : next + 1 ≡ suc next = omega arith in
      flush_go fuel (state out next (suc n)) (here, slots)
        (pick_here next here slots ((==_iff next next).1 refl)) done
      ∙ rw (e, results) refl

  flush_loop-IsState :
      (fuel m next n : ℕ) (out : Awaited)
      → next + n ≡ m
      → ((k i : ℕ) → k < next → i < segments k → out k i ≡ false)
      → IsState m out (flush_loop fuel (state out next n))
  flush_loop-IsState zero m next n out sum settled =
      unfold flush_loop in record { next = next; n = n; sum = sum; same = refl; settled = settled }
  flush_loop-IsState (suc fuel) m next zero out sum settled =
      rw (flush_stop (suc fuel) (state out next zero) (pick_nil next))
        (record { next = next; n = zero; sum = sum; same = refl; settled = settled })
  flush_loop-IsState (suc fuel) m next (suc n) out sum settled =
      let here : InFlightSlot = slot_of segments outputs memory last out next in
      let slots : List InFlightSlot =
        map (slot_of segments outputs memory last out) (count_up (suc next) n) in
      elim (Bool-cases (ltb here.done_count here.decode_segments)) [
        | inl hold ↦
            rw
              (flush_hold fuel (state out next (suc n)) (here, slots)
                (pick_here next here slots ((==_iff next next).1 refl)) hold)
              (record { next = next; n = suc n; sum = sum; same = refl; settled = settled })
        | inr go ↦
            let none_left =
              complete-settled out next (ltb→le here.done_count here.decode_segments go) in
            rw (flush_next fuel out next n none_left) (
              flush_loop-IsState fuel m (suc next) n out (omega arith) (λ k i lt inside.
                elim (dec_lt k next) [
                  | yes before ↦ settled k i before inside
                  | no at ↦
                      let e : next ≡ k = omega arith in
                      subst (λ j. (i : ℕ) → i < segments j → out j i ≡ false) e none_left i inside
                ]))
      ]

  -- With nothing awaited, all slots are written.
  pub flush_all :
      (fuel next n : ℕ) (out : Awaited)
      → n < fuel
      → ((k i : ℕ) → k < next + n → i < segments k → out k i ≡ false)
      → flush_loop fuel (state out next n) ≡ state out (next + n) 0
  flush_all zero next n out enough settled = absurd (omega arith)
  flush_all (suc fuel) next zero out enough settled =
      let e : next + 0 ≡ next = omega arith in
      rw e (flush_stop (suc fuel) (state out next zero) (pick_nil next))
  flush_all (suc fuel) next (suc n) out enough settled =
      let e : suc next + n ≡ next + suc n = omega arith in
      flush_next fuel out next n (λ i lt. settled next i (omega arith) lt)
      ∙ rw (← e) (
          flush_all fuel (suc next) n out (omega arith)
            (λ k i lt inside. settled k i (omega arith) inside))

  flush_completed-IsState :
      (m next n : ℕ) (out : Awaited)
      → next + n ≡ m
      → ((k i : ℕ) → k < next → i < segments k → out k i ≡ false)
      → IsState m out (flush_completed (state out next n))
  unfolding flush_completed
  flush_completed-IsState m next n out sum settled =
      flush_loop-IsState (suc (length (state out next n).in_flight)) m next n out sum settled

  -- One message.
  pub receive_slot :
      (m : ℕ) (out : Awaited) (c : Collector)
      → IsState m out c
      → (c' : Collector) × (receive (new_slot (new_in_flight m (memory m) (segments m) (last m))) c
          ≡ ok c')
        × IsState (suc m) (expected segments outputs memory last m out) c'
  unfolding receive
  receive_slot m out c h =
      let out' : Awaited = expected segments outputs memory last m out in
      let slots : List InFlightSlot =
        map (slot_of segments outputs memory last out) (count_up h.next h.n) in
      let grown : slots ++ new_in_flight m (memory m) (segments m) (last m) ∷ []
          ≡ map (slot_of segments outputs memory last out') (count_up h.next (suc h.n)) =
        let at : h.next + h.n ≡ m = h.sum in
        let before =
          slots-expected segments outputs memory last h.next h.n m out (omega (arith, at)) in
        let here = slot_of-expected segments outputs memory last m out in
        rw (map_snoc (slot_of segments outputs memory last out') h.next h.n, at, before, here)
          refl in
      (
        flush_completed (state out' h.next (suc h.n)),
        rw (h.same, grown) refl,
        flush_completed-IsState (suc m) h.next (suc h.n) out' (omega (arith, h.sum))
            (λ k i lt inside. elim (Bool-cases (k == m)) [
              | inl same ↦ absurd (omega (arith, (==_iff k m).0 same, h.sum))
              | inr other ↦ rw other (h.settled k i lt inside)
            ]),
      )

  pub receive_result :
      (m k i : ℕ) (out : Awaited) (c : Collector)
      → k < m
      → i < segments k
      → out k i ≡ true
      → IsState m out c
      → (c' : Collector) × (receive (result (the_result segments outputs memory last k i)) c
          ≡ ok c')
        × IsState m (delivered k i out) c'
  unfolding receive
  receive_result m k i out c lt inside awaited h = elim (dec_lt k h.next) [
    | yes before ↦ absurd (clash (sym awaited ∙ h.settled k i before inside))
    | no flying ↦ (
      flush_completed (state (delivered k i out) h.next h.n),
      rw
          (
            h.same,
            apply_result-delivered segments outputs memory last h.next h.n k i out (omega arith)
                (omega (arith, h.sum)) inside awaited,
          )
          refl,
      flush_completed-IsState m h.next h.n (delivered k i out) h.sum (λ j l before seg.
          elim (Bool-cases (j == k && l == i)) [
            | inl here ↦ rw here refl
            | inr other ↦ rw other (h.settled j l before seg)
          ]),
    )
  ]
    where
      clash : true ≡ false → ⊥
      clash e = cc

  -- With nothing awaited, the last flush leaves no chunk behind.
  pub flush_completed-all :
      (total : ℕ) (out : Awaited) (c : Collector)
      → IsState total out c
      → ((k i : ℕ) → k < total → i < segments k → out k i ≡ false)
      → flush_completed c ≡ state out total 0
  unfolding flush_completed
  flush_completed-all total out c h settled =
      let flying : ℕ = length (state out h.next h.n).in_flight in
      let all : flush_loop (suc flying) (state out h.next h.n) ≡ state out (h.next + h.n) 0 =
        flush_all (suc flying) h.next h.n out
          (omega (arith, length-map (slot_of segments outputs memory last out) h.next h.n))
          (λ k i lt inside. settled k i (omega (arith, h.sum)) inside) in
      let same : c ≡ state out h.next h.n = h.same in rw same (rw h.sum at all)

  -- The collector before the first message.
  pub initial-IsState : (out : Awaited) → IsState 0 out (state out 0 0)
  initial-IsState out = record {
    next = 0;
    n = 0;
    sum = refl;
    same = refl;
    settled = λ k i lt inside. absurd (omega arith);
  }
