-- ===== src/Pipeline/Slots.antt =====
-- src/bin/lbunzip2.rs: the slots in flight as the results that are still awaited determine them.
use lbzip2_rs.Prelude.{
  ℕ, zero, suc, ◌+◌, ◌≤◌, ◌<◌, ◌≡◌, ◌≢◌, refl, sym, ap, ◌∙◌, arith, Bool, true, false, Bool-cases,
  ◌&&◌, inl, inr, List, [], ◌∷◌, map, length, set, replicate, count_up, Option, none, some, ok, ltb,
  lt→ltb, dec_lt, ◌==◌, ==_iff, ==_false, if◌then◌else◌,
}
use lbzip2_rs.Pipeline.{SegmentResult, InFlightSlot, apply_result}
use lbzip2_rs.Pipeline.Threads.{new_in_flight}

-- The results that are still awaited, by chunk and segment.
abbrev pub Awaited : Type 0
Awaited = ℕ → ℕ → Bool

abbrev pub delivered : ℕ → ℕ → Awaited → Awaited
delivered k i out j l = if j == k && l == i then false else out j l

-- Two maps over one range.
pub map_ext :
    {A : Type 0} (f g : ℕ → A) (a n : ℕ)
    → ((j : ℕ) → a ≤ j → j < a + n → f j ≡ g j)
    → map f (count_up a n) ≡ map g (count_up a n)
map_ext f g a zero h = refl
map_ext f g a (suc n) h =
    rw
      (
        h a (omega arith) (omega arith),
        map_ext f g (suc a) n (λ j l u. h j (omega arith) (omega arith)),
      )
      refl

-- A write to an entry of a map over a range.
pub set-map :
    {A : Type 0} (f g : ℕ → A) (a n i : ℕ) (v : A)
    → g (a + i) ≡ v
    → ((j : ℕ) → j ≢ a + i → f j ≡ g j)
    → set (map f (count_up a n)) i v ≡ map g (count_up a n)
set-map f g a zero i v here others = refl
set-map f g a (suc n) zero v here others =
    let e : a + 0 ≡ a = omega arith in
    let first : v ≡ g a = sym here ∙ ap g e in
    rw (first, map_ext f g (suc a) n (λ j l u. others j (omega arith))) refl
set-map f g a (suc n) (suc i) v here others =
    let e : suc a + i ≡ a + suc i = omega arith in
    let rest : set (map f (count_up (suc a) n)) i v ≡ map g (count_up (suc a) n) =
      set-map f g (suc a) n i v (ap g e ∙ here) (λ j ne. others j (omega arith)) in
    rw (others a (omega arith), rest) refl

pub length-count_up : (a n : ℕ) → length (count_up a n) ≡ n
length-count_up a zero = refl
length-count_up a (suc n) = ap suc (length-count_up (suc a) n)

pub length-map : {A : Type 0} (f : ℕ → A) (a n : ℕ) → length (map f (count_up a n)) ≡ n
length-map f a zero = refl
length-map f a (suc n) = ap suc (length-map f (suc a) n)

abbrev pub count_some : List (Option (List ℕ)) → ℕ
count_some [] = 0
count_some (none ∷ xs) = count_some xs
count_some (some x ∷ xs) = suc (count_some xs)

count_some-set :
    (f : ℕ → Option (List ℕ)) (a n i : ℕ) (v : List ℕ)
    → i < n
    → f (a + i) ≡ none
    → count_some (set (map f (count_up a n)) i (some v)) ≡ count_some (map f (count_up a n)) + 1
count_some-set f a zero i v lt e = absurd (omega arith)
count_some-set f a (suc n) zero v lt e =
    let at : a + 0 ≡ a = omega arith in
    let here : f a ≡ none = sym (ap f at) ∙ e in rw here (omega arith)
count_some-set f a (suc n) (suc i) v lt e =
    let at : suc a + i ≡ a + suc i = omega arith in
    let rest = count_some-set f (suc a) n i v (omega arith) (ap f at ∙ e) in more (f a) rest
  where
    more :
        (o : Option (List ℕ))
        → count_some (set (map f (count_up (suc a) n)) i (some v))
          ≡ count_some (map f (count_up (suc a) n)) + 1
        → count_some (o ∷ set (map f (count_up (suc a) n)) i (some v))
          ≡ count_some (o ∷ map f (count_up (suc a) n)) + 1
    more none h = h
    more (some x) h = omega (arith, h)

some-none : (x : List ℕ) → ◌≡◌ {A = Option (List ℕ)} (some x) none → ⊥
some-none x bad = cc

-- A range whose entries all count.
pub count_some-all :
    (f : ℕ → Option (List ℕ)) (a n : ℕ)
    → (count_some (map f (count_up a n)) ≤ n)
      × (n ≤ count_some (map f (count_up a n)) → (j : ℕ) → a ≤ j → j < a + n → f j ≢ none)
count_some-all f a zero = (omega arith, λ le j l u. absurd (omega arith))
count_some-all f a (suc n) = more (f a) refl (count_some-all f (suc a) n)
  where
    more :
        (o : Option (List ℕ))
        → f a ≡ o
        → (count_some (map f (count_up (suc a) n)) ≤ n)
          × (n ≤ count_some (map f (count_up (suc a) n))
              → (j : ℕ) → suc a ≤ j
              → j < suc a + n
              → f j ≢ none)
        → (count_some (o ∷ map f (count_up (suc a) n)) ≤ suc n)
          × (suc n ≤ count_some (o ∷ map f (count_up (suc a) n))
              → (j : ℕ) → a ≤ j
              → j < a + suc n
              → f j ≢ none)
    more none e h = (omega (arith, h.0), λ le j l u. absurd (omega (arith, h.0)))
    more (some x) e h = (
      omega (arith, h.0),
      λ le j l u. elim (dec_lt a j) [
        | yes later ↦ h.1 (omega arith) j (omega arith) (omega arith)
        | no here ↦ let at : j ≡ a = omega arith in λ bad. some-none x (sym e ∙ ap f (sym at) ∙ bad)
      ],
    )

map-none :
    (f : ℕ → Option (List ℕ)) (a n : ℕ)
    → ((j : ℕ) → a ≤ j → j < a + n → f j ≡ none)
    → map f (count_up a n) ≡ replicate n none
map-none f a zero h = refl
map-none f a (suc n) h =
    rw
      (
        h a (omega arith) (omega arith),
        map-none f (suc a) n (λ j l u. h j (omega arith) (omega arith)),
      )
      refl

count_some-replicate : (n : ℕ) → count_some (replicate n none) ≡ 0
count_some-replicate zero = refl
count_some-replicate (suc n) = count_some-replicate n

apply_here :
    (s : InFlightSlot) (slots : List InFlightSlot) (r : SegmentResult)
    → (s.chunk_id == r.chunk_id) ≡ true
    → ltb r.segment_id (length s.results) ≡ true
    → apply_result (s ∷ slots) r
      ≡ ok (
          record s {
            results = set s.results r.segment_id (some r.output);
            done_count = s.done_count + 1;
          }
          ∷ slots)
unfolding apply_result
apply_here s slots r same fits = rw (same, fits, apply_result) refl

apply_there :
    (s : InFlightSlot) (slots : List InFlightSlot) (r : SegmentResult) {rest : List InFlightSlot}
    → (s.chunk_id == r.chunk_id) ≡ false
    → apply_result slots r ≡ ok rest
    → apply_result (s ∷ slots) r ≡ ok (s ∷ rest)
unfolding apply_result
apply_there s slots r other e = rw (other, apply_result) (rw e refl)

-- The chunks: how many segments each has, their outputs, the memory of its slot, and whether it is
-- the last.
module _ (segments : ℕ → ℕ) (outputs : ℕ → ℕ → List ℕ) (memory : ℕ → List ℕ) (last : ℕ → Bool) where
  abbrev pub entry : Awaited → ℕ → ℕ → Option (List ℕ)
  entry out k i = if out k i then none else some (outputs k i)

  abbrev pub results_of : Awaited → ℕ → List (Option (List ℕ))
  results_of out k = map (entry out k) (count_up 0 (segments k))

  -- The slot of a chunk, with the results that are not awaited any more.
  abbrev pub slot_of : Awaited → ℕ → InFlightSlot
  slot_of out k = record {
    chunk_id = k;
    slot = memory k;
    decode_segments = segments k;
    results = results_of out k;
    done_count = count_some (results_of out k);
    is_last = last k;
  }

  abbrev pub the_result : ℕ → ℕ → SegmentResult
  the_result k i = record { chunk_id = k; segment_id = i; output = outputs k i }

  abbrev pub expected : ℕ → Awaited → Awaited
  expected k out j i = if j == k then ltb i (segments k) else out j i

  slot_of_ext :
      (out out' : Awaited) (k : ℕ)
      → ((i : ℕ) → i < segments k → out k i ≡ out' k i)
      → slot_of out k ≡ slot_of out' k
  slot_of_ext out out' k h =
      let same : results_of out k ≡ results_of out' k =
        map_ext (entry out k) (entry out' k) 0 (segments k)
          (λ j l u. rw (h j (omega arith)) refl) in
      rw same refl

  delivered_other : (k i j l : ℕ) (out : Awaited) → j ≢ k → delivered k i out j l ≡ out j l
  delivered_other k i j l out ne = elim (Bool-cases (j == k)) [
    | inl same ↦ absurd (ne ((==_iff j k).0 same))
    | inr differs ↦ rw differs refl
  ]

  delivered_segment : (k i l : ℕ) (out : Awaited) → l ≢ i → delivered k i out k l ≡ out k l
  delivered_segment k i l out ne = elim (Bool-cases (l == i)) [
    | inl same ↦ absurd (ne ((==_iff l i).0 same))
    | inr differs ↦ elim (Bool-cases (k == k)) [ inl e ↦ rw (e, differs) refl | inr e ↦ rw e refl ]
  ]

  delivered_here : (k i : ℕ) (out : Awaited) → delivered k i out k i ≡ false
  delivered_here k i out = rw ((==_iff k k).1 refl, (==_iff i i).1 refl) refl

  -- The slot that gets a result that it awaits.
  slot_with_result :
      (k i : ℕ) (out : Awaited)
      → i < segments k
      → out k i ≡ true
      → slot_of (delivered k i out) k ≡ record (slot_of out k) {
        results = set (results_of out k) i (some (outputs k i));
        done_count = count_some (results_of out k) + 1;
      }
  slot_with_result k i out lt awaited =
      let at : 0 + i ≡ i = omega arith in
      let filled : set (results_of out k) i (some (outputs k i))
          ≡ results_of (delivered k i out) k =
        set-map (entry out k) (entry (delivered k i out) k) 0 (segments k) i (some (outputs k i))
          (rw (at, delivered_here k i out) refl)
          (λ j ne. rw (delivered_segment k i j out (λ e. ne (omega (arith, e)))) refl) in
      let count : count_some (results_of (delivered k i out) k)
          ≡ count_some (results_of out k) + 1 =
        rw (← filled) (
          count_some-set (entry out k) 0 (segments k) i (outputs k i) lt (rw (at, awaited) refl)) in
      rw (count, filled) refl

  others-delivered :
      (a n k i : ℕ) (out : Awaited)
      → k < a
      → map (slot_of out) (count_up a n) ≡ map (slot_of (delivered k i out)) (count_up a n)
  others-delivered a n k i out lt =
      map_ext (slot_of out) (slot_of (delivered k i out)) a n (λ j l u.
        slot_of_ext out (delivered k i out) j
          (λ m v. sym (delivered_other k i j m out (λ e. omega (arith, e)))))

  apply_result-first :
      (n k i : ℕ) (out : Awaited)
      → i < segments k
      → out k i ≡ true
      → apply_result (map (slot_of out) (count_up k (suc n))) (the_result k i)
        ≡ ok (map (slot_of (delivered k i out)) (count_up k (suc n)))
  apply_result-first n k i out lt awaited =
      let fits : ltb i (length (results_of out k)) ≡ true =
        lt→ltb i (length (results_of out k))
          (omega (arith, length-map (entry out k) 0 (segments k))) in
      apply_here (slot_of out k) (map (slot_of out) (count_up (suc k) n)) (the_result k i)
        ((==_iff k k).1 refl) fits
      ∙ rw (slot_with_result k i out lt awaited, others-delivered (suc k) n k i out (omega arith))
          refl

  -- All slots with an awaited result delivered to one of them.
  pub apply_result-delivered :
      (a n k i : ℕ) (out : Awaited)
      → a ≤ k
      → k < a + n
      → i < segments k
      → out k i ≡ true
      → apply_result (map (slot_of out) (count_up a n)) (the_result k i)
        ≡ ok (map (slot_of (delivered k i out)) (count_up a n))
  apply_result-delivered a zero k i out lo hi lt awaited = absurd (omega arith)
  apply_result-delivered a (suc n) k i out lo hi lt awaited = elim (Bool-cases (a == k)) [
    | inl same ↦
        let here : a ≡ k = (==_iff a k).0 same in rw here (apply_result-first n k i out lt awaited)
    | inr differs ↦
        let rest =
          apply_result-delivered (suc a) n k i out (omega (arith, ==_false a k differs))
            (omega arith) lt awaited in
        let head_ : slot_of out a ≡ slot_of (delivered k i out) a =
          slot_of_ext out (delivered k i out) a
            (λ m v. sym (delivered_other k i a m out (==_false a k differs))) in
        apply_there (slot_of out a) (map (slot_of out) (count_up (suc a) n)) (the_result k i)
          differs rest
        ∙ ap (λ s. ok (s ∷ map (slot_of (delivered k i out)) (count_up (suc a) n))) head_
  ]

  -- The slot of a chunk that is announced awaits all its results.
  pub slot_of-expected :
      (k : ℕ) (out : Awaited)
      → slot_of (expected k out) k ≡ new_in_flight k (memory k) (segments k) (last k)
  unfolding new_in_flight
  slot_of-expected k out =
      let all : results_of (expected k out) k ≡ replicate (segments k) none =
        map-none (entry (expected k out) k) 0 (segments k)
          (λ i l u. rw ((==_iff k k).1 refl, lt→ltb i (segments k) (omega arith)) refl) in
      rw (all, count_some-replicate (segments k)) refl

  pub slots-expected :
      (a n k : ℕ) (out : Awaited)
      → a + n ≤ k
      → map (slot_of out) (count_up a n) ≡ map (slot_of (expected k out)) (count_up a n)
  slots-expected a n k out le = map_ext (slot_of out) (slot_of (expected k out)) a n (λ j l u.
      slot_of_ext out (expected k out) j (λ m v. elim (Bool-cases (j == k)) [
        | inl same ↦ absurd (omega (arith, (==_iff j k).0 same))
        | inr differs ↦ rw differs refl
      ]))
