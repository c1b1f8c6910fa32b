-- ===== src/Source/Chunks.antt =====
-- src/bin/lbunzip2.rs, `read_chunk`: it reads what the source has, up to the buffer's length.
use lbzip2_rs.Prelude.{
  ℕ, zero, suc, ◌+◌, ◌-◌, ◌≤◌, ◌<◌, ◌≡◌, refl, sym, ap, ◌∙◌, arith, true, false, Bool-cases, inl,
  inr, List, [], ◌∷◌, ◌++◌, length, take, drop, ok, ◌>>=◌, ltb, ltb→lt, ltb→le,
}
use lbzip2_rs.Source.{ReadOutcome, got, interrupted, failed, Source, Gives, IsSource, read_chunk}

module _ {S : Type 0} (source : Source S) where
  chunk_full :
      (fuel room : ℕ) (s : S)
      → ltb 0 room ≡ false
      → read_chunk source (suc fuel) room s ≡ ok ([], s)
  unfolding read_chunk
  chunk_full fuel room s full = rw (full, read_chunk) refl

  chunk_end :
      (fuel room : ℕ) (s s' : S)
      → ltb 0 room ≡ true
      → source.read room s ≡ (got [], s')
      → read_chunk source (suc fuel) room s ≡ ok ([], s')
  unfolding read_chunk
  chunk_end fuel room s s' more e = rw (more, e, e, read_chunk) refl

  chunk_more :
      (fuel room x : ℕ) (xs : List ℕ) (s s' : S)
      → ltb 0 room ≡ true
      → source.read room s ≡ (got (x ∷ xs), s')
      → read_chunk source (suc fuel) room s ≡ (
          read_chunk source fuel (room - length (x ∷ xs)) s' >>= λ rest.
          ok ((x ∷ xs) ++ rest.0, rest.1))
  unfolding read_chunk
  chunk_more fuel room x xs s s' more e = rw (more, e, e, read_chunk) refl

  chunk_again :
      (fuel room : ℕ) (s s' : S)
      → ltb 0 room ≡ true
      → source.read room s ≡ (interrupted, s')
      → read_chunk source (suc fuel) room s ≡ read_chunk source fuel room s'
  unfolding read_chunk
  chunk_again fuel room s s' more e = rw (more, e, e, read_chunk) refl

take-append :
    (n : ℕ) (xs ys : List ℕ) → length xs ≤ n → take n (xs ++ ys) ≡ xs ++ take (n - length xs) ys
take-append zero [] ys h = refl
take-append zero (x ∷ xs) ys h = absurd (omega arith)
take-append (suc n) [] ys h = let e : suc n - 0 ≡ suc n = omega arith in rw e refl
take-append (suc n) (x ∷ xs) ys h =
    let e : suc n - suc (length xs) ≡ n - length xs = omega arith in
    rw e (ap (λ t. x ∷ t) (take-append n xs ys (omega arith)))

drop-append : (n : ℕ) (xs ys : List ℕ) → length xs ≤ n → drop n (xs ++ ys) ≡ drop (n - length xs) ys
drop-append zero [] ys h = refl
drop-append zero (x ∷ xs) ys h = absurd (omega arith)
drop-append (suc n) [] ys h = let e : suc n - 0 ≡ suc n = omega arith in rw e refl
drop-append (suc n) (x ∷ xs) ys h =
    let e : suc n - suc (length xs) ≡ n - length xs = omega arith in
    rw e (drop-append n xs ys (omega arith))

module _ {S : Type 0} (source : Source S) (law : IsSource S source) where
  -- What `read_chunk` should give.
  abbrev Reads : ℕ → ℕ → S → List ℕ → Type 0
  Reads fuel room s contents =
      (s' : S) × (read_chunk source fuel room s ≡ ok (take room contents, s'))
      × law.Has s' (drop room contents)

  behind_call :
      (fuel room : ℕ) (s : S) (contents : List ℕ) (call : ReadOutcome × S)
      → ltb 0 room ≡ true
      → source.read room s ≡ call
      → Gives law.Has law.patience room s contents call
      → law.Has s contents
      → room + law.patience s < suc fuel
      → ((left : ℕ) (t : S) (more : List ℕ)
          → law.Has t more
          → left + law.patience t < fuel
          → Reads fuel left t more)
      → Reads (suc fuel) room s contents
  behind_call fuel room s contents (got [], s') open_ e (fits, end, rest, split, has, calm) here
        enough later =
      let none_left : contents ≡ [] = end refl in
      let nothing : rest ≡ [] = sym split ∙ none_left in
      let taken : take room contents ≡ [] = ap (take room) none_left ∙ take_nil room in
      let dropped : drop room contents ≡ rest =
        ap (drop room) none_left ∙ drop_nil room ∙ sym nothing in
      (s', chunk_end source fuel room s s' open_ e ∙ rw taken refl, rw dropped has)
    where
      take_nil : (n : ℕ) → take {A = ℕ} n [] ≡ []
      take_nil zero = refl
      take_nil (suc n) = refl

      drop_nil : (n : ℕ) → drop {A = ℕ} n [] ≡ []
      drop_nil zero = refl
      drop_nil (suc n) = refl
  behind_call fuel room s contents (got (x ∷ xs), s') open_ e (fits, end, rest, split, has, calm)
        here enough later =
      let (t, read, left_over) =
        later (room - length (x ∷ xs)) s' rest has (omega (arith, ltb→lt 0 room open_)) in
      let taken : take room contents ≡ (x ∷ xs) ++ take (room - length (x ∷ xs)) rest =
        ap (take room) split ∙ take-append room (x ∷ xs) rest fits in
      let dropped : drop room contents ≡ drop (room - length (x ∷ xs)) rest =
        ap (drop room) split ∙ drop-append room (x ∷ xs) rest fits in
      (
        t,
        chunk_more source fuel room x xs s s' open_ e ∙ rw (read, taken) refl,
        rw dropped left_over,
      )
  behind_call fuel room s contents (interrupted, s') open_ e (has, calmer) here enough later =
      let (t, read, left_over) = later room s' contents has (omega arith) in
      (t, chunk_again source fuel room s s' open_ e ∙ read, left_over)
  behind_call fuel room s contents (failed x, s') open_ e gives here enough later = absurd gives

  -- From a source that has `contents` to give and does not fail, `read_chunk` with enough rounds
  -- for the buffer and the interruptions ends; it reads the first bytes, as many as the buffer has
  -- room for, or all, and leaves the others in the source.
  pub read_chunk-take :
      (fuel room : ℕ) (s : S) (contents : List ℕ)
      → law.Has s contents
      → room + law.patience s < fuel
      → (s' : S) × (read_chunk source fuel room s ≡ ok (take room contents, s'))
        × law.Has s' (drop room contents)
  read_chunk-take zero room s contents has enough = absurd (omega arith)
  read_chunk-take (suc fuel) room s contents has enough = elim (Bool-cases (ltb 0 room)) [
    | inl open_ ↦
        behind_call fuel room s contents (source.read room s) open_ refl
          (law.gives room s contents (ltb→lt 0 room open_) has) has enough
          (λ left t more has' enough'. read_chunk-take fuel left t more has' enough')
    | inr full ↦
        let none : room ≡ 0 = omega (arith, ltb→le 0 room full) in
        (s, rw none (chunk_full source fuel 0 s refl), rw none has)
  ]
