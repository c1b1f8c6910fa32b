-- ===== src/Reader/Loads.antt =====
-- src/reader.rs, the loop of `StreamingBz2Read::fill` that reads, on a source that ends within the
-- chunk.
use lbzip2_rs.Prelude.{
  ℕ, zero, suc, ◌+◌, ◌-◌, ◌<◌, ◌≡◌, refl, ap, ◌∙◌, arith, true, length-append, ltb→lt, List, [],
  ◌∷◌, ◌++◌, length, none, ok, ◌>>=◌, ltb, lt→ltb,
}
use lbzip2_rs.Source.{ReadOutcome, got, interrupted, failed, Source, Gives, IsSource}
use lbzip2_rs.Reader.Streaming.{load}

module _ {S : Type 0} (source : Source S) where
  load_end :
      (fuel room : ℕ) (s s' : S)
      → ltb 0 room ≡ true
      → source.read room s ≡ (got [], s')
      → load source (suc fuel) room s
        ≡ ok (record { bytes = []; at_end = true; error = none; source = s' })
  unfolding load
  load_end fuel room s s' more e = rw (more, e, e, load) refl

  load_more :
      (fuel room x : ℕ) (xs : List ℕ) (s s' : S)
      → ltb 0 room ≡ true
      → source.read room s ≡ (got (x ∷ xs), s')
      → load source (suc fuel) room s ≡ (
          load source fuel (room - length (x ∷ xs)) s' >>= λ rest.
          ok (record rest { bytes = (x ∷ xs) ++ rest.bytes }))
  unfolding load
  load_more fuel room x xs s s' more e = rw (more, e, e, load) refl

  load_again :
      (fuel room : ℕ) (s s' : S)
      → ltb 0 room ≡ true
      → source.read room s ≡ (interrupted, s')
      → load source (suc fuel) room s ≡ load source fuel room s'
  unfolding load
  load_again fuel room s s' more e = rw (more, e, e, load) refl

module _ {S : Type 0} (source : Source S) (law : IsSource S source) where
  -- The loop reads all the contents, and meets the end of the source.
  abbrev pub Loads : ℕ → ℕ → S → List ℕ → Type 0
  Loads fuel room s contents =
      (s' : S) × (load source fuel room s
        ≡ ok (record { bytes = contents; at_end = true; error = none; source = s' }))

  after_call :
      (fuel room : ℕ) (s : S) (contents : List ℕ) (call : ReadOutcome × S)
      → ltb 0 room ≡ true
      → source.read room s ≡ call
      → Gives law.Has law.patience room s contents call
      → length contents < room
      → room + law.patience s < suc fuel
      → ((left : ℕ) (t : S) (more : List ℕ)
          → law.Has t more
          → length more < left
          → left + law.patience t < fuel
          → Loads fuel left t more)
      → Loads (suc fuel) room s contents
  after_call fuel room s contents (got [], s') open_ e (fits, end, rest, split, has, calm) short
        enough later =
      (s', rw (end refl) (load_end source fuel room s s' open_ e))
  after_call fuel room s contents (got (x ∷ xs), s') open_ e (fits, end, rest, split, has, calm)
        short enough later =
      let lengths : length contents ≡ suc (length xs) + length rest =
        ap length split ∙ length-append (x ∷ xs) rest in
      let (t, loaded) =
        later (room - length (x ∷ xs)) s' rest has (omega arith)
          (omega (arith, ltb→lt 0 room open_)) in
      (t, load_more source fuel room x xs s s' open_ e ∙ rw (loaded, split) refl)
  after_call fuel room s contents (interrupted, s') open_ e (has, calmer) short enough later =
      let (t, loaded) = later room s' contents has short (omega arith) in
      (t, load_again source fuel room s s' open_ e ∙ loaded)
  after_call fuel room s contents (failed x, s') open_ e gives short enough later = absurd gives

  pub load_all :
      (fuel room : ℕ) (s : S) (contents : List ℕ)
      → law.Has s contents
      → length contents < room
      → room + law.patience s < fuel
      → Loads fuel room s contents
  load_all zero room s contents has short enough = absurd (omega arith)
  load_all (suc fuel) room s contents has short enough =
      let open_ : 0 < room = omega arith in
      after_call fuel room s contents (source.read room s) (lt→ltb 0 room open_) refl
        (law.gives room s contents open_ has) short enough
        (λ left t more has' short' enough'. load_all fuel left t more has' short' enough')
