-- ===== src/Source.antt =====
-- What src/reader.rs and src/bin/lbunzip2.rs use of `std::io::Read`: a source is a type of states
-- with its methods, which are not code of the repository. `Chunks` is about the loop that fills a
-- buffer from a source.
pub mod Chunks
use lbzip2_rs.Prelude.{
  ℕ, zero, suc, ◌-◌, ◌≤◌, ◌<◌, ◌≡◌, ◌≢◌, true, false, List, [], ◌∷◌, ◌++◌, length, Option, String,
  Result, ok, panic, ◌>>=◌, ltb,
}

-- What a call of `read` gives: the bytes that it has put into the buffer (none at the end of the
-- source), or an error, whose kind is `Interrupted` or not.
pub data ReadOutcome : Type 0 where
  got : List ℕ → ReadOutcome
  interrupted : ReadOutcome
  failed : String → ReadOutcome

-- `read` is given the length of the buffer; `read_exact` gives all the bytes asked for, or nothing.
pub record Source (S : Type 0) : Type 0 where
  pub read : ℕ → S → ReadOutcome × S
  pub read_exact : ℕ → S → Option (List ℕ) × S

module _ {S : Type 0} where
  -- A call on a source with `contents` to give: bytes off the front, at least one if the buffer
  -- has room and there are any, or an interruption.
  abbrev pub Gives : (S → List ℕ → Type 0) → (S → ℕ) → ℕ → S → List ℕ → ReadOutcome × S → Type 0
  Gives Has patience room s contents (got xs, s') =
      (length xs ≤ room)
      × (xs ≡ [] → contents ≡ [])
      × (rest : List ℕ) × (contents ≡ xs ++ rest)
      × Has s' rest
      × (patience s' ≤ patience s)
  Gives Has patience room s contents (interrupted, s') =
      Has s' contents × (patience s' < patience s)
  Gives Has patience room s contents (failed e, s') = ⊥

-- What is documented of `read`, for a source that does not fail, and that is interrupted only so
-- often.
pub record IsSource (S : Type 0) (source : Source S) : Type 1 where
  pub Has : S → List ℕ → Type 0
  pub patience : S → ℕ
  pub gives :
      (room : ℕ) (s : S) (contents : List ℕ)
      → 0 < room
      → Has s contents
      → Gives Has patience room s contents (source.read room s)

module _ {S : Type 0} (source : Source S) where
  -- `read_chunk` of src/bin/lbunzip2.rs, with `room` bytes of the buffer left: the bytes read. An
  -- error is printed and ends it. A source that interrupts for ever is a loop out of its fuel.
  unfoldable pub read_chunk : ℕ → ℕ → S → Result (List ℕ × S)
  read_chunk zero room s = panic
  read_chunk (suc fuel) room s = elim (ltb 0 room) [
    | false ↦ ok ([], s)
    | true ↦
        let (outcome, s') = source.read room s in
        elim outcome [
          | got xs ↦ elim xs [
            | [] ↦ ok ([], s')
            | x ∷ more ↦ do
              rest ← read_chunk fuel (room - length (x ∷ more)) s'
              ok ((x ∷ more) ++ rest.0, rest.1)
          ]
          | interrupted ↦ read_chunk fuel room s'
          | failed e ↦ ok ([], s')
        ]
  ]
