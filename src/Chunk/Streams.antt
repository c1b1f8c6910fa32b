-- ===== src/Chunk/Streams.antt =====
-- src/chunk.rs, the end of a stream inside of a segment: what follows depends only on the place.
use lbzip2_rs.Prelude.{
  ℕ, ◌+◌, ◌-◌, ◌*◌, ◌%◌, min, ◌≡◌, refl, sym, ap, ◌∙◌, arith, Bool-cases, inl, inr, List, length,
  Option, none, some, Option-cases, ltb, if◌then◌else◌,
}
use mathlib.Core.Path.{subst}
use lbzip2_rs.BitStream.{cursor_read, cursor_next}
use lbzip2_rs.BitReader.Defs.{BitReader, position, read_u32, skip}
use lbzip2_rs.BitReader.Refill.{Represents}
use lbzip2_rs.BitReader.Refinement.{read_u32-Reads}
use lbzip2_rs.BitReader.Skip.{skip-Represents}
use lbzip2_rs.Stream.Runs.{cursor_some}
use lbzip2_rs.Stream.Decoded.{position-Represents}
use lbzip2_rs.Chunk.Defs.{is_bzh, next_stream}

-- The bits up to the next byte.
abbrev padding : ℕ → ℕ
padding pos = (8 - pos % 8) % 8

-- The specification: the place behind the CRC, the padding and the header of a next stream.
abbrev behind_header : ℕ → Option ℕ → Option ℕ
behind_header place none = none
behind_header place (some h) = if is_bzh h then some (place + 32) else none

abbrev behind_crc : List ℕ → ℕ → Option ℕ → Option ℕ
behind_crc bytes place none = none
behind_crc bytes place (some crc) = behind_header place (cursor_read bytes place 32)

abbrev after_crc : List ℕ → ℕ → ℕ
after_crc bytes pos = min (pos + 32 + padding (pos + 32)) (8 * length bytes)

abbrev pub stream_after : List ℕ → ℕ → Option ℕ
stream_after bytes pos = behind_crc bytes (after_crc bytes pos) (cursor_read bytes pos 32)

-- Nothing, or a reader at the place.
abbrev pub StandsAt : List ℕ → Option BitReader → Option ℕ → Type 0
StandsAt bytes none none = Unit
StandsAt bytes (some r) (some p) = Represents bytes r p
StandsAt bytes none (some p) = ⊥
StandsAt bytes (some r) none = ⊥

pad_reader : BitReader → BitReader
pad_reader r = let pad = (8 - position r % 8) % 8 in if ltb 0 pad then skip pad r else r

pad_reader-Represents :
    (bytes : List ℕ) (r : BitReader) (pos : ℕ)
    → Represents bytes r pos
    → Represents bytes (pad_reader r) (min (pos + padding pos) (8 * length bytes))
unfolding pad_reader
pad_reader-Represents bytes r pos rep =
    let at : position r ≡ pos = position-Represents bytes r pos rep in
    rw at (elim (Bool-cases (ltb 0 (padding pos))) [
      | inl some_ ↦ rw some_ (skip-Represents bytes r pos (padding pos) rep (omega arith))
      | inr none_ ↦
          let e : pos ≡ min (pos + padding pos) (8 * length bytes) =
            ground (arith, rep.here, rep.within) in
          rw none_ (subst (Represents bytes r) e rep)
    ])

-- `next_stream` by what its two reads give.
abbrev on_header : Option ℕ × BitReader → Option BitReader
on_header o = elim o.0 [ none ↦ none | some h ↦ if is_bzh h then some o.1 else none ]

abbrev on_crc : Option ℕ × BitReader → Option BitReader
on_crc o = elim o.0 [ none ↦ none | some _ ↦ on_header (read_u32 32 (pad_reader o.1)) ]

next_stream-on_crc : (r : BitReader) → next_stream r ≡ on_crc (read_u32 32 r)
unfolding next_stream pad_reader
next_stream-on_crc r = refl

on_header-StandsAt :
    (bytes : List ℕ) (place : ℕ) (header : Option ℕ) (r : BitReader)
    → Represents bytes r (cursor_next bytes place 32)
    → cursor_read bytes place 32 ≡ header
    → StandsAt bytes (on_header (header, r)) (behind_header place header)
on_header-StandsAt bytes place none r rep e = tt
on_header-StandsAt bytes place (some h) r rep e =
    let next : cursor_next bytes place 32 ≡ place + 32 = (cursor_some bytes place 32 h e).1 in
    elim (Bool-cases (is_bzh h)) [
      | inl yes_ ↦ rw yes_ (subst (Represents bytes r) next rep)
      | inr no_ ↦ rw no_ tt
    ]

-- For a reader that stands at `pos`, `next_stream` gives a reader behind the CRC, the padding to a
-- byte and the header of the next stream, or nothing where they are not all there.
pub next_stream-StandsAt :
    (bytes : List ℕ) (r : BitReader) (pos : ℕ)
    → Represents bytes r pos
    → StandsAt bytes (next_stream r) (stream_after bytes pos)
next_stream-StandsAt bytes r pos rep =
    let (r1, read, at) = read_u32-Reads bytes r pos 32 rep (omega arith) (omega arith) in
    let here : next_stream r ≡ on_crc (cursor_read bytes pos 32, r1) =
      next_stream-on_crc r ∙ ap on_crc read in
    let after : ℕ = after_crc bytes pos in
    elim (Option-cases (cursor_read bytes pos 32)) [
      | inl missing ↦
          rw here (
            subst (λ o. StandsAt bytes (on_crc (o, r1)) (behind_crc bytes after o)) (sym missing)
              tt)
      | inr (crc, found) ↦
          let next : cursor_next bytes pos 32 ≡ pos + 32 = (cursor_some bytes pos 32 crc found).1 in
          let padded : Represents bytes (pad_reader r1) after =
            pad_reader-Represents bytes r1 (pos + 32) (rw next at at) in
          let (r3, read', at') =
            read_u32-Reads bytes (pad_reader r1) after 32 padded (omega arith) (omega arith) in
          let there : StandsAt bytes (on_header (read_u32 32 (pad_reader r1)))
              (behind_header after (cursor_read bytes after 32)) =
            subst
              (λ o. StandsAt bytes (on_header o) (behind_header after (cursor_read bytes after 32)))
              (sym read')
              (on_header-StandsAt bytes after (cursor_read bytes after 32) r3 at' refl) in
          rw here (
            subst (λ o. StandsAt bytes (on_crc (o, r1)) (behind_crc bytes after o)) (sym found)
              there)
    ]
