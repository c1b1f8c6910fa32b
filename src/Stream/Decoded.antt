-- ===== src/Stream/Decoded.antt =====
-- src/stream.rs, the loop of `decompress` with enough fuel: its outcome is that of a stream.
use lbzip2_rs.Prelude.{
  ℕ, zero, suc, ◌+◌, ◌*◌, ◌-◌, ◌≤◌, ◌<◌, ◌≡◌, refl, sym, ap, ◌∙◌, arith, true, false, Bool-cases,
  inl, inr, List, [], ◌∷◌, ◌++◌, length, none, some, Option-cases, Result, ok, err, panic, ◌==◌,
  ==_iff, ==_false, Anything,
}
use lbzip2_rs.BitStream.{cursor_read}
use lbzip2_rs.BitReader.Defs.{BitReader, position, from_bit_offset, read_u64}
use lbzip2_rs.BitReader.Refill.{Represents}
use lbzip2_rs.BitReader.Refinement.{read_u64-Reads}
use lbzip2_rs.BitReader.Bit.{from_bit_offset-Represents}
use lbzip2_rs.Magic.{block_magic, final_magic}
use lbzip2_rs.Block.Reading.{bind_result}
use lbzip2_rs.Block.Common.{decode_block}
use lbzip2_rs.Block.Steady.{Agree}
use lbzip2_rs.Block.Steady.Blocks.{decode_block-Steady}
use lbzip2_rs.Stream.{decode_blocks}
use lbzip2_rs.Stream.Runs.{
  Runs, truncated, final, unknown, block_err, block_panic, block, prepend, prepend-append,
  cursor_some,
}

-- The value of an outcome, without the reader.
abbrev pub value_of : Result (List ℕ × BitReader) → Result (List ℕ)
value_of (ok (v, r)) = ok v
value_of (err e) = err e
value_of panic = panic

module _ (fuel max_blocksize : ℕ) (output : List ℕ) (r s : BitReader) where
  pub blocks_none :
      read_u64 48 r ≡ (none, s)
      → decode_blocks (suc fuel) max_blocksize output r ≡ err "unexpected end of stream"
  unfolding decode_blocks
  blocks_none e = rw (e, decode_blocks) refl

  pub blocks_block :
      (magic : ℕ)
      → read_u64 48 r ≡ (some magic, s)
      → (magic == block_magic) ≡ true
      → decode_blocks (suc fuel) max_blocksize output r
        ≡ bind_result
            (decode_block max_blocksize s)
            (λ data_. decode_blocks fuel max_blocksize (output ++ data_))
  unfolding decode_blocks
  blocks_block magic e is_block = rw (e, decode_blocks, bind_result) (rw is_block refl)

  pub blocks_final :
      (magic : ℕ)
      → read_u64 48 r ≡ (some magic, s)
      → (magic == block_magic) ≡ false
      → (magic == final_magic) ≡ true
      → decode_blocks (suc fuel) max_blocksize output r ≡ ok (output, s)
  unfolding decode_blocks
  blocks_final magic e other is_final =
      rw (e, decode_blocks, bind_result) (rw (other, is_final) refl)

  pub blocks_unknown :
      (magic : ℕ)
      → read_u64 48 r ≡ (some magic, s)
      → (magic == block_magic) ≡ false
      → (magic == final_magic) ≡ false
      → decode_blocks (suc fuel) max_blocksize output r ≡ err "invalid block magic"
  unfolding decode_blocks
  blocks_unknown magic e other unknown_ =
      rw (e, decode_blocks, bind_result) (rw (other, unknown_) refl)

pub position-Represents :
    (bytes : List ℕ) (r : BitReader) (pos : ℕ) → Represents bytes r pos → position r ≡ pos
position-Represents bytes r pos rep = omega (arith, rep.here)

-- The outcome is that of the stream from `pos` on, behind the output so far.
abbrev pub Decoding : List ℕ → ℕ → ℕ → List ℕ → Result (List ℕ × BitReader) → Type 0
Decoding bytes max_blocksize pos output result =
    (starts : List ℕ) × (outcome : Result (List ℕ)) × Runs bytes max_blocksize pos starts outcome
    × (value_of result ≡ prepend output outcome)

pub output_nil : (output : List ℕ) → output ++ [] ≡ output
output_nil [] = refl
output_nil (x ∷ xs) = ap (λ t. x ∷ t) (output_nil xs)

module _ (bytes : List ℕ) (max_blocksize : ℕ) where
  -- The block decoded by the reader in hand, as by one made for its first bit.
  pub block-Agree :
      (pos : ℕ) (s : BitReader)
      → Represents bytes s pos
      → pos ≤ 8 * length bytes
      → Agree bytes pos Anything
          (decode_block max_blocksize s)
          (decode_block max_blocksize (from_bit_offset bytes pos))
  block-Agree pos s rep within =
      decode_block-Steady max_blocksize bytes pos s (from_bit_offset bytes pos) rep
        (from_bit_offset-Represents bytes pos rep.bytes_ok within)

  behind_block :
      (fuel pos : ℕ) (output : List ℕ) (m n : Result (List ℕ × BitReader))
      → cursor_read bytes pos 48 ≡ some block_magic
      → pos + 48 ≤ 8 * length bytes
      → 8 * length bytes - pos < suc fuel
      → Agree bytes (pos + 48) Anything m n
      → decode_block max_blocksize (from_bit_offset bytes (pos + 48)) ≡ n
      → ((end_ : ℕ) (more : List ℕ) (r : BitReader)
          → Represents bytes r end_
          → 8 * length bytes - end_ < fuel
          → Decoding bytes max_blocksize end_ more (decode_blocks fuel max_blocksize more r))
      → Decoding bytes max_blocksize pos output
          (bind_result m (λ data_. decode_blocks fuel max_blocksize (output ++ data_)))
  behind_block fuel pos output (ok (a, r)) (ok (b, r')) magic fits enough
        (e, _, end_, ge, rep, rep') here more =
      let (starts, outcome, runs, same) = more end_ (output ++ a) r rep (omega arith) in
      let from : position r' ≡ end_ = position-Represents bytes r' end_ rep' in
      (
        pos ∷ starts,
        prepend b outcome,
        block b r' magic here (rw from runs) refl,
        same ∙ prepend-append output a outcome ∙ ap (λ t. prepend output (prepend t outcome)) e,
      )
  behind_block fuel pos output (err e) (err f) magic fits enough agree here more =
      ([], err f, block_err f magic here, ap (λ t. err t) agree)
  behind_block fuel pos output panic panic magic fits enough agree here more =
      ([], panic, block_panic magic here, refl)
  behind_block fuel pos output (ok _) (err _) magic fits enough agree here more = absurd agree
  behind_block fuel pos output (ok _) panic magic fits enough agree here more = absurd agree
  behind_block fuel pos output (err _) (ok _) magic fits enough agree here more = absurd agree
  behind_block fuel pos output (err _) panic magic fits enough agree here more = absurd agree
  behind_block fuel pos output panic (ok _) magic fits enough agree here more = absurd agree
  behind_block fuel pos output panic (err _) magic fits enough agree here more = absurd agree

  pub decode_blocks-Runs :
      (fuel pos : ℕ) (output : List ℕ) (r : BitReader)
      → Represents bytes r pos
      → 8 * length bytes - pos < fuel
      → Decoding bytes max_blocksize pos output (decode_blocks fuel max_blocksize output r)
  decode_blocks-Runs zero pos output r rep enough = absurd (omega arith)
  decode_blocks-Runs (suc fuel) pos output r rep enough =
      let (s, read, at) = read_u64-Reads bytes r pos 48 rep (omega arith) (omega arith) in
      elim (Option-cases (cursor_read bytes pos 48)) [
        | inl nothing ↦
            let read' : read_u64 48 r ≡ (none, s) = rw nothing at read in
            rw (blocks_none fuel max_blocksize output r s read')
              ([], err "unexpected end of stream", truncated nothing, refl)
        | inr (magic, found) ↦
            let read' : read_u64 48 r ≡ (some magic, s) = rw found at read in
            let (fits, next, same) = cursor_some bytes pos 48 magic found in
            elim (Bool-cases (magic == block_magic)) [
              | inl is_block ↦
                  let here : Represents bytes s (pos + 48) = rw next at at in
                  rw (blocks_block fuel max_blocksize output r s magic read' is_block) (
                    behind_block fuel pos output (decode_block max_blocksize s)
                      (decode_block max_blocksize (from_bit_offset bytes (pos + 48)))
                      (found ∙ ap (λ t. some t) ((==_iff magic block_magic).0 is_block)) fits enough
                      (block-Agree (pos + 48) s here fits) refl
                      (λ end_ more r' rep' enough'.
                        decode_blocks-Runs fuel end_ more r' rep' enough'))
              | inr other ↦ elim (Bool-cases (magic == final_magic)) [
                | inl is_final ↦
                    rw (blocks_final fuel max_blocksize output r s magic read' other is_final) (
                      [],
                      ok [],
                      final (found ∙ ap (λ t. some t) ((==_iff magic final_magic).0 is_final)),
                      ap (λ t. ok t) (sym (output_nil output)),
                    )
                | inr neither ↦
                    rw (blocks_unknown fuel max_blocksize output r s magic read' other neither) (
                      [],
                      err "invalid block magic",
                      unknown magic found (==_false magic block_magic other)
                          (==_false magic final_magic neither),
                      refl,
                    )
              ]
            ]
      ]
