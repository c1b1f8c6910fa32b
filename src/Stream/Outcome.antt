-- ===== src/Stream/Outcome.antt =====
-- src/stream.rs: the stream decides what `decompress` gives, and `decompress` always gives that.
use lbzip2_rs.Prelude.{
  ◌↔◌, ℕ, zero, suc, ◌+◌, ◌*◌, ◌-◌, ◌≤◌, ◌<◌, ◌≡◌, ◌≢◌, refl, sym, ap, ◌∙◌, arith, true, false,
  Bool-cases, inl, inr, List, [], ◌++◌, length, none, some, Result, ok, err, panic, ◌>>=◌, ltb,
  ltb→le, ◌==◌, ==_iff, Anything,
}
use lbzip2_rs.BitStream.{IsBytes}
use lbzip2_rs.BitReader.Defs.{BitReader, position, remaining, from_bit_offset, read_u64}
use lbzip2_rs.BitReader.Refill.{Represents}
use lbzip2_rs.BitReader.Refinement.{read_u64-Reads}
use lbzip2_rs.BitReader.Bit.{from_bit_offset-Represents}
use lbzip2_rs.Magic.{block_magic, final_magic}
use lbzip2_rs.Block.Common.{decode_block}
use lbzip2_rs.Block.Steady.{Agree, remaining-Represents}
use lbzip2_rs.Stream.{parse_header, decode_blocks, decompress}
use lbzip2_rs.Stream.Runs.{
  Runs, truncated, final, unknown, block_err, block_panic, block, prepend, prepend-append,
  prepend-nil, cursor_some,
}
use lbzip2_rs.Stream.Decoded.{
  value_of, blocks_none, blocks_block, blocks_final, blocks_unknown, block-Agree,
  decode_blocks-Runs, output_nil, position-Represents,
}

module _ (bytes : List ℕ) where
  -- What a reader in hand gives, from what the reader made for the bit gives.
  pub Agree-ok :
      (pos : ℕ) (m n : Result (List ℕ × BitReader)) (b : List ℕ) (r' : BitReader)
      → Agree bytes pos Anything m n
      → n ≡ ok (b, r')
      → (s : BitReader) × (m ≡ ok (b, s)) × (pos ≤ position r') × Represents bytes s (position r')
  Agree-ok pos (ok (a, s)) (ok (c, s')) b r' (e, _, end_, ge, rep, rep') same =
      let value : c ≡ b = ap (value_at c) same in
      let reader : s' ≡ r' = ap (reader_at s') same in
      let from : position r' ≡ end_ = rw (← reader) (position-Represents bytes s' end_ rep') in
      (s, rw (e, value) refl, rw from ge, rw from rep)
    where
      value_at : List ℕ → Result (List ℕ × BitReader) → List ℕ
      value_at d (ok (x, y)) = x
      value_at d (err x) = d
      value_at d panic = d

      reader_at : BitReader → Result (List ℕ × BitReader) → BitReader
      reader_at d (ok (x, y)) = y
      reader_at d (err x) = d
      reader_at d panic = d
  Agree-ok pos (ok _) (err _) b r' agree same = absurd agree
  Agree-ok pos (ok _) panic b r' agree same = absurd agree
  Agree-ok pos (err _) (ok _) b r' agree same = absurd agree
  Agree-ok pos (err _) (err _) b r' agree same = cc
  Agree-ok pos (err _) panic b r' agree same = absurd agree
  Agree-ok pos panic (ok _) b r' agree same = absurd agree
  Agree-ok pos panic (err _) b r' agree same = absurd agree
  Agree-ok pos panic panic b r' agree same = cc

  Agree-err :
      (pos : ℕ) (m n : Result (List ℕ × BitReader)) (e : _)
      → Agree bytes pos Anything m n
      → n ≡ err e
      → m ≡ err e
  Agree-err pos (err f) (err g) e agree same = rw agree same
  Agree-err pos (ok _) (err _) e agree same = absurd agree
  Agree-err pos (ok _) (ok _) e agree same = cc
  Agree-err pos (ok _) panic e agree same = absurd agree
  Agree-err pos (err _) (ok _) e agree same = absurd agree
  Agree-err pos (err _) panic e agree same = absurd agree
  Agree-err pos panic (ok _) e agree same = absurd agree
  Agree-err pos panic (err _) e agree same = absurd agree
  Agree-err pos panic panic e agree same = cc

  Agree-panic :
      (pos : ℕ) (m n : Result (List ℕ × BitReader))
      → Agree bytes pos Anything m n
      → n ≡ panic
      → m ≡ panic
  Agree-panic pos panic n agree same = refl
  Agree-panic pos (ok _) (ok _) agree same = cc
  Agree-panic pos (ok _) (err _) agree same = absurd agree
  Agree-panic pos (ok _) panic agree same = absurd agree
  Agree-panic pos (err _) (ok _) agree same = absurd agree
  Agree-panic pos (err _) (err _) agree same = cc
  Agree-panic pos (err _) panic agree same = absurd agree

==_true : (a b : ℕ) → a ≡ b → (a == b) ≡ true
==_true a b e = (==_iff a b).1 e

==_not : (a b : ℕ) → a ≢ b → (a == b) ≡ false
==_not a b ne = elim (Bool-cases (a == b)) [
  | inl same ↦ absurd (ne ((==_iff a b).0 same))
  | inr differs ↦ differs
]

module _ (bytes : List ℕ) (max_blocksize : ℕ) where
  -- The loop with enough fuel gives the outcome of the stream, behind the output so far.
  Runs-decode_blocks :
      (fuel pos : ℕ) (starts output : List ℕ) (outcome : Result (List ℕ)) (r : BitReader)
      → Runs bytes max_blocksize pos starts outcome
      → Represents bytes r pos
      → 8 * length bytes - pos < fuel
      → value_of (decode_blocks fuel max_blocksize output r) ≡ prepend output outcome
  Runs-decode_blocks zero pos starts output outcome r runs rep enough = absurd (omega arith)
  Runs-decode_blocks (suc fuel) pos _ output _ r (truncated nothing) rep enough =
      let (s, read, at) = read_u64-Reads bytes r pos 48 rep (omega arith) (omega arith) in
      let read' : read_u64 48 r ≡ (none, s) = rw nothing at read in
      rw (blocks_none fuel max_blocksize output r s read') refl
  Runs-decode_blocks (suc fuel) pos _ output _ r (final found) rep enough =
      let (s, read, at) = read_u64-Reads bytes r pos 48 rep (omega arith) (omega arith) in
      let read' : read_u64 48 r ≡ (some final_magic, s) = rw found at read in
      rw (blocks_final fuel max_blocksize output r s final_magic read' refl refl)
        (ap (λ t. ok t) (sym (output_nil output)))
  Runs-decode_blocks (suc fuel) pos _ output _ r (unknown magic found other neither) rep enough =
      let (s, read, at) = read_u64-Reads bytes r pos 48 rep (omega arith) (omega arith) in
      let read' : read_u64 48 r ≡ (some magic, s) = rw found at read in
      rw
        (blocks_unknown fuel max_blocksize output r s magic read' (==_not magic block_magic other)
          (==_not magic final_magic neither))
        refl
  Runs-decode_blocks (suc fuel) pos _ output _ r (block_err e found fails) rep enough =
      let (s, read, at) = read_u64-Reads bytes r pos 48 rep (omega arith) (omega arith) in
      let read' : read_u64 48 r ≡ (some block_magic, s) = rw found at read in
      let (fits, next, same) = cursor_some bytes pos 48 block_magic found in
      let here : Represents bytes s (pos + 48) = rw next at at in
      rw
        (
          blocks_block fuel max_blocksize output r s block_magic read' refl,
          Agree-err bytes (pos + 48) (decode_block max_blocksize s)
              (decode_block max_blocksize (from_bit_offset bytes (pos + 48))) e
              (block-Agree bytes max_blocksize (pos + 48) s here fits) fails,
        )
        refl
  Runs-decode_blocks (suc fuel) pos _ output _ r (block_panic found fails) rep enough =
      let (s, read, at) = read_u64-Reads bytes r pos 48 rep (omega arith) (omega arith) in
      let read' : read_u64 48 r ≡ (some block_magic, s) = rw found at read in
      let (fits, next, same) = cursor_some bytes pos 48 block_magic found in
      let here : Represents bytes s (pos + 48) = rw next at at in
      rw
        (
          blocks_block fuel max_blocksize output r s block_magic read' refl,
          Agree-panic bytes (pos + 48) (decode_block max_blocksize s)
              (decode_block max_blocksize (from_bit_offset bytes (pos + 48)))
              (block-Agree bytes max_blocksize (pos + 48) s here fits) fails,
        )
        refl
  Runs-decode_blocks (suc fuel) pos _ output outcome r
        (block {starts} {rest} data_ r' found decoded runs whole) rep enough =
      let (s, read, at) = read_u64-Reads bytes r pos 48 rep (omega arith) (omega arith) in
      let read' : read_u64 48 r ≡ (some block_magic, s) = rw found at read in
      let (fits, next, same) = cursor_some bytes pos 48 block_magic found in
      let here : Represents bytes s (pos + 48) = rw next at at in
      let (t, first, ge, there) =
        Agree-ok bytes (pos + 48) (decode_block max_blocksize s)
          (decode_block max_blocksize (from_bit_offset bytes (pos + 48))) data_ r'
          (block-Agree bytes max_blocksize (pos + 48) s here fits) decoded in
      rw (blocks_block fuel max_blocksize output r s block_magic read' refl, first)
        (Runs-decode_blocks fuel (position r') starts (output ++ data_) rest t runs there
            (omega arith)
          ∙ prepend-append output data_ rest
          ∙ ap (prepend output) (sym whole))

header_short :
    (bytes : List ℕ)
    → ltb (length bytes) 4 ≡ true
    → parse_header bytes ≡ err "input too short for bzip2 header"
unfolding parse_header
header_short bytes short = rw (short, parse_header) refl

header-length : (bytes : List ℕ) (size : ℕ) → parse_header bytes ≡ ok size → 4 ≤ length bytes
header-length bytes size e = elim (Bool-cases (ltb (length bytes) 4)) [
  | inl short ↦
      let clash : ◌≡◌ {A = Result ℕ} (err "input too short for bzip2 header") (ok size) =
        sym (header_short bytes short) ∙ e in
      absurd cc
  | inr long ↦ ltb→le (length bytes) 4 long
]

value_of_bind : (m : Result (List ℕ × BitReader)) → (m >>= λ decoded. ok decoded.0) ≡ value_of m
value_of_bind (ok (v, r)) = refl
value_of_bind (err e) = refl
value_of_bind panic = refl

decompress_value :
    (bytes : List ℕ) (max_blocksize : ℕ)
    → parse_header bytes ≡ ok max_blocksize
    → decompress bytes
      ≡ value_of (
          decode_blocks
            (suc (remaining (from_bit_offset bytes 32)))
            max_blocksize
            []
            (from_bit_offset bytes 32))
unfolding decompress
decompress_value bytes max_blocksize header =
    rw (header, decompress)
      (value_of_bind (
        decode_blocks (suc (remaining (from_bit_offset bytes 32))) max_blocksize []
          (from_bit_offset bytes 32)))

-- For bytes whose header gives a block size, `decompress` has an outcome, an error or a panic
-- included, exactly when the stream behind the header has it. So the loop never runs out of its
-- fuel, each block is decoded as by a reader made for its first bit, and the errors are those of
-- the first magic that is missing or wrong, or of the first block that does not decode.
pub decompress-Runs :
    (bytes : List ℕ) (max_blocksize : ℕ) (outcome : Result (List ℕ))
    → IsBytes bytes
    → parse_header bytes ≡ ok max_blocksize
    → (decompress bytes ≡ outcome)
      ↔ ((starts : List ℕ) × Runs bytes max_blocksize 32 starts outcome)
decompress-Runs bytes max_blocksize outcome bytes_ok header =
    let r : BitReader = from_bit_offset bytes 32 in
    let four : 4 ≤ length bytes = header-length bytes max_blocksize header in
    let rep : Represents bytes r 32 = from_bit_offset-Represents bytes 32 bytes_ok (omega arith) in
    let enough : 8 * length bytes - 32 < suc (remaining r) =
      omega (arith, remaining-Represents bytes r 32 rep) in
    let fuel : ℕ = suc (remaining r) in
    let value = decompress_value bytes max_blocksize header in
    (
      λ e.
          let (starts, o, runs, same) =
            decode_blocks-Runs bytes max_blocksize fuel 32 [] r rep enough in
          let all : o ≡ outcome = sym (prepend-nil o) ∙ sym same ∙ sym value ∙ e in
          (starts, rw (← all) runs),
      λ (starts, runs).
          value
          ∙ Runs-decode_blocks bytes max_blocksize fuel 32 starts [] outcome r runs rep enough
          ∙ prepend-nil outcome,
    )
