-- ===== src/Stream/Runs.antt =====
-- What src/stream.rs takes a stream to be: at a bit of the input stands a magic; behind a block
-- magic a block, and behind that block the rest of the stream.
use lbzip2_rs.Prelude.{
  ℕ, ◌+◌, ◌*◌, ◌≤◌, ◌≡◌, ◌≢◌, refl, ap, Bool-cases, inl, inr, List, [], ◌∷◌, ◌++◌, length, none,
  some, Result, ok, err, panic, leb, leb→le,
}
use mathlib.Core.List.{append_assoc}
use lbzip2_rs.BitStream.{stream_bit, field, cursor_read, cursor_next}
use lbzip2_rs.BitReader.Defs.{BitReader, position, from_bit_offset}
use lbzip2_rs.Magic.{block_magic, final_magic}
use lbzip2_rs.Block.Common.{decode_block}

-- An outcome with `xs` in front of its output.
abbrev pub prepend : List ℕ → Result (List ℕ) → Result (List ℕ)
prepend xs (ok ys) = ok (xs ++ ys)
prepend xs (err e) = err e
prepend xs panic = panic

pub prepend-append :
    (xs ys : List ℕ) (o : Result (List ℕ)) → prepend (xs ++ ys) o ≡ prepend xs (prepend ys o)
prepend-append xs ys (ok zs) = ap (λ t. ok t) (append_assoc xs ys zs)
prepend-append xs ys (err e) = refl
prepend-append xs ys panic = refl

pub prepend-nil : (o : Result (List ℕ)) → prepend [] o ≡ o
prepend-nil (ok zs) = refl
prepend-nil (err e) = refl
prepend-nil panic = refl

-- From a bit on, the blocks of the stream stand at the bits listed, and the outcome is as given.
pub data Runs (bytes : List ℕ) (max_blocksize : ℕ) : ℕ → List ℕ → Result (List ℕ) → Type 0 where
  truncated :
      {pos : ℕ}
      → cursor_read bytes pos 48 ≡ none
      → Runs bytes max_blocksize pos [] (err "unexpected end of stream")
  final :
      {pos : ℕ}
      → cursor_read bytes pos 48 ≡ some final_magic
      → Runs bytes max_blocksize pos [] (ok [])
  unknown :
      {pos : ℕ} (magic : ℕ)
      → cursor_read bytes pos 48 ≡ some magic
      → magic ≢ block_magic
      → magic ≢ final_magic
      → Runs bytes max_blocksize pos [] (err "invalid block magic")
  block_err :
      {pos : ℕ} (e : _)
      → cursor_read bytes pos 48 ≡ some block_magic
      → decode_block max_blocksize (from_bit_offset bytes (pos + 48)) ≡ err e
      → Runs bytes max_blocksize pos [] (err e)
  block_panic :
      {pos : ℕ}
      → cursor_read bytes pos 48 ≡ some block_magic
      → decode_block max_blocksize (from_bit_offset bytes (pos + 48)) ≡ panic
      → Runs bytes max_blocksize pos [] panic
  block :
      {pos : ℕ} {starts : List ℕ} {rest outcome : Result (List ℕ)} (data_ : List ℕ) (r : BitReader)
      → cursor_read bytes pos 48 ≡ some block_magic
      → decode_block max_blocksize (from_bit_offset bytes (pos + 48)) ≡ ok (data_, r)
      → Runs bytes max_blocksize (position r) starts rest
      → outcome ≡ prepend data_ rest
      → Runs bytes max_blocksize pos (pos ∷ starts) outcome

-- A read that gives something has the bits, and moves behind them.
pub cursor_some :
    (bytes : List ℕ) (pos n v : ℕ)
    → cursor_read bytes pos n ≡ some v
    → (pos + n ≤ 8 * length bytes)
      × (cursor_next bytes pos n ≡ pos + n)
      × (field (stream_bit bytes) pos n ≡ v)
cursor_some bytes pos n v e = elim (Bool-cases (leb (pos + n) (8 * length bytes))) [
  | inl fits ↦
      let e' : some (field (stream_bit bytes) pos n) ≡ some v = rw fits at e in
      rw fits (leb→le (pos + n) (8 * length bytes) fits, refl, cc)
  | inr out ↦ let e' : none ≡ some v = rw out at e in absurd cc
]
