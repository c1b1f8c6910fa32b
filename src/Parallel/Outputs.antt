-- ===== src/Parallel/Outputs.antt =====
-- src/parallel.rs and src/reader.rs: parts of the blocks that decode, and the bytes that they have.
use mathlib.Core.List.{append_assoc}
use mathlib.Core.Path.{subst}
use lbzip2_rs.Prelude.{
  ℕ, zero, suc, ◌+◌, ◌<◌, ◌≡◌, refl, sym, ap, ◌∙◌, arith, List, [], ◌++◌, length, length-append,
  take, drop, OnOk, >>=-OnOk,
}
use lbzip2_rs.BitReader.Defs.{BitReader, from_bit_offset}
use lbzip2_rs.Scan.Defs.{BlockBoundary}
use lbzip2_rs.Block.Common.{decode_block}
use lbzip2_rs.Block.Output.{decode_block-positive}
use lbzip2_rs.Parallel.{decode_at}
use lbzip2_rs.Parallel.Join.{Decodes, no_blocks, block}

-- A prefix of the blocks, and the rest.
pub Decodes-split :
    {bytes : List ℕ} {max_blocksize : ℕ} (k : ℕ) (boundaries : List BlockBoundary) (out : List ℕ)
    → Decodes bytes max_blocksize boundaries out
    → (front rest : List ℕ) × Decodes bytes max_blocksize (take k boundaries) front
      × Decodes bytes max_blocksize (drop k boundaries) rest
      × (out ≡ front ++ rest)
Decodes-split zero boundaries out h = ([], out, no_blocks, h, refl)
Decodes-split (suc k) _ _ no_blocks = ([], [], no_blocks, no_blocks, refl)
Decodes-split (suc k) _ _ (block {boundary} {boundaries} data_ {out} here h) =
    let (front, rest, first, second, e) = Decodes-split k boundaries out h in
    (
      data_ ++ front,
      rest,
      block data_ here first,
      second,
      ap (λ t. data_ ++ t) e ∙ sym (append_assoc data_ front rest),
    )

decode_at-positive :
    (bytes : List ℕ) (max_blocksize : ℕ) (boundary : BlockBoundary)
    → OnOk (λ out. 0 < length out) (decode_at bytes max_blocksize boundary)
unfolding decode_at
decode_at-positive bytes max_blocksize boundary =
    let at : BitReader = from_bit_offset bytes (boundary.bit_offset + 48) in
    >>=-OnOk (λ o. 0 < length o.0) (λ out. 0 < length out) (decode_block max_blocksize at) _
      (decode_block-positive max_blocksize at) (λ decoded h. h)

pub Decodes-positive :
    {bytes : List ℕ} {max_blocksize : ℕ} (boundaries : List BlockBoundary) (out : List ℕ)
    → Decodes bytes max_blocksize boundaries out
    → 0 < length boundaries
    → 0 < length out
Decodes-positive _ _ no_blocks some_ = absurd (omega arith)
Decodes-positive {bytes} {max_blocksize} _ _ (block {boundary} data_ {out} here h) some_ =
    let first : 0 < length data_ =
      subst (OnOk (λ o. 0 < length o)) here (decode_at-positive bytes max_blocksize boundary) in
    omega (arith, first, length-append data_ out)

pub Decodes-nothing :
    {bytes : List ℕ} {max_blocksize : ℕ} (boundaries : List BlockBoundary) (out : List ℕ)
    → Decodes bytes max_blocksize boundaries out
    → length boundaries ≡ 0
    → length out ≡ 0
Decodes-nothing _ _ no_blocks none_ = refl
Decodes-nothing _ _ (block data_ here h) none_ = absurd (omega arith)
