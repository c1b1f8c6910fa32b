-- ===== src/Stream/Layout.antt =====
-- src/stream.rs: where the blocks of a stream that decodes stand.
use lbzip2_rs.Prelude.{
  ℕ, ◌+◌, ◌*◌, ◌≤◌, ◌<◌, ◌≡◌, refl, sym, ◌∙◌, arith, ◌⊎◌, inl, inr, List, [], ◌∷◌, ◌++◌, map,
  length, All, All-weaken, Result, ok, err, panic,
}
use lbzip2_rs.BitStream.{IsBytes}
use lbzip2_rs.BitReader.Defs.{position, from_bit_offset}
use lbzip2_rs.BitReader.Bit.{from_bit_offset-Represents}
use lbzip2_rs.Magic.{HasMagic, block_magic, final_magic}
use lbzip2_rs.Scan.Defs.{BlockBoundary}
use lbzip2_rs.Scan.All.{Covers}
use lbzip2_rs.Scan.Merge.{IsIncreasing}
use lbzip2_rs.Block.Common.{decode_block}
use lbzip2_rs.Stream.Runs.{
  Runs, truncated, final, unknown, block_err, block_panic, block, prepend, cursor_some,
}
use lbzip2_rs.Stream.Decoded.{block-Agree}
use lbzip2_rs.Stream.Outcome.{Agree-ok}

-- The bits are in order from `lo` on, each 48 or more behind the one before.
abbrev pub AreSpaced : ℕ → List ℕ → Type 0
AreSpaced lo [] = Unit
AreSpaced lo (p ∷ ps) = (lo ≤ p) × AreSpaced (p + 48) ps

AreSpaced-mono : (lo hi : ℕ) (ps : List ℕ) → lo ≤ hi → AreSpaced hi ps → AreSpaced lo ps
AreSpaced-mono lo hi [] le h = tt
AreSpaced-mono lo hi (p ∷ ps) le h = (omega (arith, h.0), h.1)

AreSpaced-All : (lo : ℕ) (ps : List ℕ) → AreSpaced lo ps → All (λ p. lo ≤ p) ps
AreSpaced-All lo [] h = tt
AreSpaced-All lo (p ∷ ps) h =
    (h.0, All-weaken ps (λ q le. omega (arith, h.0)) (AreSpaced-All (p + 48) ps h.1))

-- One of the bits is `p`.
abbrev pub IsStart : List ℕ → ℕ → Type 0
IsStart [] p = ⊥
IsStart (q ∷ qs) p = (p ≡ q) ⊎ IsStart qs p

IsStart-ge : (lo : ℕ) (ps : List ℕ) (p : ℕ) → AreSpaced lo ps → IsStart ps p → lo ≤ p
IsStart-ge lo [] p h at = absurd at
IsStart-ge lo (q ∷ qs) p h (inl here) = omega (arith, h.0)
IsStart-ge lo (q ∷ qs) p h (inr later) = omega (arith, h.0, IsStart-ge (q + 48) qs p h.1 later)

pub prepend-eq-ok :
    (xs : List ℕ) (o : Result (List ℕ)) (out : List ℕ)
    → prepend xs o ≡ ok out
    → (rest : List ℕ) × (o ≡ ok rest) × (out ≡ xs ++ rest)
prepend-eq-ok xs (ok ys) out e = (ys, refl, cc)
prepend-eq-ok xs (err x) out e = cc
prepend-eq-ok xs panic out e = cc

-- Of a stream that decodes, the blocks are block magics in order, that do not overlap, and a
-- further magic has room behind each.
pub Runs-AreSpaced :
    (bytes : List ℕ) (max_blocksize pos : ℕ) (starts out : List ℕ) (outcome : Result (List ℕ))
    → IsBytes bytes
    → Runs bytes max_blocksize pos starts outcome
    → outcome ≡ ok out
    → AreSpaced pos starts
      × All (λ p. (p + 96 ≤ 8 * length bytes) × HasMagic bytes p) starts
      × (pos + 48 ≤ 8 * length bytes)
Runs-AreSpaced bytes size pos _ out _ bytes_ok (truncated nothing) e = cc
Runs-AreSpaced bytes size pos _ out _ bytes_ok (final found) e =
    (tt, tt, (cursor_some bytes pos 48 final_magic found).0)
Runs-AreSpaced bytes size pos _ out _ bytes_ok (unknown magic found other neither) e = cc
Runs-AreSpaced bytes size pos _ out _ bytes_ok (block_err x found fails) e = cc
Runs-AreSpaced bytes size pos _ out _ bytes_ok (block_panic found fails) e = cc
Runs-AreSpaced bytes size pos _ out outcome bytes_ok
      (block {starts} {rest} data_ r found decoded runs whole) e =
    let (fits, next, magic) = cursor_some bytes pos 48 block_magic found in
    let here = from_bit_offset-Represents bytes (pos + 48) bytes_ok fits in
    let (s, same, ge, there) =
      Agree-ok bytes (pos + 48) (decode_block size (from_bit_offset bytes (pos + 48)))
        (decode_block size (from_bit_offset bytes (pos + 48))) data_ r
        (block-Agree bytes size (pos + 48) (from_bit_offset bytes (pos + 48)) here fits) decoded in
    let (later, rest_ok, split) = prepend-eq-ok data_ rest out (sym whole ∙ e) in
    let (spaced, all, room) =
      Runs-AreSpaced bytes size (position r) starts later rest bytes_ok runs rest_ok in
    (
      (omega arith, AreSpaced-mono (pos + 48) (position r) starts ge spaced),
      ((omega arith, magic), all),
      fits,
    )

abbrev pub offset_of : BlockBoundary → ℕ
offset_of b = b.bit_offset

Covers-above :
    (bs : List BlockBoundary) (lo p : ℕ) → All (λ c. lo < c.bit_offset) bs → Covers bs p → lo < p
Covers-above [] lo p h covers = absurd covers
Covers-above (b ∷ bs) lo p h (inl here) = omega (arith, h.0, here.0)
Covers-above (b ∷ bs) lo p h (inr later) = Covers-above bs lo p h.1 later

drop-IsStart :
    (p : ℕ) (ps : List ℕ) (bs : List BlockBoundary)
    → All (λ b. p < b.bit_offset) bs
    → All (λ b. IsStart (p ∷ ps) b.bit_offset) bs
    → All (λ b. IsStart ps b.bit_offset) bs
drop-IsStart p ps [] above h = tt
drop-IsStart p ps (b ∷ bs) above h = (
  elim h.0 [ inl here ↦ absurd (omega (arith, here, above.0)) | inr later ↦ later ],
  drop-IsStart p ps bs above.1 h.1,
)

drop_cover :
    (b : BlockBoundary) (bs : List BlockBoundary) (ps : List ℕ)
    → All (λ q. b.bit_offset + 48 ≤ q) ps
    → All (Covers (b ∷ bs)) ps
    → All (Covers bs) ps
drop_cover b bs [] above h = tt
drop_cover b bs (q ∷ ps) above h = (
  elim h.0 [ inl here ↦ absurd (omega (arith, here.1, above.0)) | inr later ↦ later ],
  drop_cover b bs ps above.1 h.1,
)

-- Boundaries in order that are all starts, and cover all starts, are the starts.
pub boundaries-starts :
    (lo : ℕ) (starts : List ℕ) (bs : List BlockBoundary)
    → AreSpaced lo starts
    → IsIncreasing bs
    → All (λ b. IsStart starts b.bit_offset) bs
    → All (Covers bs) starts
    → map offset_of bs ≡ starts
boundaries-starts lo [] [] spaced increasing are covers = refl
boundaries-starts lo (p ∷ ps) [] spaced increasing are covers = absurd covers.0
boundaries-starts lo [] (b ∷ bs) spaced increasing are covers = absurd are.0
boundaries-starts lo (p ∷ ps) (b ∷ bs) spaced increasing are covers =
    let first : b.bit_offset ≡ p = elim are.0 [
      | inl here ↦ here
      | inr later ↦
          let behind : p + 48 ≤ b.bit_offset = IsStart-ge (p + 48) ps b.bit_offset spaced.1 later in
          elim covers.0 [
            | inl here ↦ absurd (omega (arith, behind, here.0))
            | inr other ↦
                absurd (omega (arith, behind, Covers-above bs b.bit_offset p increasing.0 other))
          ]
    ] in
    let above : All (λ c. p < c.bit_offset) bs =
      All-weaken bs (λ c lt. omega (arith, first)) increasing.0 in
    let apart : All (λ q. b.bit_offset + 48 ≤ q) ps =
      All-weaken ps (λ q le. omega (arith, first)) (AreSpaced-All (p + 48) ps spaced.1) in
    let rest : map offset_of bs ≡ ps =
      boundaries-starts (p + 48) ps bs spaced.1 increasing.1 (drop-IsStart p ps bs above are.1)
        (drop_cover b bs ps apart covers.1) in
    rw (first, rest) refl
