-- ===== src/Block/Panics.antt =====
-- src/block.rs: what the header and the symbol loop leave is what the inverse transform and the
-- final run decoding need, so that these read within the vector.
use lbzip2_rs.Prelude.{
  OnOk, ℕ, ◌^◌, ◌≤◌, ◌≡◌, refl, arith, Bool-cases, ◌⊎◌, inl, inr, List, length, ok, err, panic, leb,
  ◌+◌, ◌/◌, ◌<◌, if◌then◌else◌, leb→lt,
}
use mathlib.Core.Path.{subst}
use lbzip2_rs.BitReader.Defs.{BitReader}
use lbzip2_rs.BitStream.{IsBytes}
use lbzip2_rs.Bwt.Buckets.{IsHistogram}
use lbzip2_rs.Bwt.Links.{inverse_bwt-IsLinked, runs-IsLinked}
use lbzip2_rs.Block.Header.{Header, read_header}
use lbzip2_rs.Block.Symbols.{State, decode_symbols}
use lbzip2_rs.Block.Common.{decode_block_common, decode_block, decode_block_into}
use lbzip2_rs.Block.Tally.{IsTallied}
use lbzip2_rs.Block.Safety.{HasBytes, decode_symbols-IsTallied}
use lbzip2_rs.Block.Used.{read_header-HasBytes}

module _ (max_blocksize : ℕ) (r r1 r2 : BitReader) (h : Header) (s : State)
    (fits : max_blocksize ≤ 2 ^ 24) (header : read_header r ≡ ok (h, r1))
    (symbols : decode_symbols max_blocksize h r1 ≡ ok (s, r2)) where
  tallied : IsTallied max_blocksize s
  tallied =
      let good : HasBytes h = subst (OnOk (λ o. HasBytes o.0)) header (read_header-HasBytes r) in
      subst (OnOk (λ o. IsTallied max_blocksize o.0)) symbols
        (decode_symbols-IsTallied max_blocksize h r1 (omega arith) good)

  -- If the header and the symbols of a block decode, for a block size of at most 2 ^ 24, then `tt`
  -- holds bytes, at most as many as the block size, and `c` counts them.
  pub decode_symbols-IsHistogram :
      IsBytes s.tt_ × (length s.tt_ ≤ max_blocksize) × IsHistogram s.tt_ s.c
  decode_symbols-IsHistogram = (tallied.bytes_ok, tallied.within, tallied.tally)

  -- If the header and the symbols of a block decode, for a block size of at most 2 ^ 24, then either
  -- the origin pointer is out of bounds, and `decode_block` and `decode_block_into` give that error,
  -- or the block has an output: `decode_block_into` gives it, and the reader behind the symbols, if
  -- its buffer has room for it, and panics if not, and so does `decode_block` give it, unless it is
  -- more than a quarter longer than the block's symbols.
  pub decode_block_safe :
      ((out : List ℕ) × ((decode_block max_blocksize r ≡ ok (out, r2))
          ⊎ (length s.tt_ + length s.tt_ / 4 < length out))
        × ((cap : ℕ)
            → decode_block_into max_blocksize cap r
              ≡ (if leb (length out) cap then ok (out, r2) else panic)))
      ⊎ ((decode_block max_blocksize r ≡ err "orig_ptr out of bounds")
          × ((cap : ℕ) → decode_block_into max_blocksize cap r ≡ err "orig_ptr out of bounds"))
  unfolding decode_block decode_block_into decode_block_common
  decode_block_safe = elim (Bool-cases (leb (length s.tt_) h.orig_ptr)) [
    | inl out_of_bounds ↦
        inr (
          rw (header, symbols, out_of_bounds) refl,
          λ cap. rw (header, symbols, out_of_bounds) refl,
        )
    | inr in_bounds ↦
        let (tt', t_pos, transformed, within, linked) =
          inverse_bwt-IsLinked s.tt_ tallied.bytes_ok (omega (arith, tallied.within)) h.orig_ptr s.c
            tallied.tally (leb→lt (length s.tt_) h.orig_ptr in_bounds) in
        let (out, alloc, into) = runs-IsLinked s.tt_ tt' t_pos linked within in
        inl (
          out,
          elim alloc [
            | inl decoded ↦ inl (rw (header, symbols, in_bounds, transformed, decoded) refl)
            | inr over ↦ inr over
          ],
          λ cap.
              rw (header, symbols, in_bounds, transformed, into cap)
                (elim (Bool-cases (leb (length out) cap)) [
                  | inl fits ↦ rw fits refl
                  | inr full ↦ rw full refl
                ]),
        )
  ]
