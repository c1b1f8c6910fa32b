-- ===== src/Block/Used.antt =====
-- src/block.rs, the header: the bytes in use are bytes, and at most 256.
use lbzip2_rs.Prelude.{
  Anything, ℕ, zero, suc, ◌+◌, ◌*◌, ◌≤◌, ◌≡◌, refl, ap, arith, Bool, true, false, Bool-cases, inl,
  inr, List, [], ◌∷◌, length, length-append, Result, ok, err, panic, ltb, ◌==◌, ◌||◌,
}
use lbzip2_rs.BitReader.Defs.{BitReader, read_bit, read_u8, read_u16}
use lbzip2_rs.BitStream.{IsBytes}
use lbzip2_rs.Mtf
use lbzip2_rs.Block.Reading.{M, bind_result, ok_or, fail_when}
use lbzip2_rs.Block.Header.{
  max_selectors, read_orig_ptr, read_ranges, read_subs, read_used, read_selectors, read_trees,
  read_header,
}
use lbzip2_rs.Block.Tally.{append-IsBytes}
use lbzip2_rs.Block.Safety.{Gives, bind_result-Gives, Gives-Anything, HasBytes}

Gives-weaken :
    {A : Type 0} {P Q : A → Type 0} (m : Result (A × BitReader))
    → Gives P m
    → ((a : A) → P a → Q a)
    → Gives Q m
Gives-weaken (ok (a, r)) h f = f a h
Gives-weaken (err e) h f = tt
Gives-weaken panic h f = tt

-- A step whose value does not matter.
behind :
    {A B : Type 0} (Q : B → Type 0) (m : Result (A × BitReader)) (f : A → M B)
    → ((a : A) (r : BitReader) → Gives Q (f a r))
    → Gives Q (bind_result m f)
behind Q m f h = bind_result-Gives Anything Q m f (Gives-Anything m) (λ a r _. h a r)

read_ranges-length :
    (left : ℕ) (r : BitReader) → Gives (λ ranges. length ranges ≡ left) (read_ranges left r)
unfolding read_ranges
read_ranges-length zero r = refl
read_ranges-length (suc left) r =
    behind (λ ranges. length ranges ≡ suc left) (ok_or read_bit "symbol range truncated" r) _
      λ range r1.
        bind_result-Gives (λ ranges. length ranges ≡ left) (λ ranges. length ranges ≡ suc left)
          (read_ranges left r1) _ (read_ranges-length left r1) λ ranges r2 h. ap suc h

-- The bytes in use: at most 16 for each of the ranges.
read_subs-IsBytes :
    (left sub range_idx : ℕ) (r : BitReader)
    → Gives (λ used. IsBytes used × (length used ≤ left)) (read_subs left sub range_idx r)
unfolding read_subs
read_subs-IsBytes zero sub range_idx r = (tt, omega arith)
read_subs-IsBytes (suc left) sub range_idx r =
    let Few : List ℕ → Type 0 = λ used. IsBytes used × (length used ≤ suc left) in
    let bit : Result (Bool × BitReader) = ok_or read_bit "symbol bitmap truncated" r in
    bind_result-Gives Anything Few bit _ (Gives-Anything bit) λ used r1 _.
      bind_result-Gives (λ rest. IsBytes rest × (length rest ≤ left)) Few
        (read_subs left (sub + 1) range_idx r1) _ (read_subs-IsBytes left (sub + 1) range_idx r1)
        λ rest r2 h. elim (Bool-cases used) [
          | inl yes_ ↦ rw yes_ ((omega arith, h.0), omega (arith, h.1))
          | inr no_ ↦ rw no_ (h.0, omega (arith, h.1))
        ]

read_used-IsBytes :
    (ranges : List Bool) (range_idx : ℕ) (r : BitReader)
    → Gives
        (λ used. IsBytes used × (length used ≤ 16 * length ranges))
        (read_used ranges range_idx r)
unfolding read_used
read_used-IsBytes [] range_idx r = (tt, omega arith)
read_used-IsBytes (false ∷ ranges) range_idx r =
    Gives-weaken (read_used ranges (range_idx + 1) r) (read_used-IsBytes ranges (range_idx + 1) r)
      (λ used h. (h.0, omega (arith, h.1)))
read_used-IsBytes (true ∷ ranges) range_idx r =
    let Few : List ℕ → Type 0 = λ used. IsBytes used × (length used ≤ 16 * suc (length ranges)) in
    bind_result-Gives (λ used. IsBytes used × (length used ≤ 16)) Few (read_subs 16 0 range_idx r) _
      (read_subs-IsBytes 16 0 range_idx r)
      λ used r1 h.
        bind_result-Gives (λ rest. IsBytes rest × (length rest ≤ 16 * length ranges)) Few
          (read_used ranges (range_idx + 1) r1) _ (read_used-IsBytes ranges (range_idx + 1) r1)
          λ rest r2 g.
            (append-IsBytes used rest h.0 g.0, omega (arith, h.1, g.1, length-append used rest))

pub read_header-HasBytes : (r : BitReader) → Gives HasBytes (read_header r)
unfolding read_header
read_header-HasBytes r = behind HasBytes (read_orig_ptr r) _ λ orig_ptr r1.
    bind_result-Gives (λ ranges. length ranges ≡ 16) HasBytes (read_ranges 16 r1) _
      (read_ranges-length 16 r1)
      λ ranges r2 all.
        bind_result-Gives (λ used. IsBytes used × (length used ≤ 16 * length ranges)) HasBytes
          (read_used ranges 0 r2) _ (read_used-IsBytes ranges 0 r2)
          λ used r3 h.
            behind HasBytes (fail_when (length used == 0) "no symbols in block" r3) _ λ _ r4.
              behind HasBytes (ok_or (read_u8 3) "huffman groups truncated" r4) _ λ n_groups r5.
                behind HasBytes
                  (fail_when (ltb n_groups 2 || ltb 6 n_groups) "invalid number of huffman groups"
                    r5)
                  _
                  λ _ r6.
                    behind HasBytes (ok_or (read_u16 15) "selectors_used truncated" r6) _
                      λ n_selectors r7.
                        behind HasBytes
                          (fail_when (ltb max_selectors n_selectors) "too many selectors" r7) _
                          λ _ r8.
                            behind HasBytes (read_selectors n_selectors n_groups Mtf.new r8) _
                              λ selectors r9.
                                behind HasBytes (read_trees n_groups (length used + 2) r9) _
                                  λ trees r10. (h.0, omega (arith, h.1, all))
