-- ===== src/Block/Steady/Fields.antt =====
-- src/block.rs, the header fields as steps of a chain of reads, and the trees that they give.
use lbzip2_rs.Prelude.{
  ℕ, zero, suc, ◌+◌, ◌-◌, ◌*◌, ◌≤◌, refl, arith, Bool, true, false, ◌||◌, List, [], ◌∷◌, All,
  length, Result, ok, err, panic, String, ltb, leb, ◌==◌, if◌then◌else◌, OnOk, Anything,
}
use lbzip2_rs.BitStream.{cursor_read}
use lbzip2_rs.BitReader.Defs.{remaining, read_bit, read_u8, read_u16, read_u32}
use lbzip2_rs.BitReader.Refinement.{read_u8-Reads, read_u16-Reads, read_u32-Reads}
use lbzip2_rs.BitReader.Bit.{read_bit-Reads, to_flag}
use lbzip2_rs.Huffman.Tree.{HuffmanTree}
use lbzip2_rs.Huffman.Build.{from_lengths}
use lbzip2_rs.Huffman.Fast.{IsFast, from_lengths-IsFast}
use lbzip2_rs.Mtf
use lbzip2_rs.Block.Reading.{M, ◌>>=◌, return, fail, fail_when, ok_or, lift}
use lbzip2_rs.Block.Header.{
  max_selectors, read_orig_ptr, read_ranges, read_subs, read_used, read_selector, read_selectors,
  adjust_length, read_lengths, tree_or_err, read_trees, Header, read_header,
}
use lbzip2_rs.Block.Steady.{
  Steady, >>=-Steady, return-Steady, lift-Steady, fail_when-Steady, test-Steady, stuck-Steady,
  ok_or-Steady, remaining-Represents,
}

-- A step whose value does not matter.
pub behind :
    {A B : Type 0} (Q : B → Type 0) (m : M A) (f : A → M B)
    → Steady Anything m
    → ((a : A) → Steady Q (f a))
    → Steady Q (m >>= f)
behind Q m f h g = >>=-Steady Anything Q m f h (λ a _. g a)

-- The last step, whose value is put away.
behind_return :
    {A B : Type 0} (m : M A) (f : A → B)
    → Steady Anything m
    → Steady Anything (m >>= λ a. return (f a))
behind_return m f h = behind Anything m (λ a. return (f a)) h (λ a. return-Steady Anything (f a) tt)

bit-Steady : (e : String) → Steady Anything (ok_or read_bit e)
bit-Steady e =
    ok_or-Steady 1 (λ bytes pos. to_flag (cursor_read bytes pos 1)) read_bit e read_bit-Reads

u32-Steady : (n : ℕ) (e : String) → 1 ≤ n → n ≤ 32 → Steady Anything (ok_or (read_u32 n) e)
u32-Steady n e pos_n le =
    ok_or-Steady n (λ bytes pos. cursor_read bytes pos n) (read_u32 n) e
      (λ bytes r pos rep. read_u32-Reads bytes r pos n rep pos_n le)

u16-Steady : (n : ℕ) (e : String) → 1 ≤ n → n ≤ 16 → Steady Anything (ok_or (read_u16 n) e)
u16-Steady n e pos_n le =
    ok_or-Steady n (λ bytes pos. cursor_read bytes pos n) (read_u16 n) e
      (λ bytes r pos rep. read_u16-Reads bytes r pos n rep pos_n le)

u8-Steady : (n : ℕ) (e : String) → 1 ≤ n → n ≤ 8 → Steady Anything (ok_or (read_u8 n) e)
u8-Steady n e pos_n le =
    ok_or-Steady n (λ bytes pos. cursor_read bytes pos n) (read_u8 n) e
      (λ bytes r pos rep. read_u8-Reads bytes r pos n rep pos_n le)

read_orig_ptr-Steady : Steady Anything read_orig_ptr
unfolding read_orig_ptr
read_orig_ptr-Steady =
    behind Anything (ok_or (read_u32 32) "block CRC truncated") _
      (u32-Steady 32 "block CRC truncated" (omega arith) (omega arith))
      λ crc.
        behind Anything (ok_or read_bit "randomised flag truncated") _
          (bit-Steady "randomised flag truncated")
          λ randomised.
            behind Anything (fail_when randomised "randomised blocks not supported") _
              (fail_when-Steady randomised "randomised blocks not supported")
              (λ _. u32-Steady 24 "orig_ptr truncated" (omega arith) (omega arith))

read_ranges-Steady : (left : ℕ) → Steady Anything (read_ranges left)
unfolding read_ranges
read_ranges-Steady zero = return-Steady Anything [] tt
read_ranges-Steady (suc left) =
    behind Anything (ok_or read_bit "symbol range truncated") _
      (bit-Steady "symbol range truncated")
      (λ range.
        behind_return (read_ranges left) (λ ranges. range ∷ ranges) (read_ranges-Steady left))

read_subs-Steady : (left sub range_idx : ℕ) → Steady Anything (read_subs left sub range_idx)
unfolding read_subs
read_subs-Steady zero sub range_idx = return-Steady Anything [] tt
read_subs-Steady (suc left) sub range_idx =
    behind Anything (ok_or read_bit "symbol bitmap truncated") _
      (bit-Steady "symbol bitmap truncated")
      (λ used.
        behind Anything (read_subs left (sub + 1) range_idx) _
          (read_subs-Steady left (sub + 1) range_idx) (λ rest. return-Steady Anything _ tt))

read_used-Steady :
    (ranges : List Bool) (range_idx : ℕ) → Steady Anything (read_used ranges range_idx)
unfolding read_used
read_used-Steady [] range_idx = return-Steady Anything [] tt
read_used-Steady (false ∷ ranges) range_idx = read_used-Steady ranges (range_idx + 1)
read_used-Steady (true ∷ ranges) range_idx =
    behind Anything (read_subs 16 0 range_idx) _ (read_subs-Steady 16 0 range_idx) (λ used.
      behind Anything (read_used ranges (range_idx + 1)) _ (read_used-Steady ranges (range_idx + 1))
        (λ rest. return-Steady Anything _ tt))

read_selector-Steady :
    (fuel n_groups trees : ℕ) → Steady Anything (read_selector fuel n_groups trees)
unfolding read_selector
read_selector-Steady zero n_groups trees = stuck-Steady {A = ℕ} Anything
read_selector-Steady (suc fuel) n_groups trees =
    behind Anything (ok_or read_bit "selector bit truncated") _
      (bit-Steady "selector bit truncated")
      (λ more.
        test-Steady Anything more _ (return trees)
          (test-Steady Anything (leb n_groups (trees + 1)) (fail "selector tree index too large") _
            (λ bytes pos r r' rep rep'. refl) (read_selector-Steady fuel n_groups (trees + 1)))
          (return-Steady Anything trees tt))

read_selectors-Steady :
    (left n_groups : ℕ) (sel_mtf : List ℕ) → Steady Anything (read_selectors left n_groups sel_mtf)
unfolding read_selectors
read_selectors-Steady zero n_groups sel_mtf = return-Steady Anything [] tt
read_selectors-Steady (suc left) n_groups sel_mtf =
    behind Anything (read_selector n_groups n_groups 0) _ (read_selector-Steady n_groups n_groups 0)
      (λ trees.
        behind Anything (read_selectors left n_groups (Mtf.decode trees sel_mtf).1) _
          (read_selectors-Steady left n_groups (Mtf.decode trees sel_mtf).1)
          (λ rest. return-Steady Anything _ tt))

adjust_length-Steady : (fuel length_ : ℕ) → Steady Anything (adjust_length fuel length_)
unfolding adjust_length
adjust_length-Steady zero length_ = stuck-Steady {A = ℕ} Anything
adjust_length-Steady (suc fuel) length_ =
    behind Anything (fail_when (ltb length_ 1 || ltb 20 length_) "huffman code length out of range")
      _ (fail_when-Steady (ltb length_ 1 || ltb 20 length_) "huffman code length out of range")
      λ _.
        behind Anything (ok_or read_bit "length adjust bit1 truncated") _
          (bit-Steady "length adjust bit1 truncated")
          λ change.
            test-Steady Anything change _ (return length_)
              (behind Anything (ok_or read_bit "length adjust bit2 truncated") _
                (bit-Steady "length adjust bit2 truncated")
                (λ down. adjust_length-Steady fuel (if down then length_ - 1 else length_ + 1)))
              (return-Steady Anything length_ tt)

-- The fuel depends only on the place.
fuelled-Steady : (length_ : ℕ) → Steady Anything (λ r. adjust_length (suc (remaining r)) length_ r)
fuelled-Steady length_ bytes pos r r' rep rep' =
    rw (remaining-Represents bytes r pos rep, remaining-Represents bytes r' pos rep')
      (adjust_length-Steady (suc (8 * length bytes - pos)) length_ bytes pos r r' rep rep')

read_lengths-Steady : (left length_ : ℕ) → Steady Anything (read_lengths left length_)
unfolding read_lengths
read_lengths-Steady zero length_ = return-Steady Anything [] tt
read_lengths-Steady (suc left) length_ =
    behind Anything (λ r. adjust_length (suc (remaining r)) length_ r) _ (fuelled-Steady length_)
      (λ adjusted.
        behind_return (read_lengths left adjusted) (λ rest. adjusted ∷ rest)
          (read_lengths-Steady left adjusted))

tree_or_err-OnOk : (o : Result HuffmanTree) → OnOk IsFast o → OnOk IsFast (tree_or_err o)
tree_or_err-OnOk (ok t) h = h
tree_or_err-OnOk (err _) h = tt
tree_or_err-OnOk panic h = tt

read_trees-Steady : (left n_symbols : ℕ) → Steady (All IsFast) (read_trees left n_symbols)
unfolding read_trees
read_trees-Steady zero n_symbols = return-Steady (All IsFast) [] tt
read_trees-Steady (suc left) n_symbols =
    behind (All IsFast) (ok_or (read_u8 5) "huffman start length truncated") _
      (u8-Steady 5 "huffman start length truncated" (omega arith) (omega arith))
      λ start.
        behind (All IsFast) (read_lengths n_symbols start) _ (read_lengths-Steady n_symbols start)
          λ lengths.
            >>=-Steady IsFast (All IsFast) (lift (tree_or_err (from_lengths lengths))) _
              (lift-Steady IsFast (tree_or_err (from_lengths lengths))
                (tree_or_err-OnOk (from_lengths lengths) (from_lengths-IsFast lengths)))
              λ tree fast.
                >>=-Steady (All IsFast) (All IsFast) (read_trees left n_symbols) _
                  (read_trees-Steady left n_symbols)
                  (λ rest h. return-Steady (All IsFast) (tree ∷ rest) (fast, h))

abbrev pub HasFastTrees : Header → Type 0
HasFastTrees h = All IsFast h.trees

pub read_header-Steady : Steady HasFastTrees read_header
unfolding read_header
read_header-Steady = behind HasFastTrees read_orig_ptr _ read_orig_ptr-Steady λ orig_ptr.
    behind HasFastTrees (read_ranges 16) _ (read_ranges-Steady 16) λ ranges.
      behind HasFastTrees (read_used ranges 0) _ (read_used-Steady ranges 0) λ used.
        behind HasFastTrees (fail_when (length used == 0) "no symbols in block") _
          (fail_when-Steady (length used == 0) "no symbols in block")
          λ _.
            behind HasFastTrees (ok_or (read_u8 3) "huffman groups truncated") _
              (u8-Steady 3 "huffman groups truncated" (omega arith) (omega arith))
              λ n_groups.
                behind HasFastTrees
                  (fail_when (ltb n_groups 2 || ltb 6 n_groups) "invalid number of huffman groups")
                  _
                  (fail_when-Steady (ltb n_groups 2 || ltb 6 n_groups)
                    "invalid number of huffman groups")
                  λ _.
                    behind HasFastTrees (ok_or (read_u16 15) "selectors_used truncated") _
                      (u16-Steady 15 "selectors_used truncated" (omega arith) (omega arith))
                      λ n_selectors.
                        behind HasFastTrees
                          (fail_when (ltb max_selectors n_selectors) "too many selectors") _
                          (fail_when-Steady (ltb max_selectors n_selectors) "too many selectors")
                          λ _.
                            behind HasFastTrees (read_selectors n_selectors n_groups Mtf.new) _
                              (read_selectors-Steady n_selectors n_groups Mtf.new)
                              λ selectors.
                                >>=-Steady (All IsFast) HasFastTrees
                                  (read_trees n_groups (length used + 2)) _
                                  (read_trees-Steady n_groups (length used + 2))
                                  (λ trees h. return-Steady HasFastTrees _ h)
