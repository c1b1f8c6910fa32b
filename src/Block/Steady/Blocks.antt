-- ===== src/Block/Steady/Blocks.antt =====
-- src/block.rs, the symbol loop, `decode_block` and `decode_block_into` as steps of a chain of reads.
use lbzip2_rs.Prelude.{
  ℕ, zero, suc, ◌+◌, ◌-◌, refl, arith, List, [], ◌∷◌, ◌++◌, All, length, get_elem?, get_or,
  replicate, Option, none, some, Result, index, leb, OnOk, Anything, OnOk-Anything, String,
}
use lbzip2_rs.BitReader.Defs.{BitReader}
use lbzip2_rs.BitReader.Refill.{Represents}
use lbzip2_rs.Huffman.Tree.{HuffmanTree, empty}
use lbzip2_rs.Huffman.Decode.{decode}
use lbzip2_rs.Huffman.Fast.{IsFast, empty-IsFast}
use lbzip2_rs.Bwt.{inverse_bwt}
use lbzip2_rs.Block.Reading.{M, return, fail_when, or_err, lift}
use lbzip2_rs.Block.Header.{Header, read_header}
use lbzip2_rs.Block.Symbols.{
  State, Flow, next, done, huffman_symbol, step_symbol, decode_group, tree_slots, decode_groups,
  start, decode_symbols,
}
use lbzip2_rs.Block.Runs.{rle2_decode_alloc, rle2_decode_into}
use lbzip2_rs.Block.Common.{decode_block_common, decode_block, decode_block_into}
use lbzip2_rs.Block.Steady.{
  Agree, Steady, >>=-Steady, return-Steady, lift-Steady, fail_when-Steady, stuck-Steady,
}
use lbzip2_rs.Block.Steady.Codes.{decode-Steady}
use lbzip2_rs.Block.Steady.Fields.{behind, HasFastTrees, read_header-Steady}

read_or_err-Steady :
    {A : Type 0} (o : Option A) (e : String) → Steady Anything (λ r. or_err e (o, r))
read_or_err-Steady none e bytes pos r r' rep rep' = refl
read_or_err-Steady (some a) e bytes pos r r' rep rep' = (refl, tt, pos, omega arith, rep, rep')

huffman_symbol-Steady : (tree : HuffmanTree) → IsFast tree → Steady Anything (huffman_symbol tree)
huffman_symbol-Steady tree fast =
    behind Anything (decode tree) _ (decode-Steady tree fast)
      (λ sym. read_or_err-Steady sym "huffman bitstream truncated")

flow-Steady :
    {A : Type 0} (flow : Flow) (end more : State → M A)
    → ((s : State) → Steady Anything (end s))
    → ((s : State) → Steady Anything (more s))
    → (let chosen : M A = elim flow [ done s ↦ end s | next s ↦ more s ] in Steady Anything chosen)
flow-Steady (done s) end more h g = h s
flow-Steady (next s) end more h g = g s

tree_slots-All : (trees : List HuffmanTree) → All IsFast trees → All IsFast (tree_slots trees)
tree_slots-All trees h = append-All trees (6 - length trees) h
  where
    replicate_All : (n : ℕ) → All IsFast (replicate n empty)
    replicate_All zero = tt
    replicate_All (suc n) = (empty-IsFast, replicate_All n)

    append-All :
        (ts : List HuffmanTree) (n : ℕ) → All IsFast ts → All IsFast (ts ++ replicate n empty)
    append-All [] n g = replicate_All n
    append-All (t ∷ ts) n g = (g.0, append-All ts n g.1)

index-OnOk :
    (trees : List HuffmanTree) (i : ℕ) → All IsFast trees → OnOk IsFast (index (get_elem? trees i))
index-OnOk [] i h = tt
index-OnOk (t ∷ ts) zero h = h.0
index-OnOk (t ∷ ts) (suc i) h = index-OnOk ts i h.1

tree-Steady :
    (trees : List HuffmanTree) (sel : ℕ)
    → All IsFast trees
    → Steady IsFast (lift (index (get_elem? (tree_slots trees) sel)))
tree-Steady trees sel h =
    lift-Steady IsFast (index (get_elem? (tree_slots trees) sel))
      (index-OnOk (tree_slots trees) sel (tree_slots-All trees h))

module _ (max_blocksize eob_symbol : ℕ) where
  decode_group-Steady :
      (left : ℕ) (tree : HuffmanTree) (s : State)
      → IsFast tree
      → Steady Anything (decode_group left max_blocksize eob_symbol tree s)
  unfolding decode_group
  decode_group-Steady zero tree s fast = return-Steady Anything (next s) tt
  decode_group-Steady (suc left) tree s fast =
      behind Anything (huffman_symbol tree) _ (huffman_symbol-Steady tree fast) λ sym.
        behind Anything (lift (step_symbol max_blocksize eob_symbol sym s)) _
          (lift-Steady Anything (step_symbol max_blocksize eob_symbol sym s)
            (OnOk-Anything (step_symbol max_blocksize eob_symbol sym s)))
          λ flow.
            flow-Steady flow (λ s'. return (done s'))
              (decode_group left max_blocksize eob_symbol tree)
              (λ s'. return-Steady Anything (done s') tt)
              (λ s'. decode_group-Steady left tree s' fast)

  decode_groups-Steady :
      (fuel : ℕ) (selectors : List ℕ) (trees : List HuffmanTree) (sel_idx : ℕ) (tree : HuffmanTree)
      (s : State)
      → All IsFast trees
      → IsFast tree
      → Steady Anything (decode_groups fuel max_blocksize eob_symbol selectors trees sel_idx tree s)
  unfolding decode_groups
  decode_groups-Steady zero selectors trees sel_idx tree s all fast =
      stuck-Steady {A = State} Anything
  decode_groups-Steady (suc fuel) selectors trees sel_idx tree s all fast =
      behind Anything (decode_group 50 max_blocksize eob_symbol tree s) _
        (decode_group-Steady 50 tree s fast)
        λ flow.
          flow-Steady flow return _ (λ s'. return-Steady Anything s' tt)
            λ s'.
              let sel : ℕ = get_or selectors (sel_idx + 1) 0 in
              behind Anything
                (fail_when (leb (length selectors) (sel_idx + 1)) "ran out of selectors") _
                (fail_when-Steady (leb (length selectors) (sel_idx + 1)) "ran out of selectors")
                λ _.
                  behind Anything (fail_when (leb (length trees) sel) "selector out of range") _
                    (fail_when-Steady (leb (length trees) sel) "selector out of range")
                    λ _.
                      >>=-Steady IsFast Anything (lift (index (get_elem? (tree_slots trees) sel))) _
                        (tree-Steady trees sel all)
                        (λ next_tree fast'.
                          decode_groups-Steady fuel selectors trees (sel_idx + 1) next_tree s' all
                            fast')

decode_symbols-Steady :
    (max_blocksize : ℕ) (h : Header)
    → HasFastTrees h
    → Steady Anything (decode_symbols max_blocksize h)
unfolding decode_symbols
decode_symbols-Steady max_blocksize h all =
    let sel : ℕ = get_or h.selectors 0 0 in
    >>=-Steady IsFast Anything (lift (index (get_elem? (tree_slots h.trees) sel))) _
      (tree-Steady h.trees sel all)
      λ tree fast.
        decode_groups-Steady max_blocksize (length h.used + 1) (suc (length h.selectors))
          h.selectors h.trees 0 tree (start h.used) all fast

pure-Steady : {A : Type 0} (o : Result A) → Steady Anything (lift o)
pure-Steady o = lift-Steady Anything o (OnOk-Anything o)

decode_block_common-Steady :
    (max_blocksize : ℕ) → Steady Anything (decode_block_common max_blocksize)
unfolding decode_block_common
decode_block_common-Steady max_blocksize =
    >>=-Steady HasFastTrees Anything read_header _ read_header-Steady λ h all.
      behind Anything (decode_symbols max_blocksize h) _ (decode_symbols-Steady max_blocksize h all)
        λ s.
          behind Anything (fail_when (leb (length s.tt_) h.orig_ptr) "orig_ptr out of bounds") _
            (fail_when-Steady (leb (length s.tt_) h.orig_ptr) "orig_ptr out of bounds")
            (λ _. pure-Steady (inverse_bwt s.tt_ h.orig_ptr s.c))

-- For two readers that stand at one place of the input, `decode_block` gives the same block, the
-- same error, or a panic, and leaves both at one place, which is not before the first.
pub decode_block-Steady :
    (max_blocksize : ℕ) (bytes : List ℕ) (pos : ℕ) (r r' : BitReader)
    → Represents bytes r pos
    → Represents bytes r' pos
    → Agree bytes pos Anything (decode_block max_blocksize r) (decode_block max_blocksize r')
unfolding decode_block
decode_block-Steady max_blocksize =
    behind Anything (decode_block_common max_blocksize) _ (decode_block_common-Steady max_blocksize)
      (λ common. pure-Steady (rle2_decode_alloc common.0 common.1))

-- For two readers that stand at one place of the input, `decode_block_into` writes the same bytes,
-- fails alike or panics for both, and leaves both at one place, which is not before the first.
pub decode_block_into-Steady :
    (max_blocksize out_cap : ℕ) (bytes : List ℕ) (pos : ℕ) (r r' : BitReader)
    → Represents bytes r pos
    → Represents bytes r' pos
    → Agree bytes pos Anything
        (decode_block_into max_blocksize out_cap r)
        (decode_block_into max_blocksize out_cap r')
unfolding decode_block_into
decode_block_into-Steady max_blocksize out_cap =
    behind Anything (decode_block_common max_blocksize) _ (decode_block_common-Steady max_blocksize)
      (λ common. pure-Steady (rle2_decode_into common.0 common.1 out_cap))
