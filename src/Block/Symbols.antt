-- ===== src/Block/Symbols.antt =====
-- src/block.rs, the symbol loop of `decode_block_common`: Huffman symbols become runs and
-- move-to-front positions, and these the entries of `tt`.
use lbzip2_rs.Prelude.{
  ℕ, zero, suc, ◌+◌, ◌-◌, ◌*◌, ◌%◌, ◌^◌, List, [], ◌∷◌, ◌++◌, length, get_elem?, get_or, set,
  replicate, Result, ok, err, panic, index, ltb, leb, ◌==◌, if◌then◌else◌,
}
use lbzip2_rs.Huffman.Tree.{HuffmanTree, empty}
use lbzip2_rs.Huffman.Decode.{decode}
use lbzip2_rs.Mtf
use lbzip2_rs.Block.Reading.{M, ◌>>=◌, ◌>>◌, return, stuck, fail_when, or_err, lift}
use lbzip2_rs.Block.Header.{max_blocksize_limit, Header}

pub record State : Type 0 where
  pub tt_ : List ℕ
  pub c : List ℕ
  pub mtf : List ℕ
  pub repeat : ℕ
  pub repeat_power : ℕ

-- `continue` or the end of the loop body, and `break 'outer`.
pub data Flow : Type 0 where
  next : State → Flow
  done : State → Flow

-- RUNA or RUNB.
unfoldable pub run_symbol : ℕ → State → Result State
run_symbol sym s =
    let power = if s.repeat == 0 then 1 else s.repeat_power in
    let repeat = (s.repeat + power * 2 ^ sym % 2 ^ 32) % 2 ^ 32 in
    if ltb max_blocksize_limit repeat
    then err "repeat count too large"
    else ok (record s { repeat = repeat; repeat_power = power * 2 % 2 ^ 32 })

-- The pending run is written out.
unfoldable pub flush_run : ℕ → State → Result State
unfolding Mtf.first
flush_run max_blocksize s =
    let b = Mtf.first s.mtf in
    if ltb 0 s.repeat
    then (if ltb max_blocksize (length s.tt_ + s.repeat)
        then err "data exceeds block size"
        else ok (record s {
          tt_ = s.tt_ ++ replicate s.repeat b;
          c = set s.c b ((get_or s.c b 0 + s.repeat) % 2 ^ 32);
          repeat = 0;
        }))
    else ok s

-- A symbol that is neither a run nor the end.
unfoldable pub push_symbol : ℕ → ℕ → State → Result State
unfolding Mtf.decode
push_symbol max_blocksize sym s =
    let decoded = Mtf.decode ((sym - 1) % 2 ^ 8) s.mtf in
    if leb max_blocksize (length s.tt_)
    then err "data exceeds block size"
    else ok (record s {
      tt_ = s.tt_ ++ decoded.0 ∷ [];
      c = set s.c decoded.0 ((get_or s.c decoded.0 0 + 1) % 2 ^ 32);
      mtf = decoded.1;
    })

abbrev pub and_then : Result State → (State → Result Flow) → Result Flow
and_then (ok s) f = f s
and_then (err e) f = err e
and_then panic f = panic

-- What the loop body does with a symbol.
unfoldable pub step_symbol : ℕ → ℕ → ℕ → State → Result Flow
unfolding run_symbol flush_run push_symbol
step_symbol max_blocksize eob_symbol sym s =
    if ltb sym 2
    then and_then (run_symbol sym s) (λ s'. ok (next s'))
    else and_then (flush_run max_blocksize s) (λ s'.
      if sym == eob_symbol
      then ok (done s')
      else and_then (push_symbol max_blocksize sym s') (λ s''. ok (next s'')))

-- `current_tree.decode(reader).ok_or(…)?`.
abbrev pub huffman_symbol : HuffmanTree → M ℕ
huffman_symbol tree = do
  sym ← λ r. decode tree r
  λ r. or_err "huffman bitstream truncated" (sym, r)

-- The loop of 50 symbols with one tree.
unfoldable pub decode_group : ℕ → ℕ → ℕ → HuffmanTree → State → M Flow
unfolding decode step_symbol
decode_group zero max_blocksize eob_symbol tree s = return (next s)
decode_group (suc left) max_blocksize eob_symbol tree s = do
  sym ← huffman_symbol tree
  flow ← lift (step_symbol max_blocksize eob_symbol sym s)
  elim flow [
    | done s' ↦ return (done s')
    | next s' ↦ decode_group left max_blocksize eob_symbol tree s'
  ]

-- The array of 6 trees, of which the first have been read.
abbrev pub tree_slots : List HuffmanTree → List HuffmanTree
tree_slots trees = trees ++ replicate (6 - length trees) empty

-- `'outer`, with the tree chosen. A round moves to the next selector, and fails behind the last, so
-- one round for each selector and one more are enough.
unfoldable pub decode_groups :
    ℕ → ℕ → ℕ → List ℕ → List HuffmanTree → ℕ → HuffmanTree → State → M State
unfolding decode_group
decode_groups zero max_blocksize eob_symbol selectors trees sel_idx tree s = stuck
decode_groups (suc fuel) max_blocksize eob_symbol selectors trees sel_idx tree s = do
  flow ← decode_group 50 max_blocksize eob_symbol tree s
  elim flow [
    | done s' ↦ return s'
    | next s' ↦ do
      fail_when (leb (length selectors) (sel_idx + 1)) "ran out of selectors"
      let sel = get_or selectors (sel_idx + 1) 0
      fail_when (leb (length trees) sel) "selector out of range"
      next_tree ← lift (index (get_elem? (tree_slots trees) sel))
      decode_groups fuel max_blocksize eob_symbol selectors trees (sel_idx + 1) next_tree s'
  ]

-- The used bytes, padded with 0 to the 256 of the decoder.
abbrev pub byte_symbols : List ℕ → List ℕ
byte_symbols used = used ++ replicate (256 - length used) 0

abbrev pub start : List ℕ → State
start used = record {
  tt_ = [];
  c = replicate 256 0;
  mtf = Mtf.with_symbols (byte_symbols used);
  repeat = 0;
  repeat_power = 0;
}

-- The loop as it is entered: the first selector is 0 where there is none.
unfoldable pub decode_symbols : ℕ → Header → M State
unfolding decode_groups
decode_symbols max_blocksize h = do
  tree ← lift (index (get_elem? (tree_slots h.trees) (get_or h.selectors 0 0)))
  decode_groups (suc (length h.selectors)) max_blocksize (length h.used + 1) h.selectors h.trees 0
      tree (start h.used)
