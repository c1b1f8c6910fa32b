-- ===== src/Block/Header.antt =====
-- src/block.rs, the first half of `decode_block_common`: header, symbol bitmap, selectors, trees.
use lbzip2_rs.Prelude.{
  ℕ, zero, suc, ◌+◌, ◌-◌, ◌*◌, ◌%◌, ◌^◌, Bool, true, false, ◌||◌, List, [], ◌∷◌, ◌++◌, length,
  Result, ok, err, panic, ltb, leb, ◌==◌, if◌then◌else◌,
}
use lbzip2_rs.BitReader.Defs.{remaining, read_bit, read_u8, read_u16, read_u32}
use lbzip2_rs.Huffman.Tree.{HuffmanTree}
use lbzip2_rs.Huffman.Build.{from_lengths}
use lbzip2_rs.Mtf
use lbzip2_rs.Block.Reading.{M, ◌>>=◌, ◌>>◌, return, stuck, fail, fail_when, ok_or, lift}

abbrev pub max_blocksize_limit : ℕ
max_blocksize_limit = 900_000

abbrev pub max_selectors : ℕ
max_selectors = 18002

-- CRC, flag and origin pointer.
unfoldable pub read_orig_ptr : M ℕ
unfolding read_u32 read_bit
read_orig_ptr = do
  crc ← ok_or (read_u32 32) "block CRC truncated"
  randomised ← ok_or read_bit "randomised flag truncated"
  fail_when randomised "randomised blocks not supported"
  ok_or (read_u32 24) "orig_ptr truncated"

unfoldable pub read_ranges : ℕ → M (List Bool)
unfolding read_bit
read_ranges zero = return []
read_ranges (suc left) = do
  range ← ok_or read_bit "symbol range truncated"
  ranges ← read_ranges left
  return (range ∷ ranges)

-- The bytes of one range, from `sub` on.
unfoldable pub read_subs : ℕ → ℕ → ℕ → M (List ℕ)
unfolding read_bit
read_subs zero sub range_idx = return []
read_subs (suc left) sub range_idx = do
  used ← ok_or read_bit "symbol bitmap truncated"
  rest ← read_subs left (sub + 1) range_idx
  return (if used then ((range_idx * 16 + sub) % 2 ^ 8) ∷ rest else rest)

unfoldable pub read_used : List Bool → ℕ → M (List ℕ)
unfolding read_subs
read_used [] range_idx = return []
read_used (false ∷ ranges) range_idx = read_used ranges (range_idx + 1)
read_used (true ∷ ranges) range_idx = do
  used ← read_subs 16 0 range_idx
  rest ← read_used ranges (range_idx + 1)
  return (used ++ rest)

-- The `while` that counts the one bits of a selector. It fails at `n_groups`, so `n_groups`
-- rounds are enough.
unfoldable pub read_selector : ℕ → ℕ → ℕ → M ℕ
unfolding read_bit
read_selector zero n_groups trees = stuck
read_selector (suc fuel) n_groups trees = do
  more ← ok_or read_bit "selector bit truncated"
  elim more [
    | false ↦ return trees
    | true ↦ elim (leb n_groups (trees + 1)) [
      | true ↦ fail "selector tree index too large"
      | false ↦ read_selector fuel n_groups (trees + 1)
    ]
  ]

unfoldable pub read_selectors : ℕ → ℕ → List ℕ → M (List ℕ)
unfolding read_selector Mtf.decode
read_selectors zero n_groups sel_mtf = return []
read_selectors (suc left) n_groups sel_mtf = do
  trees ← read_selector n_groups n_groups 0
  let decoded = Mtf.decode trees sel_mtf
  rest ← read_selectors left n_groups decoded.1
  return (decoded.0 ∷ rest)

-- The `loop` that adjusts a code length. A round that does not end it takes two bits, so one round
-- more than the bits left is enough.
unfoldable pub adjust_length : ℕ → ℕ → M ℕ
unfolding read_bit
adjust_length zero length_ = stuck
adjust_length (suc fuel) length_ = do
  fail_when (ltb length_ 1 || ltb 20 length_) "huffman code length out of range"
  change ← ok_or read_bit "length adjust bit1 truncated"
  elim change [
    | false ↦ return length_
    | true ↦ do
      down ← ok_or read_bit "length adjust bit2 truncated"
      adjust_length fuel (if down then length_ - 1 else length_ + 1)
  ]

unfoldable pub read_lengths : ℕ → ℕ → M (List ℕ)
unfolding adjust_length
read_lengths zero length_ = return []
read_lengths (suc left) length_ = do
  adjusted ← λ r. adjust_length (suc (remaining r)) length_ r
  rest ← read_lengths left adjusted
  return (adjusted ∷ rest)

-- `.map_err(|_| BlockError("invalid huffman tree"))`.
abbrev pub tree_or_err : Result HuffmanTree → Result HuffmanTree
tree_or_err (ok t) = ok t
tree_or_err (err _) = err "invalid huffman tree"
tree_or_err panic = panic

unfoldable pub read_trees : ℕ → ℕ → M (List HuffmanTree)
unfolding read_lengths read_u8 from_lengths
read_trees zero n_symbols = return []
read_trees (suc left) n_symbols = do
  start ← ok_or (read_u8 5) "huffman start length truncated"
  lengths ← read_lengths n_symbols start
  tree ← lift (tree_or_err (from_lengths lengths))
  rest ← read_trees left n_symbols
  return (tree ∷ rest)

pub record Header : Type 0 where
  pub orig_ptr : ℕ
  pub used : List ℕ
  pub selectors : List ℕ
  pub trees : List HuffmanTree

-- The header fields as `decode_block_common` reads them, in its order.
unfoldable pub read_header : M Header
unfolding read_orig_ptr read_ranges read_used read_u8 read_u16 read_selectors read_trees
read_header = do
  orig_ptr ← read_orig_ptr
  ranges ← read_ranges 16
  used ← read_used ranges 0
  fail_when (length used == 0) "no symbols in block"
  n_groups ← ok_or (read_u8 3) "huffman groups truncated"
  fail_when (ltb n_groups 2 || ltb 6 n_groups) "invalid number of huffman groups"
  n_selectors ← ok_or (read_u16 15) "selectors_used truncated"
  fail_when (ltb max_selectors n_selectors) "too many selectors"
  selectors ← read_selectors n_selectors n_groups Mtf.new
  trees ← read_trees n_groups (length used + 2)
  return (record { orig_ptr = orig_ptr; used = used; selectors = selectors; trees = trees })
