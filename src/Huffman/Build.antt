-- ===== src/Huffman/Build.antt =====
-- src/huffman.rs, `from_lengths`.
use lbzip2_rs.Prelude.{
  ℕ, zero, suc, ◌+◌, ◌-◌, ◌*◌, ◌/◌, ◌%◌, ◌^◌, bit_and, bit_or, Bool, true, false, ◌&&◌, ◌||◌, List,
  [], ◌∷◌, Option, none, some, length, get_elem?, set, Result, ok, err, panic, index, ◌>>=◌, ◌>>◌,
  fail_if, ltb, leb, ◌==◌, if◌then◌else◌,
}
use lbzip2_rs.Huffman.Tree.{
  fast_bits, max_tree_nodes, pack_entry, ℤ, pos, negsuc, HuffmanTree, empty,
}

-- The symbols with a length, as pairs of symbol and length.
unfoldable pub used_symbols : ℕ → List ℕ → List (ℕ × ℕ)
used_symbols i [] = []
used_symbols i (len ∷ lengths) =
    let rest = used_symbols (i + 1) lengths in if ltb 0 len then (i % 2 ^ 16, len) ∷ rest else rest

-- `a.1.cmp(&b.1).then(a.0.cmp(&b.0))` is not `Greater`.
abbrev pub in_order : ℕ × ℕ → ℕ × ℕ → Bool
in_order a b = ltb a.1 b.1 || (a.1 == b.1 && leb a.0 b.0)

-- `sort_by` with that order; it is stable.
unfoldable pub insert_symbol : ℕ × ℕ → List (ℕ × ℕ) → List (ℕ × ℕ)
insert_symbol a [] = a ∷ []
insert_symbol a (b ∷ bs) = if in_order a b then a ∷ b ∷ bs else b ∷ insert_symbol a bs

unfoldable pub sort_symbols : List (ℕ × ℕ) → List (ℕ × ℕ)
unfolding insert_symbol
sort_symbols [] = []
sort_symbols (a ∷ as') = insert_symbol a (sort_symbols as')

-- `nodes[node_idx][bit]`, read and written.
abbrev pub child_at : ℕ → ℤ × ℤ → ℤ
child_at bit (l, r) = if bit == 0 then l else r

abbrev pub with_child : ℕ → ℤ → ℤ × ℤ → ℤ × ℤ
with_child bit v (l, r) = if bit == 0 then (v, r) else (l, v)

abbrev set_child : ℕ → ℕ → ℤ → ℤ × ℤ → HuffmanTree → HuffmanTree
set_child node_idx bit v node tree = record tree {
  nodes = set tree.nodes node_idx (with_child bit v node);
}

-- `if child > 0`: the index of the child.
abbrev pub positive : ℤ → Option ℕ
positive (pos zero) = none
positive (pos (suc n)) = some (suc n)
positive (negsuc n) = none

-- The walk over the bits of `code` from `bit_pos` down, which makes the nodes that it needs.
unfoldable pub walk : ℕ → ℕ → ℕ → ℕ → HuffmanTree → Result HuffmanTree
walk zero code sym node_idx tree = ok tree
walk (suc bit_pos) code sym node_idx tree = do
  let bit = bit_and (code / 2 ^ (bit_pos % 32)) 1
  node ← index (get_elem? tree.nodes node_idx)
  elim (positive (child_at bit node)) [
    | some child ↦ walk bit_pos code sym child tree
    | none ↦ elim (ltb 0 bit_pos) [
      | true ↦ elim (leb max_tree_nodes tree.n_nodes) [
        | true ↦ err "huffman tree too large"
        | false ↦
            walk bit_pos code sym tree.n_nodes
              (record (set_child node_idx bit (pos tree.n_nodes) node tree) {
                n_nodes = tree.n_nodes + 1;
              })
      ]
      | false ↦ walk bit_pos code sym node_idx (set_child node_idx bit (negsuc sym) node tree)
    ]
  ]

pub record CodeEntry : Type 0 where
  pub code : ℕ
  pub len : ℕ
  pub sym : ℕ

-- The loop that gives the codes, and the tree with the walks made.
unfoldable pub assign : List (ℕ × ℕ) → ℕ → ℕ → HuffmanTree → Result (HuffmanTree × List CodeEntry)
unfolding walk
assign [] code prev_len tree = ok (tree, [])
assign ((sym, len) ∷ symbols) code prev_len tree = do
  let code' = code * 2 ^ ((len - prev_len) % 32) % 2 ^ 32
  tree' ← walk len code' sym 0 tree
  (built, entries) ← assign symbols ((code' + 1) % 2 ^ 32) len tree'
  ok (built, record { code = code'; len = len; sym = sym } ∷ entries)

-- `fast_table[base | suffix] = entry` for `left` suffixes.
unfoldable pub fill_suffixes : ℕ → ℕ → ℕ → ℕ → List ℕ → Result (List ℕ)
fill_suffixes zero suffix base entry table = ok table
fill_suffixes (suc left) suffix base entry table = do
  old ← index (get_elem? table (bit_or base suffix))
  fill_suffixes left (suffix + 1) base entry (set table (bit_or base suffix) entry)

unfoldable pub fill_table : List CodeEntry → List ℕ → Result (List ℕ)
unfolding fill_suffixes pack_entry
fill_table [] table = ok table
fill_table (e ∷ entries) table = do
  table' ← elim (leb e.len fast_bits) [
    | true ↦
        fill_suffixes (2 ^ (fast_bits - e.len)) 0 (e.code * 2 ^ (fast_bits - e.len))
          (pack_entry e.sym e.len) table
    | false ↦ ok table
  ]
  fill_table entries table'

-- The length of the shortest code, `symbols[0].1`.
abbrev pub first_len : List (ℕ × ℕ) → ℕ
first_len [] = 0
first_len ((sym, len) ∷ symbols) = len

-- More than 258 used symbols overrun the array `symbols`.
unfoldable pub from_lengths : List ℕ → Result HuffmanTree
unfolding used_symbols sort_symbols assign fill_table
from_lengths lengths = do
  let used = used_symbols 0 lengths
  elim (ltb 258 (length used)) [ true ↦ panic | false ↦ ok tt ]
  fail_if (length used == 0) "no symbols"
  let symbols = sort_symbols used
  (tree, entries) ← assign symbols 0 (first_len symbols) (record empty { n_nodes = 1 })
  table ← fill_table entries tree.fast_table
  ok (record tree { fast_table = table })
