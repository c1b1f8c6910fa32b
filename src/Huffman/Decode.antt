-- ===== src/Huffman/Decode.antt =====
-- src/huffman.rs: `decode`, by the fast table or bit by bit.
use lbzip2_rs.Prelude.{
  ℕ, zero, suc, ◌%◌, ◌^◌, Bool, true, false, Option, none, some, get_elem?, Result, ok, panic, ltb,
  if◌then◌else◌,
}
use lbzip2_rs.BitReader.Defs.{BitReader, remaining, read_bit, peek, consume}
use lbzip2_rs.Huffman.Tree.{fast_bits, unpack_symbol, unpack_len, pos, negsuc, HuffmanTree}
use lbzip2_rs.Huffman.Build.{child_at}

abbrev pub flag : Bool → ℕ
flag true = 1
flag false = 0

-- The loop of `decode_slow` at a node. A round takes a bit, so one round more than the bits left
-- is enough; a child 0 leads to the root.
unfoldable pub decode_slow : ℕ → HuffmanTree → ℕ → BitReader → Result (Option ℕ × BitReader)
unfolding read_bit
decode_slow zero tree node_idx r = panic
decode_slow (suc fuel) tree node_idx r =
    let (bit, r') = read_bit r in
    elim bit [
      | none ↦ ok (none, r')
      | some b ↦ elim (get_elem? tree.nodes node_idx) [
        | none ↦ panic
        | some node ↦ elim (child_at (flag b) node) [
          | negsuc sym ↦ ok (some (sym % 2 ^ 16), r')
          | pos child ↦ decode_slow fuel tree child r'
        ]
      ]
    ]

unfoldable pub decode : HuffmanTree → BitReader → Result (Option ℕ × BitReader)
unfolding peek consume decode_slow unpack_len unpack_symbol
decode tree r =
    let (peeked, r') = peek fast_bits r in
    let slow = decode_slow (suc (remaining r')) tree 0 r' in
    elim peeked [
      | none ↦ slow
      | some bits ↦ elim (get_elem? tree.fast_table bits) [
        | none ↦ panic
        | some entry ↦
            if ltb 0 (unpack_len entry)
            then ok (some (unpack_symbol entry), consume (unpack_len entry) r')
            else slow
      ]
    ]
