-- ===== src/Huffman/Tree.antt =====
-- src/huffman.rs: the packed table entries and the tree.
use lbzip2_rs.Prelude.{ℕ, ◌*◌, ◌/◌, ◌%◌, ◌^◌, bit_and, bit_or, List, replicate}

abbrev pub fast_bits : ℕ
fast_bits = 10

abbrev pub fast_table_size : ℕ
fast_table_size = 1024

abbrev pub max_tree_nodes : ℕ
max_tree_nodes = 512

-- A u16: the symbol shifted left by 5, and a length in the low 5 bits.
unfoldable pub pack_entry : ℕ → ℕ → ℕ
pack_entry symbol len = bit_or (symbol * 2 ^ 5 % 2 ^ 16) len

unfoldable pub unpack_symbol : ℕ → ℕ
unpack_symbol entry = entry / 2 ^ 5

unfoldable pub unpack_len : ℕ → ℕ
unpack_len entry = bit_and entry 0x1F

-- The i32 of a node's child: `negsuc n` is -(n + 1).
pub data ℤ : Type 0 where
  pos : ℕ → ℤ
  negsuc : ℕ → ℤ

pub record HuffmanTree : Type 0 where
  pub fast_table : List ℕ
  pub nodes : List (ℤ × ℤ)
  pub n_nodes : ℕ

abbrev pub empty : HuffmanTree
empty = record { fast_table = replicate 1024 0; nodes = replicate 512 (pos 0, pos 0); n_nodes = 0 }
