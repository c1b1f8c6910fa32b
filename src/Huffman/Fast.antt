-- ===== src/Huffman/Fast.antt =====
-- src/huffman.rs: the packed entries of the fast table, and their lengths.
use lbzip2_rs.Prelude.{
  OnOk-test, OnOk-option, Anything, OnOk-Anything, ℕ, zero, suc, ◌+◌, ◌-◌, ◌*◌, ◌/◌, ◌%◌, ◌^◌, ◌≤◌,
  ◌<◌, ◌≡◌, refl, arith, bit_and, bit_or, true, false, Bool-cases, inl, inr, List, [], ◌∷◌, length,
  All, set, replicate, get_elem?, some, Result, ok, index, ◌>>=◌, ◌>>◌, OnOk, >>=-OnOk, >>-OnOk,
  fail_if, ltb, leb, leb→le, ◌==◌,
}
use lbzip2_rs.Bits.{bit-or, bit_ext, bit_or-lt, bit_or-shl, bit_and-ones}
use lbzip2_rs.Huffman.Tree.{
  fast_bits, pack_entry, unpack_symbol, unpack_len, HuffmanTree, empty, ℤ, max_tree_nodes,
}
use lbzip2_rs.Huffman.Build.{
  CodeEntry, used_symbols, sort_symbols, assign, first_len, walk, positive, child_at, fill_suffixes,
  fill_table, from_lengths,
}

bit_or_comm : (x y : ℕ) → x < 2 ^ 16 → y < 2 ^ 16 → bit_or x y ≡ bit_or y x
bit_or_comm x y p q =
    bit_ext 16 (bit_or x y) (bit_or y x) (bit_or-lt 16 x y p q) (bit_or-lt 16 y x q p)
      λ i lt. rw (bit-or x y i, bit-or y x i) (omega arith)

pack_entry-sum :
    (symbol len : ℕ) → len < 2 ^ 5 → pack_entry symbol len ≡ symbol % 2 ^ 11 * 2 ^ 5 + len
unfolding pack_entry
pack_entry-sum symbol len small =
    let e : symbol * 2 ^ 5 % 2 ^ 16 ≡ symbol % 2 ^ 11 * 2 ^ 5 = omega arith in
    rw (e, bit_or_comm (symbol % 2 ^ 11 * 2 ^ 5) len (omega arith) (omega arith))
      (bit_or-shl 16 5 (symbol % 2 ^ 11) len small (omega arith))

unpack_len-mod : (entry : ℕ) → unpack_len entry ≡ entry % 2 ^ 5
unfolding unpack_len
unpack_len-mod entry = bit_and-ones 5 entry

-- For a symbol of 11 bits and a length of 5, an entry that packs them unpacks to them.
pub unpack-pack_entry :
    (symbol len : ℕ)
    → symbol < 2 ^ 11
    → len < 2 ^ 5
    → (unpack_symbol (pack_entry symbol len) ≡ symbol) × (unpack_len (pack_entry symbol len) ≡ len)
unfolding unpack_symbol
unpack-pack_entry symbol len fits small =
    rw (unpack_len-mod (pack_entry symbol len), pack_entry-sum symbol len small)
      (omega arith, omega arith)

-- An entry asks for no more bits than were looked at.
abbrev pub IsShort : ℕ → Type 0
IsShort entry = unpack_len entry ≤ fast_bits

abbrev pub IsFast : HuffmanTree → Type 0
IsFast tree = All IsShort tree.fast_table

pack_entry-IsShort : (symbol len : ℕ) → len ≤ fast_bits → IsShort (pack_entry symbol len)
pack_entry-IsShort symbol len le =
    rw (unpack_len-mod (pack_entry symbol len), pack_entry-sum symbol len (omega arith))
      (omega arith)

set-All : (P : ℕ → Type 0) (xs : List ℕ) (i v : ℕ) → P v → All P xs → All P (set xs i v)
set-All P [] i v here h = tt
set-All P (x ∷ xs) zero v here h = (here, h.1)
set-All P (x ∷ xs) (suc i) v here h = (h.0, set-All P xs i v here h.1)

replicate-All : (P : ℕ → Type 0) (n v : ℕ) → P v → All P (replicate n v)
replicate-All P zero v h = tt
replicate-All P (suc n) v h = (h, replicate-All P n v h)

pub get_elem?-All :
    {A : Type 0} (P : A → Type 0) (xs : List A) (i : ℕ) (x : A)
    → All P xs
    → get_elem? xs i ≡ some x
    → P x
get_elem?-All P [] i x h e = cc
get_elem?-All P (y ∷ ys) zero x h e = let e' : y ≡ x = cc in rw (← e') h.0
get_elem?-All P (y ∷ ys) (suc i) x h e = get_elem?-All P ys i x h.1 e

fill_suffixes-IsShort :
    (left suffix base entry : ℕ) (table : List ℕ)
    → IsShort entry
    → All IsShort table
    → OnOk (All IsShort) (fill_suffixes left suffix base entry table)
unfolding fill_suffixes
fill_suffixes-IsShort zero suffix base entry table short h = h
fill_suffixes-IsShort (suc left) suffix base entry table short h =
    >>=-OnOk Anything (All IsShort) (index (get_elem? table (bit_or base suffix))) _
      (OnOk-Anything (index (get_elem? table (bit_or base suffix))))
      λ old _.
        fill_suffixes-IsShort left (suffix + 1) base entry (set table (bit_or base suffix) entry)
          short (set-All IsShort table (bit_or base suffix) entry short h)

fill_table_short :
    (e : CodeEntry) (entries : List CodeEntry) (table : List ℕ)
    → leb e.len fast_bits ≡ true
    → fill_table (e ∷ entries) table ≡ (
        fill_suffixes
          (2 ^ (fast_bits - e.len))
          0
          (e.code * 2 ^ (fast_bits - e.len))
          (pack_entry e.sym e.len)
          table
        >>= fill_table entries)
unfolding fill_table
fill_table_short e entries table le = rw (le, fill_table) refl

fill_table_long :
    (e : CodeEntry) (entries : List CodeEntry) (table : List ℕ)
    → leb e.len fast_bits ≡ false
    → fill_table (e ∷ entries) table ≡ fill_table entries table
unfolding fill_table
fill_table_long e entries table le = rw (le, fill_table) refl

fill_table-IsShort :
    (entries : List CodeEntry) (table : List ℕ)
    → All IsShort table
    → OnOk (All IsShort) (fill_table entries table)
fill_table-IsShort [] table h = unfold fill_table in h
fill_table-IsShort (e ∷ entries) table h = elim (Bool-cases (leb e.len fast_bits)) [
  | inl short ↦
      let pad : ℕ = fast_bits - e.len in
      let filled : Result (List ℕ) =
        fill_suffixes (2 ^ pad) 0 (e.code * 2 ^ pad) (pack_entry e.sym e.len) table in
      rw (fill_table_short e entries table short) (
        >>=-OnOk (All IsShort) (All IsShort) filled (fill_table entries)
          (fill_suffixes-IsShort (2 ^ pad) 0 (e.code * 2 ^ pad) (pack_entry e.sym e.len) table
            (pack_entry-IsShort e.sym e.len (leb→le e.len fast_bits short)) h)
          (λ table' h'. fill_table-IsShort entries table' h'))
  | inr long ↦ rw (fill_table_long e entries table long) (fill_table-IsShort entries table h)
]

pub empty-IsFast : IsFast empty
empty-IsFast = replicate-All IsShort 1024 0 (rw (unpack_len-mod 0) (omega arith))

walk-IsFast :
    (bits code sym_ node_idx : ℕ) (tree : HuffmanTree)
    → IsFast tree
    → OnOk IsFast (walk bits code sym_ node_idx tree)
unfolding walk
walk-IsFast zero code sym_ node_idx tree h = h
walk-IsFast (suc bit_pos) code sym_ node_idx tree h =
    let found : Result (ℤ × ℤ) = index (get_elem? tree.nodes node_idx) in
    >>=-OnOk Anything IsFast found _ (OnOk-Anything found) λ node _.
      OnOk-option IsFast (positive (child_at (bit_and (code / 2 ^ (bit_pos % 32)) 1) node)) _ _
        (λ child. walk-IsFast bit_pos code sym_ child tree h)
        (OnOk-test IsFast (ltb 0 bit_pos) _ _
          (OnOk-test IsFast (leb max_tree_nodes tree.n_nodes) _ _ tt
            (walk-IsFast bit_pos code sym_ tree.n_nodes _ h))
          (walk-IsFast bit_pos code sym_ node_idx _ h))

assign-IsFast :
    (symbols : List (ℕ × ℕ)) (code prev_len : ℕ) (tree : HuffmanTree)
    → IsFast tree
    → OnOk (λ built. IsFast built.0) (assign symbols code prev_len tree)
unfolding assign
assign-IsFast [] code prev_len tree h = h
assign-IsFast ((sym_, len) ∷ symbols) code prev_len tree h =
    let code' : ℕ = code * 2 ^ ((len - prev_len) % 32) % 2 ^ 32 in
    >>=-OnOk IsFast (λ built. IsFast built.0) (walk len code' sym_ 0 tree) _
      (walk-IsFast len code' sym_ 0 tree h)
      λ tree' h'.
        >>=-OnOk (λ built. IsFast built.0) (λ built. IsFast built.0)
          (assign symbols ((code' + 1) % 2 ^ 32) len tree') _
          (assign-IsFast symbols ((code' + 1) % 2 ^ 32) len tree' h') (λ (built, entries) g. g)

-- A tree that is built has a table whose entries ask for no more bits than were looked at.
pub from_lengths-IsFast : (lengths : List ℕ) → OnOk IsFast (from_lengths lengths)
unfolding from_lengths
from_lengths-IsFast lengths =
    let used : List (ℕ × ℕ) = used_symbols 0 lengths in
    let symbols : List (ℕ × ℕ) = sort_symbols used in
    let first_tree : HuffmanTree = record empty { n_nodes = 1 } in
    let finish : HuffmanTree × List CodeEntry → Result HuffmanTree = λ built.
      fill_table built.1 built.0.fast_table >>= λ table.
      ok (record built.0 { fast_table = table }) in
    let build : Result HuffmanTree = assign symbols 0 (first_len symbols) first_tree >>= finish in
    let Built : HuffmanTree × List CodeEntry → Type 0 = λ built. IsFast built.0 in
    let built_fast : OnOk IsFast build =
      >>=-OnOk Built IsFast (assign symbols 0 (first_len symbols) first_tree) finish
        (assign-IsFast symbols 0 (first_len symbols) first_tree empty-IsFast)
        λ built h.
          >>=-OnOk (All IsShort) IsFast (fill_table built.1 built.0.fast_table) _
            (fill_table-IsShort built.1 built.0.fast_table h) (λ table g. g) in
    let some_used : Result HuffmanTree = fail_if (length used == 0) "no symbols" >> build in
    >>-OnOk IsFast _ some_used (>>-OnOk IsFast _ build built_fast)
