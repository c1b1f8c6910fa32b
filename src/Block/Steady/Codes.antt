-- ===== src/Block/Steady/Codes.antt =====
-- src/huffman.rs, `decode_slow` and `decode`, as steps of a chain of reads.
use lbzip2_rs.Prelude.{
  ℕ, zero, suc, ◌+◌, ◌*◌, ◌-◌, ◌%◌, ◌^◌, ◌≤◌, ◌≡◌, refl, ap, ◌∙◌, arith, inl, inr, Bool, true,
  false, Bool-cases, List, length, get_elem?, Option, none, some, Option-cases, Result, ok, panic,
  ltb, ltb→le, Anything,
}
use lbzip2_rs.BitStream.{cursor_read, cursor_next, shr64}
use lbzip2_rs.BitReader.Defs.{BitReader, remaining, refill, read_bit, peeked, peek, consume}
use lbzip2_rs.BitReader.Refill.{Represents}
use lbzip2_rs.BitReader.Bit.{read_bit-Reads, to_flag}
use lbzip2_rs.BitReader.Peek.{peek-Reads, consume-Represents}
use lbzip2_rs.Huffman.Tree.{fast_bits, unpack_symbol, unpack_len, ℤ, pos, negsuc, HuffmanTree}
use lbzip2_rs.Huffman.Build.{child_at}
use lbzip2_rs.Huffman.Decode.{flag, decode_slow, decode}
use lbzip2_rs.Huffman.Fast.{IsShort, IsFast, get_elem?-All}
use lbzip2_rs.Block.Reading.{M, return, stuck}
use lbzip2_rs.Block.Steady.{
  Agree, Steady, return-Steady, option-Steady, stuck-Steady, Agree-mono, cursor_next-ge,
  remaining-Represents,
}

-- What a round of `decode_slow` does with the bit that it has read.
abbrev slow_on : ℕ → HuffmanTree → ℕ → Option Bool → M (Option ℕ)
slow_on fuel tree node_idx none = return none
slow_on fuel tree node_idx (some b) = elim (get_elem? tree.nodes node_idx) [
  | some node ↦ elim (child_at (flag b) node) [
    | negsuc sym ↦ return (some (sym % 2 ^ 16))
    | pos child ↦ decode_slow fuel tree child
  ]
  | none ↦ stuck
]

node_step :
    (fuel : ℕ) (tree : HuffmanTree) (b : Bool) (r : BitReader) (o : Option (ℤ × ℤ))
    → (let here : Result (Option ℕ × BitReader) = elim o [
      | none ↦ panic
      | some node ↦ elim (child_at (flag b) node) [
        | negsuc sym ↦ ok (some (sym % 2 ^ 16), r)
        | pos child ↦ decode_slow fuel tree child r
      ]
    ] in
        let there : M (Option ℕ) = elim o [
          | some node ↦ elim (child_at (flag b) node) [
            | negsuc sym ↦ return (some (sym % 2 ^ 16))
            | pos child ↦ decode_slow fuel tree child
          ]
          | none ↦ stuck
        ] in
        here ≡ there r)
node_step fuel tree b r none = refl
node_step fuel tree b r (some node) = child_step (child_at (flag b) node)
  where
    child_step :
        (child : ℤ)
        → (let here : Result (Option ℕ × BitReader) = elim child [
          | negsuc sym ↦ ok (some (sym % 2 ^ 16), r)
          | pos child' ↦ decode_slow fuel tree child' r
        ] in
            let there : M (Option ℕ) = elim child [
              | negsuc sym ↦ return (some (sym % 2 ^ 16))
              | pos child' ↦ decode_slow fuel tree child'
            ] in
            here ≡ there r)
    child_step (negsuc sym) = refl
    child_step (pos child) = refl

slow_round :
    (fuel : ℕ) (tree : HuffmanTree) (node_idx : ℕ) (o : Option Bool) (r s : BitReader)
    → read_bit r ≡ (o, s)
    → decode_slow (suc fuel) tree node_idx r ≡ slow_on fuel tree node_idx o s
unfolding decode_slow
slow_round fuel tree node_idx none r s e = rw (e, e, decode_slow) refl
slow_round fuel tree node_idx (some b) r s e =
    let behind : (read_bit r).1 ≡ s = ap (λ o. o.1) e in
    rw (e, decode_slow)
      (node_step fuel tree b (read_bit r).1 (get_elem? tree.nodes node_idx)
        ∙ ap (slow_on fuel tree node_idx (some b)) behind)

child-Steady :
    (child : ℤ) (leaf node : ℕ → M (Option ℕ))
    → ((k : ℕ) → Steady Anything (leaf k))
    → ((k : ℕ) → Steady Anything (node k))
    → (let chosen : M (Option ℕ) = elim child [ negsuc sym ↦ leaf sym | pos k ↦ node k ] in
        Steady Anything chosen)
child-Steady (negsuc sym) leaf node h g = h sym
child-Steady (pos k) leaf node h g = g k

slow_on-Steady :
    (fuel : ℕ) (tree : HuffmanTree) (node_idx : ℕ) (o : Option Bool)
    → ((child : ℕ) → Steady Anything (decode_slow fuel tree child))
    → Steady Anything (slow_on fuel tree node_idx o)
slow_on-Steady fuel tree node_idx none h = return-Steady Anything none tt
slow_on-Steady fuel tree node_idx (some b) h =
    option-Steady Anything (get_elem? tree.nodes node_idx) _ stuck
      (λ node _.
        child-Steady (child_at (flag b) node) (λ sym. return (some (sym % 2 ^ 16)))
          (decode_slow fuel tree) (λ sym. return-Steady Anything (some (sym % 2 ^ 16)) tt) h)
      (stuck-Steady {A = Option ℕ} Anything)

decode_slow-Steady :
    (fuel : ℕ) (tree : HuffmanTree) (node_idx : ℕ)
    → Steady Anything (decode_slow fuel tree node_idx)
decode_slow-Steady zero tree node_idx bytes at_ r r' rep rep' = unfold decode_slow in tt
decode_slow-Steady (suc fuel) tree node_idx bytes at_ r r' rep rep' =
    let (s, here, at) = read_bit-Reads bytes r at_ rep in
    let (s', here', at') = read_bit-Reads bytes r' at_ rep' in
    let read : Option Bool = to_flag (cursor_read bytes at_ 1) in
    let end_ : ℕ = cursor_next bytes at_ 1 in
    rw (slow_round fuel tree node_idx read r s here, slow_round fuel tree node_idx read r' s' here')
      (Agree-mono Anything bytes at_ end_ (slow_on fuel tree node_idx read s)
        (slow_on fuel tree node_idx read s') (cursor_next-ge bytes at_ 1)
        (slow_on-Steady fuel tree node_idx read (decode_slow-Steady fuel tree) bytes end_ s s' at
          at'))

none-some : (bits : ℕ) → ◌≡◌ {A = Option ℕ} none (some bits) → ⊥
none-some bits e = cc

-- A look that finds bits has them in the buffer.
peek-has : (n bits : ℕ) (r s : BitReader) → peek n r ≡ (some bits, s) → n ≤ s.bits_in_buf
unfolding peek peeked
peek-has n bits r s e = elim (Bool-cases (ltb r.bits_in_buf n)) [
  | inl low ↦ elim (Bool-cases (ltb (refill r).bits_in_buf n)) [
    | inl end ↦
        let e' : ◌≡◌ {A = Option ℕ × BitReader} (none, refill r) (some bits, s) =
          rw (low, end) at e in
        absurd (none-some bits (ap (λ o. o.0) e'))
    | inr enough ↦
        let e' : ◌≡◌ {A = Option ℕ × BitReader} (some (shr64 (refill r).buf (64 - n)), refill r)
            (some bits, s) =
          rw (low, enough) at e in
        let same : refill r ≡ s = ap (λ o. o.1) e' in
        rw (← same) (ltb→le (refill r).bits_in_buf n enough)
  ]
  | inr high ↦
      let e' : ◌≡◌ {A = Option ℕ × BitReader} (some (shr64 r.buf (64 - n)), r) (some bits, s) =
        rw high at e in
      let same : r ≡ s = ap (λ o. o.1) e' in rw (← same) (ltb→le r.bits_in_buf n high)
]

module _ (tree : HuffmanTree) (r s : BitReader) where
  decode-none :
      peek fast_bits r ≡ (none, s) → decode tree r ≡ decode_slow (suc (remaining s)) tree 0 s
  unfolding decode
  decode-none e = rw (e, e, decode) refl

  decode_out :
      (bits : ℕ)
      → peek fast_bits r ≡ (some bits, s)
      → get_elem? tree.fast_table bits ≡ none
      → decode tree r ≡ panic
  unfolding decode
  decode_out bits e out = rw (e, out, decode) refl

  decode_fast :
      (bits entry : ℕ)
      → peek fast_bits r ≡ (some bits, s)
      → get_elem? tree.fast_table bits ≡ some entry
      → ltb 0 (unpack_len entry) ≡ true
      → decode tree r ≡ ok (some (unpack_symbol entry), consume (unpack_len entry) s)
  unfolding decode
  decode_fast bits entry e found fast = rw (e, found, fast, e, decode) refl

  decode_long :
      (bits entry : ℕ)
      → peek fast_bits r ≡ (some bits, s)
      → get_elem? tree.fast_table bits ≡ some entry
      → ltb 0 (unpack_len entry) ≡ false
      → decode tree r ≡ decode_slow (suc (remaining s)) tree 0 s
  unfolding decode
  decode_long bits entry e found slow = rw (e, found, slow, e, decode) refl

-- Both decoders fall back on the loop with the same fuel.
slow-Agree :
    (tree : HuffmanTree) (bytes : List ℕ) (pos_ : ℕ) (s s' : BitReader)
    → Represents bytes s pos_
    → Represents bytes s' pos_
    → Agree bytes pos_ Anything
        (decode_slow (suc (remaining s)) tree 0 s)
        (decode_slow (suc (remaining s')) tree 0 s')
slow-Agree tree bytes pos_ s s' at at' =
    rw (remaining-Represents bytes s pos_ at, remaining-Represents bytes s' pos_ at')
      (decode_slow-Steady (suc (8 * length bytes - pos_)) tree 0 bytes pos_ s s' at at')

-- For a tree whose entries are short, decoding a symbol is a step of a chain.
pub decode-Steady : (tree : HuffmanTree) → IsFast tree → Steady Anything (decode tree)
decode-Steady tree short bytes pos_ r r' rep rep' =
    let (s, here, at) = peek-Reads bytes r pos_ fast_bits rep (omega arith) (omega arith) in
    let (s', here', at') = peek-Reads bytes r' pos_ fast_bits rep' (omega arith) (omega arith) in
    elim (Option-cases (cursor_read bytes pos_ fast_bits)) [
      | inl nothing ↦
          let look : peek fast_bits r ≡ (none, s) = rw nothing at here in
          let look' : peek fast_bits r' ≡ (none, s') = rw nothing at here' in
          rw (decode-none tree r s look, decode-none tree r' s' look')
            (slow-Agree tree bytes pos_ s s' at at')
      | inr (bits, e) ↦
          let look : peek fast_bits r ≡ (some bits, s) = rw e at here in
          let look' : peek fast_bits r' ≡ (some bits, s') = rw e at here' in
          elim (Option-cases (get_elem? tree.fast_table bits)) [
            | inl out ↦
                rw (decode_out tree r s bits look out, decode_out tree r' s' bits look' out) tt
            | inr (entry, found) ↦ elim (Bool-cases (ltb 0 (unpack_len entry))) [
              | inl fast ↦
                  let le : unpack_len entry ≤ fast_bits =
                    get_elem?-All IsShort tree.fast_table bits entry short found in
                  rw
                    (
                      decode_fast tree r s bits entry look found fast,
                      decode_fast tree r' s' bits entry look' found fast,
                    )
                    (
                      refl,
                      tt,
                      pos_ + unpack_len entry,
                      omega arith,
                      consume-Represents bytes s pos_ (unpack_len entry) at
                          (omega (arith, le, peek-has fast_bits bits r s look)) (omega (arith, le)),
                      consume-Represents bytes s' pos_ (unpack_len entry) at'
                          (omega (arith, le, peek-has fast_bits bits r' s' look'))
                          (omega (arith, le)),
                    )
              | inr long ↦
                  rw
                    (
                      decode_long tree r s bits entry look found long,
                      decode_long tree r' s' bits entry look' found long,
                    )
                    (slow-Agree tree bytes pos_ s s' at at')
            ]
          ]
    ]
