-- ===== src/Block/Safety.antt =====
-- src/block.rs, the symbol loop of `decode_block_common`: what a step keeps holds behind the loop.
use lbzip2_rs.Prelude.{
  Anything, OnOk, get_or-replicate, ℕ, zero, suc, ◌+◌, ◌-◌, ◌^◌, ◌≤◌, ◌<◌, arith, List, length,
  length-append, length-replicate, get_elem?, get_or, replicate, Result, ok, err, panic, index, leb,
}
use lbzip2_rs.BitReader.Defs.{BitReader}
use lbzip2_rs.BitStream.{IsBytes}
use lbzip2_rs.Huffman.Tree.{HuffmanTree}
use lbzip2_rs.Bwt.Buckets.{count}
use lbzip2_rs.Block.Reading.{M, bind_result, return, lift, fail_when}
use lbzip2_rs.Block.Header.{Header}
use lbzip2_rs.Block.Symbols.{
  State, Flow, next, done, huffman_symbol, step_symbol, decode_group, tree_slots, decode_groups,
  start, decode_symbols,
}
use lbzip2_rs.Block.Tally.{
  IsTallied, flow_state, step_symbol-IsTallied, append-IsBytes, replicate-IsBytes,
}

-- A statement about the value that a chain of reads gives.
abbrev pub Gives : {A : Type 0} → (A → Type 0) → Result (A × BitReader) → Type 0
Gives P = OnOk (λ o. P o.0)

pub bind_result-Gives :
    {A B : Type 0} (P : A → Type 0) (Q : B → Type 0) (m : Result (A × BitReader)) (f : A → M B)
    → Gives P m
    → ((a : A) (r : BitReader) → P a → Gives Q (f a r))
    → Gives Q (bind_result m f)
bind_result-Gives P Q (ok (a, r)) f h g = g a r h
bind_result-Gives P Q (err e) f h g = tt
bind_result-Gives P Q panic f h g = tt

lift-Gives :
    {A : Type 0} (P : A → Type 0) (o : Result A) (r : BitReader) → OnOk P o → Gives P (lift o r)
lift-Gives P (ok a) r h = h
lift-Gives P (err e) r h = tt
lift-Gives P panic r h = tt

pub Gives-Anything : {A : Type 0} (m : Result (A × BitReader)) → Gives Anything m
Gives-Anything (ok (a, r)) = tt
Gives-Anything (err e) = tt
Gives-Anything panic = tt

module _ (max_blocksize : ℕ) (small : max_blocksize < 2 ^ 32) (eob_symbol : ℕ) where
  abbrev After : Flow → Type 0
  After flow = IsTallied max_blocksize (flow_state flow)

  on_flow :
      {A : Type 0} (Q : A → Type 0) (f g : State → M A) (flow : Flow) (r : BitReader)
      → After flow
      → ((s : State) → IsTallied max_blocksize s → Gives Q (f s r))
      → ((s : State) → IsTallied max_blocksize s → Gives Q (g s r))
      → (let chosen : M A = elim flow [ done s ↦ f s | next s ↦ g s ] in Gives Q (chosen r))
  unfolding flow_state
  on_flow Q f g (done s) r h end more = end s h
  on_flow Q f g (next s) r h end more = more s h

  decode_group-IsTallied :
      (left : ℕ) (tree : HuffmanTree) (s : State) (r : BitReader)
      → IsTallied max_blocksize s
      → Gives After (decode_group left max_blocksize eob_symbol tree s r)
  unfolding decode_group flow_state
  decode_group-IsTallied zero tree s r h = h
  decode_group-IsTallied (suc left) tree s r h =
      bind_result-Gives Anything After (huffman_symbol tree r) _
        (Gives-Anything (huffman_symbol tree r))
        λ code r1 _.
          bind_result-Gives After After (lift (step_symbol max_blocksize eob_symbol code s) r1) _
            (lift-Gives After (step_symbol max_blocksize eob_symbol code s) r1
              (step_symbol-IsTallied max_blocksize small eob_symbol code s h))
            (λ flow r2 g.
              on_flow After (λ s'. return (done s'))
                (decode_group left max_blocksize eob_symbol tree) flow r2 g (λ s' h'. h')
                (λ s' h'. decode_group-IsTallied left tree s' r2 h'))

  decode_groups-IsTallied :
      (fuel : ℕ) (selectors : List ℕ) (trees : List HuffmanTree) (sel_idx : ℕ) (tree : HuffmanTree)
      (s : State) (r : BitReader)
      → IsTallied max_blocksize s
      → Gives
          (IsTallied max_blocksize)
          (decode_groups fuel max_blocksize eob_symbol selectors trees sel_idx tree s r)
  unfolding decode_groups flow_state
  decode_groups-IsTallied zero selectors trees sel_idx tree s r h = tt
  decode_groups-IsTallied (suc fuel) selectors trees sel_idx tree s r h =
      let Good : State → Type 0 = IsTallied max_blocksize in
      bind_result-Gives After Good (decode_group 50 max_blocksize eob_symbol tree s r) _
        (decode_group-IsTallied 50 tree s r h)
        (λ flow r1 g.
          on_flow Good return _ flow r1 g (λ s' h'. h')
            λ s' h'.
              let sel : ℕ = get_or selectors (sel_idx + 1) 0 in
              let spent : Result ((Unit {0}) × BitReader) =
                fail_when (leb (length selectors) (sel_idx + 1)) "ran out of selectors" r1 in
              bind_result-Gives Anything Good spent _ (Gives-Anything spent) λ _ r2 _.
                let out : Result ((Unit {0}) × BitReader) =
                  fail_when (leb (length trees) sel) "selector out of range" r2 in
                bind_result-Gives Anything Good out _ (Gives-Anything out) λ _ r3 _.
                  let found : Result (HuffmanTree × BitReader) =
                    lift (index (get_elem? (tree_slots trees) sel)) r3 in
                  bind_result-Gives Anything Good found _ (Gives-Anything found) λ next_tree r4 _.
                    decode_groups-IsTallied fuel selectors trees (sel_idx + 1) next_tree s' r4 h')

-- What the symbol loop needs of a header.
abbrev pub HasBytes : Header → Type 0
HasBytes h = IsBytes h.used × (length h.used ≤ 256)

start-IsTallied :
    (max_blocksize : ℕ) (used : List ℕ)
    → IsBytes used
    → length used ≤ 256
    → IsTallied max_blocksize (start used)
start-IsTallied max_blocksize used bytes_ok few = record {
  bytes_ok = tt;
  within = omega arith;
  tally = record {
    size = length-replicate {A = ℕ} 256 0;
    counts = λ b lt. unfold count in get_or-replicate 256 0 b 0 lt;
  };
  symbols_ok =
      append-IsBytes used (replicate (256 - length used) 0) bytes_ok
        (replicate-IsBytes (256 - length used) 0 (omega arith));
  symbols_all = omega (
    arith,
    length-append used (replicate (256 - length used) 0),
    length-replicate {A = ℕ} (256 - length used) 0,
  );
}

pub decode_symbols-IsTallied :
    (max_blocksize : ℕ) (h : Header) (r : BitReader)
    → max_blocksize < 2 ^ 32
    → HasBytes h
    → Gives (IsTallied max_blocksize) (decode_symbols max_blocksize h r)
unfolding decode_symbols
decode_symbols-IsTallied max_blocksize h r small good =
    let found : Result (HuffmanTree × BitReader) =
      lift (index (get_elem? (tree_slots h.trees) (get_or h.selectors 0 0))) r in
    bind_result-Gives Anything (IsTallied max_blocksize) found _ (Gives-Anything found) λ tree r1 _.
      decode_groups-IsTallied max_blocksize small (length h.used + 1) (suc (length h.selectors))
        h.selectors h.trees 0 tree (start h.used) r1
        (start-IsTallied max_blocksize h.used good.0 good.1)
