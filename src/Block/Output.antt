-- ===== src/Block/Output.antt =====
-- src/block.rs: a block that decodes has an output of at least one byte.
use lbzip2_rs.Prelude.{
  ℕ, ◌+◌, ◌/◌, ◌%◌, ◌^◌, ◌<◌, ◌≡◌, refl, leb, arith, List, [], ◌∷◌, length, get_elem?, Result, ok,
  err, panic, index, OnOk, OnOk-Anything, Anything, >>=-OnOk, >>=-eq-ok,
}
use lbzip2_rs.BitReader.Defs.{BitReader}
use lbzip2_rs.Bwt.{link, cumulate, inverse_bwt}
use lbzip2_rs.Block.Reading.{M, bind_result, lift, fail_when}
use lbzip2_rs.Block.Header.{read_header}
use lbzip2_rs.Block.Symbols.{decode_symbols}
use lbzip2_rs.Block.Runs.{start, write_byte, rle2_decode_alloc}
use lbzip2_rs.Block.Runs.Written.{written, written_loop, write_byte-length, loop-length}
use lbzip2_rs.Block.Runs.Alloc.{rle2_decode_alloc-written}
use lbzip2_rs.Block.Common.{decode_block_common, decode_block}

written-positive :
    (tt_ : List ℕ) (t_pos : ℕ) (out : List ℕ)
    → 0 < length tt_
    → written tt_ t_pos ≡ ok out
    → 0 < length out
unfolding written written_loop
written-positive [] t_pos out some_ h = absurd (omega arith)
written-positive (x ∷ xs) t_pos out some_ h =
    let (entry, good, h1) = >>=-eq-ok (index (get_elem? (x ∷ xs) t_pos)) _ h in
    let (next_entry, good', h2) = >>=-eq-ok (index (get_elem? (x ∷ xs) (entry / 2 ^ 8))) _ h1 in
    let b : ℕ = entry % 2 ^ 8 in
    let one : length (write_byte start b).output ≡ 0 + 1 = write_byte-length start b in
    omega (arith, one, loop-length (length xs) (x ∷ xs) (entry / 2 ^ 8) (write_byte start b) out h2)

always : {A : Type 0} {P : A → Type 0} (r : Result A) → ((a : A) → P a) → OnOk P r
always (ok a) h = h a
always (err e) h = tt
always panic h = tt

index-positive : (xs : List ℕ) (i : ℕ) → OnOk (λ entry. 0 < length xs) (index (get_elem? xs i))
index-positive [] i = tt
index-positive (x ∷ xs) i = always (index (get_elem? (x ∷ xs) i)) (λ a. omega arith)

inverse_bwt-positive :
    (tt_ : List ℕ) (orig_ptr : ℕ) (c : List ℕ)
    → OnOk (λ o. 0 < length o.0) (inverse_bwt tt_ orig_ptr c)
unfolding inverse_bwt
inverse_bwt-positive tt_ orig_ptr c =
    let linked : Result (List ℕ) = link (length tt_) 0 tt_ (cumulate 0 c) in
    >>=-OnOk Anything (λ o. 0 < length o.0) linked _ (OnOk-Anything linked)
      λ tt' _.
        >>=-OnOk (λ entry. 0 < length tt') (λ o. 0 < length o.0) (index (get_elem? tt' orig_ptr)) _
          (index-positive tt' orig_ptr) (λ entry h. h)

bind-OnOk :
    {A B : Type 0} (P : A → Type 0) (Q : B → Type 0) (m : Result (A × BitReader)) (f : A → M B)
    → OnOk (λ o. P o.0) m
    → ((a : A) (r : BitReader) → P a → OnOk (λ o. Q o.0) (f a r))
    → OnOk (λ o. Q o.0) (bind_result m f)
bind-OnOk P Q (ok (a, r)) f h next = next a r h
bind-OnOk P Q (err e) f h next = tt
bind-OnOk P Q panic f h next = tt

lift-OnOk :
    {A : Type 0} (P : A → Type 0) (o : Result A) (r : BitReader)
    → OnOk P o
    → OnOk (λ o. P o.0) (lift o r)
lift-OnOk P (ok a) r h = h
lift-OnOk P (err e) r h = tt
lift-OnOk P panic r h = tt

decode_block_common-positive :
    (max_blocksize : ℕ) (r : BitReader)
    → OnOk (λ o. 0 < length o.0.0) (decode_block_common max_blocksize r)
unfolding decode_block_common
decode_block_common-positive max_blocksize r =
    let P : List ℕ × ℕ → Type 0 = λ o. 0 < length o.0 in
    bind-OnOk Anything P (read_header r) _ (always (read_header r) (λ a. tt)) λ h r1 _.
      bind-OnOk Anything P (decode_symbols max_blocksize h r1) _
        (always (decode_symbols max_blocksize h r1) (λ a. tt))
        λ s r2 _.
          bind-OnOk Anything P
            (fail_when (leb (length s.tt_) h.orig_ptr) "orig_ptr out of bounds" r2) _
            (always (fail_when (leb (length s.tt_) h.orig_ptr) "orig_ptr out of bounds" r2)
              (λ a. tt))
            (λ u r3 _.
              lift-OnOk P (inverse_bwt s.tt_ h.orig_ptr s.c) r3
                (inverse_bwt-positive s.tt_ h.orig_ptr s.c))

alloc-positive :
    (tt_ : List ℕ) (t_pos : ℕ) (o : Result (List ℕ))
    → 0 < length tt_
    → rle2_decode_alloc tt_ t_pos ≡ o
    → OnOk (λ out. 0 < length out) o
alloc-positive tt_ t_pos (ok out) some_ e =
    written-positive tt_ t_pos out some_ (rle2_decode_alloc-written tt_ t_pos out e)
alloc-positive tt_ t_pos (err x) some_ e = tt
alloc-positive tt_ t_pos panic some_ e = tt

-- A block that `decode_block` decodes has an output of at least one byte.
pub decode_block-positive :
    (max_blocksize : ℕ) (r : BitReader) → OnOk (λ o. 0 < length o.0) (decode_block max_blocksize r)
unfolding decode_block
decode_block-positive max_blocksize r =
    bind-OnOk (λ common. 0 < length common.0) (λ out. 0 < length out)
      (decode_block_common max_blocksize r) _ (decode_block_common-positive max_blocksize r)
      (λ common r' some_.
        lift-OnOk (λ out. 0 < length out) (rle2_decode_alloc common.0 common.1) r'
          (alloc-positive common.0 common.1 _ some_ refl))
