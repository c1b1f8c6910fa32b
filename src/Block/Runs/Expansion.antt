-- ===== src/Block/Runs/Expansion.antt =====
-- src/block.rs and src/chunk.rs: how far the final run decoding expands a block, against the buffer
-- of `max_blocksize + max_blocksize / 4` bytes that `decode_segment` gives it.
use lbzip2_rs.Prelude.{
  ℕ, zero, suc, ◌+◌, ◌*◌, ◌/◌, ◌≤◌, ◌<◌, ◌≡◌, refl, sym, ap, ◌∙◌, arith, true, false, ◌&&◌, List,
  ◌∷◌, ◌++◌, length, length-append, length-replicate, replicate, panic, ltb, lt→leb, ◌==◌,
}
use lbzip2_rs.Block.Runs.{rle2_decode_into}
use lbzip2_rs.Block.Runs.RoundTrip.{
  Chain, encode_run, encode_from, encode_from_more, encode_from_new, encode, written-encode,
}
use lbzip2_rs.Block.Runs.Room.{rle2_decode_into-written}

replicate-add : (m n b : ℕ) → replicate (m + n) b ≡ replicate m b ++ replicate n b
replicate-add zero n b = let e : 0 + n ≡ n = omega arith in rw e
replicate-add (suc m) n b =
    let e : suc m + n ≡ suc (m + n) = omega arith in rw e (ap (λ t. b ∷ t) (replicate-add m n b))

same_run : (b n : ℕ) → n < 259 → (b == b && ltb n 259) ≡ true
same_run b n h = ground arith

full_run : (b : ℕ) → (b == b && ltb 259 259) ≡ false
full_run b = ground arith

grow :
    (j n b : ℕ) (xs : List ℕ)
    → n + j ≤ 259
    → encode_from b n (replicate j b ++ xs) ≡ encode_from b (n + j) xs
grow zero n b xs h = let e : n + 0 ≡ n = omega arith in rw e
grow (suc j) n b xs h =
    let e : n + suc j ≡ n + 1 + j = omega arith in
    rw e (
      encode_from_more b b n (replicate j b ++ xs) (same_run b n (omega arith))
      ∙ grow j (n + 1) b xs (omega arith))

-- After one byte, 258 more fill the run.
one_run :
    (b : ℕ) (m : ℕ) (xs : List ℕ)
    → m ≡ 258
    → encode_from b 1 (replicate m b ++ xs) ≡ encode_from b 259 xs
one_run b m xs e =
    grow m 1 b xs (omega arith)
    ∙ (let to : 1 + m ≡ 259 = omega arith in ap (λ (t : ℕ). encode_from b t xs) to)

length-run : (b : ℕ) → length (encode_run b 259) ≡ 5
unfolding encode_run
length-run b = refl

next_run :
    (b m n : ℕ)
    → m ≡ 258
    → length (encode_from b 259 (replicate (suc (m + n)) b))
      ≡ 5 + length (encode_from b 259 (replicate n b))
next_run b m n e = rw (
  encode_from_new b b 259 (replicate (m + n) b) (full_run b),
  replicate-add m n b,
  one_run b m (replicate n b) e,
  length-append (encode_run b 259) (encode_from b 259 (replicate n b)),
  length-run b,
)

full_runs : (k b : ℕ) → length (encode_from b 259 (replicate (k * 259) b)) ≡ 5 * (k + 1)
unfolding encode_from
full_runs zero b = length-run b
full_runs (suc k) b =
    let e : suc k * 259 ≡ suc (258 + k * 259) = omega arith in
    rw e (omega (arith, next_run b 258 (k * 259) refl, full_runs k b))

-- A text of `259 * k` equal bytes is encoded in `5 * k`.
first_run :
    (b m n : ℕ) → m ≡ 258 → encode (replicate (suc (m + n)) b) ≡ encode_from b 259 (replicate n b)
unfolding encode
first_run b m n e = rw (replicate-add m n b) (one_run b m (replicate n b) e)

pub length-encode-replicate : (k b : ℕ) → length (encode (replicate (k * 259) b)) ≡ 5 * k
length-encode-replicate zero b = unfold encode in refl
length-encode-replicate (suc k) b =
    let e : suc k * 259 ≡ suc (258 + k * 259) = omega arith in
    rw (e, first_run b 258 (k * 259) refl) (omega (arith, full_runs k b))

-- The same for any text.
pub rle2_decode_into_overflow :
    (text tt_ : List ℕ) (t_pos max_blocksize : ℕ)
    → Chain tt_ t_pos (encode text)
    → length tt_ ≡ length (encode text)
    → max_blocksize + max_blocksize / 4 < length text
    → rle2_decode_into tt_ t_pos (max_blocksize + max_blocksize / 4) ≡ panic
rle2_decode_into_overflow text tt_ t_pos max_blocksize c e long =
    let cap : ℕ = max_blocksize + max_blocksize / 4 in
    rw (
      rle2_decode_into-written tt_ t_pos cap text (written-encode text tt_ t_pos c e),
      lt→leb (length text) cap long,
    )

-- A vector of `5 * k` entries, within the block size, whose chain spells the run encoding of
-- `259 * k` equal bytes makes `rle2_decode_into` panic in a buffer of a quarter more than the block
-- size, if that is less than `259 * k`.
pub rle2_decode_into_overflow_runs :
    (k b max_blocksize : ℕ) (tt_ : List ℕ) (t_pos : ℕ)
    → Chain tt_ t_pos (encode (replicate (k * 259) b))
    → length tt_ ≡ 5 * k
    → length tt_ ≤ max_blocksize
    → max_blocksize + max_blocksize / 4 < k * 259
    → rle2_decode_into tt_ t_pos (max_blocksize + max_blocksize / 4) ≡ panic
rle2_decode_into_overflow_runs k b max_blocksize tt_ t_pos c e fits long =
    rle2_decode_into_overflow (replicate (k * 259) b) tt_ t_pos max_blocksize c
      (e ∙ sym (length-encode-replicate k b)) (omega (arith, length-replicate (k * 259) b))
