-- ===== src/Tests/Transforms.antt =====
-- The theorems on src/mtf.rs, src/bwt.rs, src/huffman.rs and the final run decoding at small inputs.
use lbzip2_rs.Prelude.{
  OnOk, ℕ, zero, suc, ◌+◌, ◌*◌, ◌/◌, ◌<◌, ◌≡◌, refl, arith, List, [], ◌∷◌, length, get_or,
  replicate, ok, panic, ◌++◌, ◌⊎◌, ◌>>=◌, leb, if◌then◌else◌,
}
use lbzip2_rs.Tests.Bytes.{all_bytes, all_bytes-IsBytes}
use lbzip2_rs.BitStream.{IsBytes}
use lbzip2_rs.Mtf.{decode}
use lbzip2_rs.Mtf.Front.{decode_lem}
use lbzip2_rs.Mtf.RoundTrip.{index_of, encode_all, decode_all, decode_all-encode_all}
use lbzip2_rs.Huffman.Tree.{pack_entry, unpack_symbol, unpack_len}
use lbzip2_rs.Huffman.Build.{from_lengths}
use lbzip2_rs.Huffman.Fast.{IsFast, unpack-pack_entry, from_lengths-IsFast}
use lbzip2_rs.Bwt.{inverse_bwt}
use lbzip2_rs.Bwt.Buckets.{count, IsHistogram}
use lbzip2_rs.Bwt.Links.{IsLinked, inverse_bwt-IsLinked, rle2_decode_alloc-inverse_bwt}
use lbzip2_rs.Block.Runs.{rle2_decode_alloc, rle2_decode_into}
use lbzip2_rs.Block.Runs.RoundTrip.{
  encode, encode_run, encode_from, Chain, rle2_decode_alloc-encode,
}
use lbzip2_rs.Block.Runs.Overrun.{rle2_decode_alloc_overrun}
use lbzip2_rs.Block.Runs.Room.{rle2_decode_into-rle2_decode_alloc}
use lbzip2_rs.Block.Runs.Expansion.{rle2_decode_into_overflow_runs}

abbrev three : List ℕ
three = 2 ∷ 0 ∷ 1 ∷ []

decode_lem_example : decode 2 three ≡ (1, 1 ∷ 2 ∷ 0 ∷ [])
decode_lem_example = decode_lem 2 three (omega arith)

three_small : (i : ℕ) → i < 3 → get_or three i 0 < 3
three_small zero lt = omega arith
three_small (suc zero) lt = omega arith
three_small (suc (suc zero)) lt = omega arith
three_small (suc (suc (suc i))) lt = absurd (omega arith)

decode_all-encode_all_example :
    decode_all (encode_all (1 ∷ 1 ∷ 2 ∷ []) three) three ≡ 1 ∷ 1 ∷ 2 ∷ []
unfolding index_of
decode_all-encode_all_example =
    decode_all-encode_all (1 ∷ 1 ∷ 2 ∷ []) three (omega arith, (omega arith, (omega arith, tt)))

-- Five equal bytes: four, and the count of further ones.
abbrev five : List ℕ
five = 7 ∷ 7 ∷ 7 ∷ 7 ∷ 7 ∷ []

abbrev linked_five : List ℕ
linked_five = 263 ∷ 519 ∷ 775 ∷ 1031 ∷ 1 ∷ []

five-Chain : Chain linked_five 0 (encode five)
unfolding encode encode_run encode_from
five-Chain = (
  263,
  refl,
  refl,
  omega arith,
  (
    519,
    refl,
    refl,
    omega arith,
    (
      775,
      refl,
      refl,
      omega arith,
      (1031, refl, refl, omega arith, (1, refl, refl, omega arith, tt)),
    ),
  ),
)

five-length : length linked_five ≡ length (encode five)
unfolding encode encode_run encode_from
five-length = refl

rle2_decode_alloc-encode_example : rle2_decode_alloc linked_five 0 ≡ ok five
rle2_decode_alloc-encode_example =
    rle2_decode_alloc-encode five linked_five 0 five-Chain five-length (omega arith)

five_decoded : rle2_decode_alloc linked_five 0 ≡ ok five
unfolding rle2_decode_alloc
five_decoded = refl

rle2_decode_into-rle2_decode_alloc_example :
    rle2_decode_into linked_five 0 4 ≡ (if leb (length five) 4 then ok five else panic)
rle2_decode_into-rle2_decode_alloc_example =
    rle2_decode_into-rle2_decode_alloc linked_five 0 4 five five_decoded

-- 259 equal bytes in five entries.
abbrev linked_run : List ℕ
linked_run = 263 ∷ 519 ∷ 775 ∷ 1031 ∷ 255 ∷ []

run-Chain : Chain linked_run 0 (encode (replicate (1 * 259) 7))
unfolding encode encode_run encode_from
run-Chain = (
  263,
  refl,
  refl,
  omega arith,
  (
    519,
    refl,
    refl,
    omega arith,
    (
      775,
      refl,
      refl,
      omega arith,
      (1031, refl, refl, omega arith, (255, refl, refl, omega arith, tt)),
    ),
  ),
)

rle2_decode_into_overflow_runs_example : rle2_decode_into linked_run 0 (8 + 8 / 4) ≡ panic
rle2_decode_into_overflow_runs_example =
    rle2_decode_into_overflow_runs 1 7 8 linked_run 0 run-Chain refl (omega arith) (omega arith)

abbrev two : List ℕ
two = 1 ∷ 0 ∷ []

two-IsBytes : IsBytes two
unfolding all_bytes
two-IsBytes = all_bytes-IsBytes two refl

abbrev counts : List ℕ
counts = 1 ∷ 1 ∷ replicate 254 0

zeros : (n i : ℕ) → get_or (replicate {A = ℕ} n 0) i 0 ≡ 0
zeros zero i = refl
zeros (suc n) zero = refl
zeros (suc n) (suc i) = zeros n i

two_counts : (b : ℕ) → b < 256 → get_or counts b 0 ≡ count b two
unfolding count
two_counts zero lt = refl
two_counts (suc zero) lt = refl
two_counts (suc (suc b)) lt = ground (arith, zeros 254 b)

two-IsHistogram : IsHistogram two counts
two-IsHistogram = record { size = refl; counts = two_counts }

inverse_bwt-IsLinked_example :
    (tt' : List ℕ) × (t_pos : ℕ) × (inverse_bwt two 1 counts ≡ ok (tt', t_pos))
    × (t_pos < length two)
    × IsLinked two tt'
inverse_bwt-IsLinked_example =
    inverse_bwt-IsLinked two two-IsBytes (omega arith) 1 counts two-IsHistogram (omega arith)

rle2_decode_alloc-inverse_bwt_example :
    (out : List ℕ) × (((inverse_bwt two 1 counts >>= (λ (tt', t_pos). rle2_decode_alloc tt' t_pos))
        ≡ ok out)
      ⊎ (length two + length two / 4 < length out))
    × ((cap : ℕ)
        → (inverse_bwt two 1 counts >>= (λ (tt', t_pos). rle2_decode_into tt' t_pos cap))
          ≡ (if leb (length out) cap then ok out else panic))
rle2_decode_alloc-inverse_bwt_example =
    rle2_decode_alloc-inverse_bwt two 1 counts two-IsBytes (omega arith) two-IsHistogram
      (omega arith)

-- Twelve equal bytes fill the capacity of 12 that ten entries have; the byte behind them is out of
-- range.
abbrev linked_overrun : List ℕ
linked_overrun = 353 ∷ 609 ∷ 865 ∷ 1121 ∷ 1288 ∷ 1634 ∷ 1891 ∷ 2148 ∷ 2405 ∷ 102 ∷ []

abbrev twelve : List ℕ
twelve = replicate 12 97

overrun-Chain : Chain linked_overrun 0 (encode twelve ++ (98 ∷ 99 ∷ 100 ∷ 101 ∷ 102 ∷ []))
unfolding encode encode_run encode_from
overrun-Chain = (
  353,
  refl,
  refl,
  omega arith,
  (
    609,
    refl,
    refl,
    omega arith,
    (
      865,
      refl,
      refl,
      omega arith,
      (
        1121,
        refl,
        refl,
        omega arith,
        (
          1288,
          refl,
          refl,
          omega arith,
          (
            1634,
            refl,
            refl,
            omega arith,
            (
              1891,
              refl,
              refl,
              omega arith,
              (
                2148,
                refl,
                refl,
                omega arith,
                (2405, refl, refl, omega arith, (102, refl, refl, omega arith, tt)),
              ),
            ),
          ),
        ),
      ),
    ),
  ),
)

overrun-length : length linked_overrun ≡ length (encode twelve ++ (98 ∷ 99 ∷ 100 ∷ 101 ∷ 102 ∷ []))
unfolding encode encode_run encode_from
overrun-length = refl

rle2_decode_alloc_overrun_example : rle2_decode_alloc linked_overrun 0 ≡ panic
rle2_decode_alloc_overrun_example =
    rle2_decode_alloc_overrun twelve linked_overrun 0 98 (99 ∷ 100 ∷ 101 ∷ 102 ∷ []) overrun-Chain
      overrun-length refl

overrun_text :
    rle2_decode_into linked_overrun 0 17 ≡ ok (replicate 12 97 ++ (98 ∷ 99 ∷ 100 ∷ 101 ∷ 102 ∷ []))
unfolding rle2_decode_into
overrun_text = refl

-- The entry of the symbol 257 with a code of 9 bits.
unpack-pack_entry_example :
    (unpack_symbol (pack_entry 257 9) ≡ 257) × (unpack_len (pack_entry 257 9) ≡ 9)
unpack-pack_entry_example = unpack-pack_entry 257 9 (omega arith) (omega arith)

from_lengths-IsFast_example : OnOk IsFast (from_lengths (1 ∷ 3 ∷ 3 ∷ 2 ∷ []))
from_lengths-IsFast_example = from_lengths-IsFast (1 ∷ 3 ∷ 3 ∷ 2 ∷ [])
