-- ===== src/Mtf/Front.antt =====
-- src/mtf.rs: the three branches of `decode` all move the symbol to the front.
use lbzip2_rs.Prelude.{
  ℕ, zero, suc, ◌+◌, ◌≤◌, ◌<◌, ◌≡◌, refl, arith, List, [], ◌∷◌, ◌++◌, length, get_or, take, drop,
  ◌==◌, if◌then◌else◌, ltb, false,
}
use lbzip2_rs.Mtf.{decode}

abbrev pub without : ℕ → List ℕ → List ℕ
without n xs = take n xs ++ drop (suc n) xs

-- For a position `n` within the symbols, `decode` gives the symbol at `n`, and the decoder after it
-- has that symbol first and behind it the others in their order.
pub decode_lem :
    (n : ℕ) (symbols : List ℕ)
    → n < length symbols
    → decode n symbols ≡ (get_or symbols n 0, get_or symbols n 0 ∷ without n symbols)
unfolding decode
decode_lem n [] h = absurd (omega arith)
decode_lem zero (x ∷ xs) h = refl
decode_lem (suc zero) (x ∷ []) h = absurd (omega arith)
decode_lem (suc zero) (x ∷ y ∷ xs) h = refl
decode_lem (suc (suc n)) (x ∷ xs) h =
    let not_zero : (suc (suc n) == 0) ≡ false = ground arith in
    let not_one : (suc (suc n) == 1) ≡ false = ground arith in rw (not_zero, not_one)

-- The first `k` symbols stay below `k`: decoding positions below `k` gives values below `k`.
abbrev pub Closed : ℕ → List ℕ → Type 0
Closed k symbols = (k ≤ length symbols) × ((i : ℕ) → i < k → get_or symbols i 0 < k)

pub length-without : (n : ℕ) (xs : List ℕ) → n < length xs → length (without n xs) + 1 ≡ length xs
length-without n [] h = absurd (omega arith)
length-without zero (x ∷ xs) h = omega arith
length-without (suc n) (x ∷ xs) h = omega (arith, length-without n xs (omega arith))

get_or-without :
    (n : ℕ) (xs : List ℕ) (i : ℕ)
    → get_or (without n xs) i 0 ≡ (if ltb i n then get_or xs i 0 else get_or xs (suc i) 0)
get_or-without zero [] i = ground arith
get_or-without (suc n) [] i = ground arith
get_or-without zero (x ∷ xs) i = ground arith
get_or-without (suc n) (x ∷ xs) zero = ground arith
get_or-without (suc n) (x ∷ xs) (suc i) = ground (arith, get_or-without n xs i)

-- For a position below `k`, and a decoder of `k` symbols or more whose first `k` are below `k`,
-- `decode` gives a symbol below `k`, and the decoder after it is again such a one.
pub decode-Closed :
    (k n : ℕ) (symbols : List ℕ)
    → n < k
    → Closed k symbols
    → ((decode n symbols).0 < k) × Closed k (decode n symbols).1
decode-Closed k n symbols lt (long, small) =
    rw (decode_lem n symbols (omega arith)) (
      small n lt,
      (omega (arith, length-without n symbols (omega arith)), λ i below. after i below),
    )
  where
    after : (i : ℕ) → i < k → get_or (get_or symbols n 0 ∷ without n symbols) i 0 < k
    after zero below = small n lt
    after (suc i) below = ground (arith, get_or-without n symbols i, small i, small (suc i))
