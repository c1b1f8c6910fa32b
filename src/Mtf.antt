-- ===== src/Mtf.antt =====
-- src/mtf.rs: the move-to-front decoder. A value is the array `symbols` of the decoder.
pub mod Front
pub mod RoundTrip
use lbzip2_rs.Prelude.{
  ℕ, suc, ◌+◌, List, [], ◌∷◌, ◌++◌, get_or, set, take, drop, count_up, ◌==◌, if◌then◌else◌,
}

-- `MtfDecoder::new`: `symbols[i] = i`.
abbrev pub new : List ℕ
new = count_up 0 256

abbrev pub with_symbols : List ℕ → List ℕ
with_symbols symbols = symbols

-- `symbols.copy_within(..n, 1)`.
abbrev pub shift_up : ℕ → List ℕ → List ℕ
shift_up n symbols = take 1 symbols ++ (take n symbols ++ drop (suc n) symbols)

-- The symbol at `n`, which is a u8 and so within the 256 symbols, and the decoder after it.
unfoldable pub decode : ℕ → List ℕ → ℕ × List ℕ
decode n symbols =
    let b = get_or symbols n 0 in
    if n == 0
    then (b, symbols)
    else (if n == 1
        then (b, set (set symbols 1 (get_or symbols 0 0)) 0 b)
        else (b, set (shift_up n symbols) 0 b))

unfoldable pub first : List ℕ → ℕ
first symbols = get_or symbols 0 0
