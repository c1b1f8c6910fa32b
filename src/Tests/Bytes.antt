-- ===== src/Tests/Bytes.antt =====
-- Test data: test_data/hello.bz2, and whether a concrete list is one of bytes, by computation.
use lbzip2_rs.Prelude.{ℕ, ◌≡◌, arith, Bool, true, ◌&&◌, List, [], ◌∷◌, ltb}
use lbzip2_rs.BitStream.{IsBytes}

unfoldable pub all_bytes : List ℕ → Bool
all_bytes [] = true
all_bytes (x ∷ xs) = ltb x 256 && all_bytes xs

pub all_bytes-IsBytes : (xs : List ℕ) → all_bytes xs ≡ true → IsBytes xs
unfolding all_bytes
all_bytes-IsBytes [] e = tt
all_bytes-IsBytes (x ∷ xs) e = (ground arith, all_bytes-IsBytes xs (ground arith))

abbrev pub hello : List ℕ
hello =
    66 ∷ 90 ∷ 104 ∷ 57 ∷ 49 ∷ 65 ∷ 89 ∷ 38 ∷ 83 ∷ 89 ∷ 153 ∷ 172 ∷ 34 ∷ 86 ∷ 0 ∷ 0 ∷ 2 ∷ 87 ∷ 128
    ∷ 0 ∷ 16 ∷ 96 ∷ 4 ∷ 0 ∷ 64 ∷ 0 ∷ 128 ∷ 6 ∷ 4 ∷ 144 ∷ 0 ∷ 32 ∷ 0 ∷ 34 ∷ 6 ∷ 129 ∷ 144 ∷ 128 ∷ 105
    ∷ 166 ∷ 137 ∷ 24 ∷ 106 ∷ 206 ∷ 164 ∷ 25 ∷ 111 ∷ 139 ∷ 185 ∷ 34 ∷ 156 ∷ 40 ∷ 72 ∷ 76 ∷ 214 ∷ 17
    ∷ 43 ∷ 0 ∷ []
