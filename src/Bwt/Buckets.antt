-- ===== src/Bwt/Buckets.antt =====
-- src/bwt.rs: the first loop of `inverse_bwt` turns the counts of the bytes into the places where
-- the bytes' buckets begin.
use native.Mathlib.Nat.{mod-eq_of_lt}
use lbzip2_rs.Prelude.{
  ℕ, zero, suc, ◌+◌, ◌%◌, ◌^◌, ◌≤◌, ◌<◌, ◌≡◌, refl, ap, ◌∙◌, arith, dec_lt, List, [], ◌∷◌, length,
  get_or, ◌==◌, if◌then◌else◌, ltb,
}
use lbzip2_rs.BitStream.{IsBytes}
use lbzip2_rs.Bwt.{cumulate}

-- How often a byte occurs.
unfoldable pub count : ℕ → List ℕ → ℕ
count b [] = 0
count b (x ∷ xs) = if x == b then suc (count b xs) else count b xs

pub count_here : (b x : ℕ) (xs : List ℕ) → x ≡ b → count b (x ∷ xs) ≡ suc (count b xs)
unfolding count
count_here b x xs e = ground arith

pub count_other : (b x : ℕ) (xs : List ℕ) → (x ≡ b → ⊥) → count b (x ∷ xs) ≡ count b xs
unfolding count
count_other b x xs e = ground arith

-- Where the bucket of `b` begins: the number of bytes below `b`.
pub below : ℕ → List ℕ → ℕ
below zero xs = 0
below (suc b) xs = below b xs + count b xs

pub below-suc : (b : ℕ) (xs : List ℕ) → below (suc b) xs ≡ below b xs + count b xs
unfolding below
below-suc b xs = refl

below_nil : (b : ℕ) → below b [] ≡ 0
unfolding below count
below_nil zero = refl
below_nil (suc b) = omega (arith, below_nil b)

below_cons : (b x : ℕ) (xs : List ℕ) → below b (x ∷ xs) ≡ below b xs + (if ltb x b then 1 else 0)
unfolding below count
below_cons zero x xs = ground arith
below_cons (suc b) x xs = ground (arith, below_cons b x xs)

pub below-bytes : (xs : List ℕ) → IsBytes xs → below 256 xs ≡ length xs
below-bytes [] h = below_nil 256
below-bytes (x ∷ xs) h = ground (arith, below_cons 256 x xs, below-bytes xs h.1, h.0)

pub below_mono : (a b : ℕ) (xs : List ℕ) → a ≤ b → below a xs ≤ below b xs
unfolding below
below_mono a zero xs h = let e : a ≡ 0 = omega arith in rw e (omega arith)
below_mono a (suc b) xs h = elim (dec_lt b a) [
  | yes over ↦ let e : a ≡ suc b = omega arith in rw e (omega arith)
  | no under ↦ omega (arith, below_mono a b xs (omega arith))
]

-- `c` counts the bytes of `xs`.
pub record IsHistogram (xs c : List ℕ) : Type 0 where
  pub size : length c ≡ 256
  pub counts : (b : ℕ) → b < 256 → get_or c b 0 ≡ count b xs

cumulate-get_or :
    (c : List ℕ) (a m : ℕ) (xs : List ℕ) (i : ℕ)
    → i < length c
    → ((j : ℕ) → j < length c → get_or c j 0 ≡ count (m + j) xs)
    → a ≡ below m xs
    → below (m + length c) xs < 2 ^ 32
    → get_or (cumulate a c) i 0 ≡ below (m + i) xs
unfolding cumulate
cumulate-get_or [] a m xs i lt h e small = absurd (omega arith)
cumulate-get_or (k ∷ c) a m xs zero lt h e small = let z : m + 0 ≡ m = omega arith in rw z e
cumulate-get_or (k ∷ c) a m xs (suc i) lt h e small =
    let z : m + 0 ≡ m = omega arith in
    let first : k ≡ count m xs = rw z at (h 0 (omega arith)) in
    let shift : m + suc i ≡ suc m + i = omega arith in
    let top : suc m + length c ≡ m + suc (length c) = omega arith in
    let bound : below (suc m) xs ≤ below (m + suc (length c)) xs =
      below_mono (suc m) (m + suc (length c)) xs (omega arith) in
    let next : (a + k) % 2 ^ 32 ≡ below (suc m) xs =
      mod-eq_of_lt (omega (arith, below-suc m xs)) ∙ omega (arith, below-suc m xs) in
    rw shift (
      cumulate-get_or c ((a + k) % 2 ^ 32) (suc m) xs i (omega arith)
        (λ j l. let e' : suc m + j ≡ m + suc j = omega arith in rw e' (h (suc j) (omega arith)))
        next (rw top small))

pub length-cumulate : (c : List ℕ) (a : ℕ) → length (cumulate a c) ≡ length c
unfolding cumulate
length-cumulate [] a = refl
length-cumulate (k ∷ c) a = ap suc (length-cumulate c ((a + k) % 2 ^ 32))

-- For fewer than 2 ^ 32 bytes nothing overflows.
pub cumulate-below :
    (xs c : List ℕ) (b : ℕ)
    → IsBytes xs
    → IsHistogram xs c
    → length xs < 2 ^ 32
    → b < 256
    → get_or (cumulate 0 c) b 0 ≡ below b xs
cumulate-below xs c b bytes_ok h small lt =
    let z : 0 + b ≡ b = omega arith in
    let all : 0 + length c ≡ 256 = omega (arith, h.size) in
    rw (ap (λ (t : ℕ). below t xs) z) at (
      cumulate-get_or c 0 0 xs b (omega (arith, h.size))
        (λ j l. let e : 0 + j ≡ j = omega arith in rw e (h.counts j (omega (arith, h.size))))
        (unfold below in refl) (rw (all, below-bytes xs bytes_ok) small))
