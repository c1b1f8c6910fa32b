-- ===== src/Bits/Step.antt =====
-- The native `bit_or` and `bit_and` mean `digits`, a recursion on binary digits with fuel. With
-- enough fuel each bit of the result depends on the two bits at its place.
use Prim.Native.Nat.{digits}
use native.Mathlib.Nat.{div-div-eq-div-mul, pow-succ', zero-div}
use lbzip2_rs.Prelude.{ℕ, zero, suc, ◌+◌, ◌*◌, ◌/◌, ◌%◌, ◌^◌, ◌≤◌, ◌<◌, min, max, ◌≡◌, arith}

-- Bit `i`, the lowest first.
unfoldable pub bit : ℕ → ℕ → ℕ
bit x i = x / 2 ^ i % 2

pub bit-zero : (x : ℕ) → bit x 0 ≡ x % 2
unfolding bit
bit-zero x = omega arith

pub bit-suc : (x i : ℕ) → bit x (suc i) ≡ bit (x / 2) i
unfolding bit
bit-suc x i = rw (div-div-eq-div-mul x 2 (2 ^ i), pow-succ' 2 i)

pub bit-lt : (x i : ℕ) → bit x i < 2
unfolding bit
bit-lt x i = omega arith

pub zero-bit : (i : ℕ) → bit 0 i ≡ 0
unfolding bit
zero-bit i = omega (arith, zero-div (2 ^ i))

-- A number with `m` for its lowest digit.
bit_digit : (q m i : ℕ) → m < 2 → bit (q * 2 + m) (suc i) ≡ bit q i
bit_digit q m i h = let e : (q * 2 + m) / 2 ≡ q = omega arith in rw (bit-suc (q * 2 + m) i, e)

bit_digit_low : (q m : ℕ) → m < 2 → bit (q * 2 + m) 0 ≡ m
bit_digit_low q m h = omega (arith, bit-zero (q * 2 + m))

pub bit-digits-max :
    (n a b i : ℕ) → a ≤ n → bit (digits (λ y. y) max n a b) i ≡ max (bit a i) (bit b i)
bit-digits-max zero zero b i h = omega (arith, zero-bit i)
bit-digits-max zero (suc a) b i h = absurd (omega arith)
bit-digits-max (suc n) zero b i h = omega (arith, zero-bit i)
bit-digits-max (suc n) (suc a) b zero h = omega (
  arith,
  bit_digit_low (digits (λ y. y) max n (suc a / 2) (b / 2)) (max (suc a % 2) (b % 2)) (omega arith),
  bit-zero (suc a),
  bit-zero b,
)
bit-digits-max (suc n) (suc a) b (suc i) h =
    rw
      (
        bit_digit (digits (λ y. y) max n (suc a / 2) (b / 2)) (max (suc a % 2) (b % 2)) i
            (omega arith),
        bit-suc (suc a) i,
        bit-suc b i,
      )
      (bit-digits-max n (suc a / 2) (b / 2) i (omega arith))

pub bit-digits-min :
    (n a b i : ℕ) → a ≤ n → bit (digits (λ y. 0) min n a b) i ≡ min (bit a i) (bit b i)
bit-digits-min zero zero b i h = omega (arith, zero-bit i)
bit-digits-min zero (suc a) b i h = absurd (omega arith)
bit-digits-min (suc n) zero b i h = omega (arith, zero-bit i)
bit-digits-min (suc n) (suc a) b zero h = omega (
  arith,
  bit_digit_low (digits (λ y. 0) min n (suc a / 2) (b / 2)) (min (suc a % 2) (b % 2)) (omega arith),
  bit-zero (suc a),
  bit-zero b,
)
bit-digits-min (suc n) (suc a) b (suc i) h =
    rw
      (
        bit_digit (digits (λ y. 0) min n (suc a / 2) (b / 2)) (min (suc a % 2) (b % 2)) i
            (omega arith),
        bit-suc (suc a) i,
        bit-suc b i,
      )
      (bit-digits-min n (suc a / 2) (b / 2) i (omega arith))

pub digits-min-le : (n a b : ℕ) → digits (λ y. 0) min n a b ≤ b
digits-min-le zero a b = omega arith
digits-min-le (suc n) zero b = omega arith
digits-min-le (suc n) (suc a) b = omega (arith, digits-min-le n (suc a / 2) (b / 2))

pub digits-max-lt : (k n a b : ℕ) → a < 2 ^ n → b < 2 ^ n → digits (λ y. y) max k a b < 2 ^ n
digits-max-lt zero n a b p q = q
digits-max-lt (suc k) n zero b p q = q
digits-max-lt (suc k) zero (suc a) b p q = absurd (omega arith)
digits-max-lt (suc k) (suc n) (suc a) b p q = omega (
  arith,
  pow-succ' 2 n,
  digits-max-lt k n (suc a / 2) (b / 2) (omega (arith, pow-succ' 2 n))
      (omega (arith, pow-succ' 2 n)),
)
