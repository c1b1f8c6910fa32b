-- ===== src/Bits.antt =====
-- The bits of a number: what `|`, `&`, `<<` and `>>` do to them, and the field of bits that a
-- shift and a mask select.
mod Step
pub use Step.{bit-lt, bit-zero, bit-suc, zero-bit}
unfoldable pub use Step.{bit}
use Step.{bit-digits-max, bit-digits-min, digits-min-le, digits-max-lt}
use Prim.Native.Nat.{bit_or-bitwise, bit_and-bitwise}
use native.Mathlib.Nat.{
  pow-suc, pow-succ', one-le-pow, div-div-eq-div-mul, add-mul-div_right, div-eq_of_lt, mul_assoc,
  mul_comm, le_refl, mod-eq_of_lt, mod-lt, div-add-mod, mul-div-mul_left, add-mul-mod_self_left,
  mul-add-mod_self_right, mul-add-div_right, lt_of_lt_of_le, pow-le-pow_right,
}
use lbzip2_rs.Prelude.{
  ℕ, zero, suc, ◌+◌, ◌-◌, ◌*◌, ◌/◌, ◌%◌, ◌^◌, ◌≤◌, ◌<◌, min, max, bit_or, bit_and, ◌≡◌, refl, sym,
  ap, ◌∙◌, arith, dec_lt,
}

pub pow-add : (a b : ℕ) → 2 ^ (a + b) ≡ 2 ^ a * 2 ^ b
pow-add a zero = let e : a + 0 ≡ a = omega arith in rw e (omega arith)
pow-add a (suc b) =
    let e : a + suc b ≡ suc (a + b) = omega arith in
    rw (e, pow-suc 2 (a + b), pow-suc 2 b, pow-add a b) (mul_assoc (2 ^ a) (2 ^ b) 2)

pub bit-or : (x y i : ℕ) → bit (bit_or x y) i ≡ max (bit x i) (bit y i)
bit-or x y i = rw (bit_or-bitwise x y) (bit-digits-max x x y i (le_refl x))

pub bit-and : (x y i : ℕ) → bit (bit_and x y) i ≡ min (bit x i) (bit y i)
bit-and x y i = rw (bit_and-bitwise x y) (bit-digits-min x x y i (le_refl x))

pub bit-shr : (x k i : ℕ) → bit (x / 2 ^ k) i ≡ bit x (k + i)
unfolding bit
bit-shr x k i = rw (div-div-eq-div-mul x (2 ^ k) (2 ^ i), pow-add k i)

-- The remainder by a power of two, one digit at a time.
mod_half : (x n : ℕ) → x % 2 ^ suc n / 2 ≡ x / 2 % 2 ^ n
mod_half x n =
    let two : 2 ^ suc n ≡ 2 * 2 ^ n = pow-succ' 2 n in
    let whole : 2 ^ suc n * (x / 2 ^ suc n) + x % 2 ^ suc n ≡ x = div-add-mod x (2 ^ suc n) in
    let whole' : 2 * 2 ^ n * (x / 2 ^ suc n) + x % 2 ^ suc n ≡ x =
      rw (ap (λ (t : ℕ). t * (x / 2 ^ suc n)) two) at whole in
    let small : x % 2 ^ suc n < 2 ^ suc n = mod-lt x (one-le-pow (suc n) 2 (omega arith)) in
    let halves : x / 2 ≡ x % 2 ^ suc n / 2 + 2 ^ n * (x / 2 ^ suc n) = omega arith in
    sym (
      rw (halves, add-mul-mod_self_left (x % 2 ^ suc n / 2) (2 ^ n) (x / 2 ^ suc n))
        (mod-eq_of_lt (omega arith)))

mod_low : (x n : ℕ) → x % 2 ^ suc n % 2 ≡ x % 2
mod_low x n =
    let two : 2 ^ suc n ≡ 2 * 2 ^ n = pow-succ' 2 n in
    let whole : 2 ^ suc n * (x / 2 ^ suc n) + x % 2 ^ suc n ≡ x = div-add-mod x (2 ^ suc n) in
    let whole' : 2 * 2 ^ n * (x / 2 ^ suc n) + x % 2 ^ suc n ≡ x =
      rw (ap (λ (t : ℕ). t * (x / 2 ^ suc n)) two) at whole in
    omega arith

-- `x / 2 ^ k % 2 ^ n` is the number that the bits from `k + n - 1` down to `k` spell.
pub shift_mask_suc : (x k n : ℕ) → x / 2 ^ k % 2 ^ suc n ≡ 2 * (x / 2 ^ suc k % 2 ^ n) + bit x k
unfolding bit
shift_mask_suc x k n =
    rw (pow-suc 2 k, ← div-div-eq-div-mul x (2 ^ k) 2)
      (omega (arith, mod_half (x / 2 ^ k) n, mod_low (x / 2 ^ k) n))

pub bit_of_lt : (n x i : ℕ) → x < 2 ^ n → n ≤ i → bit x i ≡ 0
unfolding bit
bit_of_lt n x i h le =
    rw (div-eq_of_lt (lt_of_lt_of_le h (pow-le-pow_right {n = 2} (omega arith) le)))

pub bit-mod : (n x i : ℕ) → i < n → bit (x % 2 ^ n) i ≡ bit x i
bit-mod zero x i h = absurd (omega arith)
bit-mod (suc n) x zero h = rw (bit-zero, bit-zero x) (mod_low x n)
bit-mod (suc n) x (suc i) h =
    rw (bit-suc (x % 2 ^ suc n) i, bit-suc x i, mod_half x n) (bit-mod n (x / 2) i (omega arith))

pub bit-shl : (x k i : ℕ) → bit (x * 2 ^ k) (k + i) ≡ bit x i
unfolding bit
bit-shl x k i = rw (
  mul_comm x (2 ^ k),
  pow-add k i,
  mul-div-mul_left {m = 2 ^ k} x (2 ^ i) (one-le-pow k 2 (omega arith)),
)

pub bit-shl_low : (k x i : ℕ) → i < k → bit (x * 2 ^ k) i ≡ 0
bit-shl_low zero x i h = absurd (omega arith)
bit-shl_low (suc k) x zero h =
    rw (bit-zero (x * 2 ^ suc k)) (omega (arith, ap (λ (t : ℕ). x * t) (pow-succ' 2 k)))
bit-shl_low (suc k) x (suc i) h =
    let e : x * 2 ^ suc k / 2 ≡ x * 2 ^ k = omega (arith, ap (λ (t : ℕ). x * t) (pow-succ' 2 k)) in
    rw (bit-suc (x * 2 ^ suc k) i, e) (bit-shl_low k x i (omega arith))

-- Numbers of `n` bits with the same bits are the same.
pub bit_ext : (n x y : ℕ) → x < 2 ^ n → y < 2 ^ n → ((i : ℕ) → i < n → bit x i ≡ bit y i) → x ≡ y
bit_ext zero x y p q h = omega arith
bit_ext (suc n) x y p q h =
    let halves : x / 2 ≡ y / 2 =
      bit_ext n (x / 2) (y / 2) (omega (arith, pow-succ' 2 n)) (omega (arith, pow-succ' 2 n))
        (λ i lt. rw (← bit-suc x i, ← bit-suc y i) (h (suc i) (omega arith))) in
    omega (arith, bit-zero x, bit-zero y, h 0 (omega arith))

-- `x & (2 ^ n - 1)` is the remainder by `2 ^ n`.
ones : (n i : ℕ) → i < n → bit (2 ^ n - 1) i ≡ 1
ones zero i h = absurd (omega arith)
ones (suc n) zero h =
    rw (bit-zero (2 ^ suc n - 1)) (omega (arith, pow-succ' 2 n, one-le-pow n 2 (omega arith)))
ones (suc n) (suc i) h =
    let e : (2 ^ suc n - 1) / 2 ≡ 2 ^ n - 1 =
      omega (arith, pow-succ' 2 n, one-le-pow n 2 (omega arith)) in
    rw (bit-suc (2 ^ suc n - 1) i, e) (ones n i (omega arith))

pub bit_and-ones : (n x : ℕ) → bit_and x (2 ^ n - 1) ≡ x % 2 ^ n
bit_and-ones n x =
    bit_ext n (bit_and x (2 ^ n - 1)) (x % 2 ^ n) masked (mod-lt x pos) λ i lt.
      rw (bit-and x (2 ^ n - 1) i) (omega (arith, ones n i lt, bit-mod n x i lt, bit-lt x i))
  where
    pos : 0 < 2 ^ n
    pos = one-le-pow n 2 (omega arith)

    masked : bit_and x (2 ^ n - 1) < 2 ^ n
    masked = rw (bit_and-bitwise x (2 ^ n - 1)) (omega (arith, pos, digits-min-le x x (2 ^ n - 1)))

pub bit_or-lt : (n x y : ℕ) → x < 2 ^ n → y < 2 ^ n → bit_or x y < 2 ^ n
bit_or-lt n x y p q = rw (bit_or-bitwise x y) (digits-max-lt x n x y p q)

-- The bits of `b * 2 ^ m + r` where `r` fits `m` bits.
pub bit_sum_low : (b m r i : ℕ) → r < 2 ^ m → i < m → bit (b * 2 ^ m + r) i ≡ bit r i
bit_sum_low b m r i small lt =
    let e : (b * 2 ^ m + r) % 2 ^ m ≡ r = mul-add-mod_self_right b (2 ^ m) r ∙ mod-eq_of_lt small in
    sym (bit-mod m (b * 2 ^ m + r) i lt) ∙ ap (λ (t : ℕ). bit t i) e

pub bit_sum_high : (b m r i : ℕ) → r < 2 ^ m → bit (b * 2 ^ m + r) (m + i) ≡ bit b i
bit_sum_high b m r i small =
    let e : (b * 2 ^ m + r) / 2 ^ m ≡ b =
      mul-add-div_right (one-le-pow m 2 (omega arith)) b r ∙ omega (arith, div-eq_of_lt small) in
    sym (bit-shr (b * 2 ^ m + r) m i) ∙ ap (λ (t : ℕ). bit t i) e

-- `r | (q << k)` is a sum when `r` fits `k` bits.
pub bit_or-shl :
    (m k q r : ℕ) → r < 2 ^ k → q * 2 ^ k + r < 2 ^ m → bit_or r (q * 2 ^ k) ≡ q * 2 ^ k + r
bit_or-shl m k q r small fits =
    bit_ext m (bit_or r (q * 2 ^ k)) (q * 2 ^ k + r)
      (bit_or-lt m r (q * 2 ^ k) (omega arith) (omega arith)) fits
      λ i lt. rw (bit-or r (q * 2 ^ k) i) (elim (dec_lt i k) [
        | yes low ↦ omega (arith, bit-shl_low k q i low, bit_sum_low q k r i small low)
        | no high ↦
            let at : i ≡ k + (i - k) = omega arith in
            rw at (
              omega (
                arith,
                bit-shl q k (i - k),
                bit_sum_high q k r (i - k) small,
                bit_of_lt k r (k + (i - k)) small (omega arith),
              ))
      ])
