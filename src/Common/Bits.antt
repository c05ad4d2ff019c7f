-- ===== src/Common/Bits.antt =====
-- Single bits of the results of `|`, `&`, `<<` and `>>`, at every width.
use Prim.Native.Nat.{
  ℕ, zero, suc, ◌+◌, ◌-◌, ◌*◌, ◌/◌, ◌%◌, ◌^◌, ◌≤◌, ◌<◌, min, max, bit_and, bit_or, digits, bitwise,
  bit_and-bitwise, bit_or-bitwise,
}
use mathlib.Core.Path.{◌≡◌, refl, ap}
use mathlib.Core.Bool.{Bool, false, not, ◌&&◌, ◌||◌}
use native.Mathlib.Nat.{le_refl, pow-suc, pow-succ', div-add-mod, div-div-eq-div-mul}
use native.Mathlib.Omega.{arith}
use hushwire.Common.Tests.{ltb, leb, ◌==◌}

module _ (z : ℕ → ℕ) (f : ℕ → ℕ → ℕ) where
  digits_enough : (n m a b : ℕ) → a ≤ n → a ≤ m → digits z f n a b ≡ digits z f m a b
  digits_enough zero zero a b p q = refl
  digits_enough zero (suc m) zero b p q = refl
  digits_enough zero (suc m) (suc a) b p q = absurd (omega arith)
  digits_enough (suc n) zero zero b p q = refl
  digits_enough (suc n) zero (suc a) b p q = absurd (omega arith)
  digits_enough (suc n) (suc m) zero b p q = refl
  digits_enough (suc n) (suc m) (suc a) b p q =
      rw (digits_enough n m (suc a / 2) (b / 2) (omega arith) (omega arith))

  bitwise_low :
      (x y : ℕ)
      → bitwise z f (suc x) y ≡ bitwise z f (suc x / 2) (y / 2) * 2 + f (suc x % 2) (y % 2)
  bitwise_low x y =
      let half = suc x / 2 in
      omega (arith, digits_enough x half half (y / 2) (omega arith) (le_refl _))

or_low : (a b : ℕ) → bit_or a b ≡ bit_or (a / 2) (b / 2) * 2 + max (a % 2) (b % 2)
or_low zero b = simp bit_or-bitwise (omega arith)
or_low (suc a) b = simp bit_or-bitwise (bitwise_low (λ y. y) max a b)

and_low : (a b : ℕ) → bit_and a b ≡ bit_and (a / 2) (b / 2) * 2 + min (a % 2) (b % 2)
and_low zero b = simp bit_and-bitwise (omega arith)
and_low (suc a) b = simp bit_and-bitwise (bitwise_low (λ y. 0) min a b)

-- Bit `i` of `a`.
pub test_bit : ℕ → ℕ → Bool
test_bit a zero = a % 2 == 1
test_bit a (suc i) = test_bit (a / 2) i

pub test_bit-zero : (i : ℕ) → test_bit 0 i ≡ false
unfolding test_bit
test_bit-zero zero = refl
test_bit-zero (suc i) = test_bit-zero i

pub test_bit-bit_or : (a b i : ℕ) → test_bit (bit_or a b) i ≡ (test_bit a i || test_bit b i)
unfolding test_bit
test_bit-bit_or a b zero = ground (arith, or_low a b)
test_bit-bit_or a b (suc i) =
    let h : bit_or a b / 2 ≡ bit_or (a / 2) (b / 2) = omega (arith, or_low a b) in
    rw h (test_bit-bit_or (a / 2) (b / 2) i)

-- `a & 0`, by the number of bits that `a` may have.
and_none : (a bound : ℕ) → a ≤ bound → bit_and a 0 ≡ 0
and_none a zero h = let e : a ≡ 0 = omega arith in rw e refl
and_none a (suc bound) h = omega (arith, and_low a 0, and_none (a / 2) bound (omega arith))

-- `a & (1 << i) != 0`
pub bit_and-one_bit : (a i : ℕ) → (bit_and a (2 ^ i) == 0) ≡ not (test_bit a i)
unfolding test_bit
bit_and-one_bit a zero = ground (arith, and_low a 1, and_none (a / 2) (a / 2) (le_refl _))
bit_and-one_bit a (suc i) =
    let h : 2 ^ suc i / 2 ≡ 2 ^ i = omega (arith, pow-suc 2 i) in
    let e : bit_and a (2 ^ suc i) ≡ bit_and (a / 2) (2 ^ i) * 2 =
      rw (← h) (omega (arith, and_low a (2 ^ suc i), pow-suc 2 i)) in
    ground (arith, e, bit_and-one_bit (a / 2) i)

pub test_bit-one_bit : (i j : ℕ) → test_bit (2 ^ i) j ≡ (i == j)
unfolding test_bit
test_bit-one_bit zero zero = refl
test_bit-one_bit zero (suc j) = ground (arith, test_bit-zero j)
test_bit-one_bit (suc i) zero = ground (arith, pow-suc 2 i)
test_bit-one_bit (suc i) (suc j) =
    let h : 2 ^ suc i / 2 ≡ 2 ^ i = omega (arith, pow-suc 2 i) in
    rw h (ground (arith, test_bit-one_bit i j))

-- `a << k`, before the cut to a word
pub test_bit-shl : (a k i : ℕ) → test_bit (a * 2 ^ k) i ≡ (leb k i && test_bit a (i - k))
unfolding test_bit
test_bit-shl a zero i =
    let e : a * 1 ≡ a = omega arith in let e' : i - 0 ≡ i = omega arith in rw (e, e') (ground arith)
test_bit-shl a (suc k) zero = ground (arith, ap (λ (t : ℕ). a * t) (pow-suc 2 k))
test_bit-shl a (suc k) (suc i) =
    let h : a * 2 ^ suc k / 2 ≡ a * 2 ^ k = omega (arith, ap (λ (t : ℕ). a * t) (pow-suc 2 k)) in
    let e : suc i - suc k ≡ i - k = omega arith in rw (h, e) (ground (arith, test_bit-shl a k i))

half_div : (a k : ℕ) → a / 2 ^ suc k ≡ a / 2 / 2 ^ k
half_div a k = rw (div-div-eq-div-mul a 2 (2 ^ k), pow-succ' 2 k)

-- `a >> k`
pub test_bit-shr : (a k i : ℕ) → test_bit (a / 2 ^ k) i ≡ test_bit a (i + k)
unfolding test_bit
test_bit-shr a zero i =
    let e : a / 1 ≡ a = omega arith in let e' : i + 0 ≡ i = omega arith in rw (e, e')
test_bit-shr a (suc k) i =
    let e : i + suc k ≡ suc (i + k) = omega arith in rw (half_div a k, e) (test_bit-shr (a / 2) k i)

mod_half : (a n : ℕ) → a % 2 ^ suc n / 2 ≡ a / 2 % 2 ^ n
mod_half a n = omega (
  arith,
  half_div a n,
  div-add-mod a (2 ^ suc n),
  ap (λ (t : ℕ). t * (a / 2 ^ suc n)) (pow-suc 2 n),
  ap (λ (t : ℕ). 2 ^ n * t) (half_div a n),
  div-add-mod (a / 2) (2 ^ n),
)

-- the cut to a word of `n` bits
pub test_bit-mod : (a n i : ℕ) → test_bit (a % 2 ^ n) i ≡ (ltb i n && test_bit a i)
unfolding test_bit
test_bit-mod a zero i = let e : a % 1 ≡ 0 = omega arith in rw (e, test_bit-zero i) (ground arith)
test_bit-mod a (suc n) zero = ground (
  arith,
  mod_half a n,
  div-add-mod a (2 ^ suc n),
  pow-suc 2 n,
  ap (λ (t : ℕ). t * (a / 2 ^ suc n)) (pow-suc 2 n),
)
test_bit-mod a (suc n) (suc i) = rw (mod_half a n) (ground (arith, test_bit-mod (a / 2) n i))

-- `|` of two words is a word.
pub bit_or-lt : (n a b : ℕ) → a < 2 ^ n → b < 2 ^ n → bit_or a b < 2 ^ n
bit_or-lt zero a b h k =
    let e : a ≡ 0 = omega arith in let f : b ≡ 0 = omega arith in rw (e, f) (omega arith)
bit_or-lt (suc n) a b h k = omega (
  arith,
  or_low a b,
  pow-suc 2 n,
  bit_or-lt n (a / 2) (b / 2) (omega (arith, pow-suc 2 n)) (omega (arith, pow-suc 2 n)),
)

-- `a & 0x0f`
pub bit_and_fifteen : (a : ℕ) → bit_and a 15 ≡ a % 16
bit_and_fifteen a = omega (
  arith,
  and_low a 15,
  and_low (a / 2) 7,
  and_low (a / 2 / 2) 3,
  and_low (a / 2 / 2 / 2) 1,
  and_none (a / 2 / 2 / 2 / 2) (a / 2 / 2 / 2 / 2) (le_refl _),
)
