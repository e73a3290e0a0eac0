-- ===== src/Prelude/Digits.antt =====
-- The digits of a word under `|`, `&` and `^`: the lowest one, and the others.
use Prim.Native.Nat.{
  ℕ, zero, suc, ◌+◌, ◌-◌, ◌*◌, ◌/◌, ◌%◌, ◌^◌, ◌≤◌, ◌<◌, min, max, differ, digits, bitwise, bit_and,
  bit_or, bit_xor, bit_and-bitwise, bit_or-bitwise, bit_xor-bitwise,
}
use native.Mathlib.Nat.{pow-suc, one-le-pow}
use native.Mathlib.Omega.{arith}
use mathlib.Core.Path.{◌≡◌, refl}

-- A digit operation does not depend on the count that its recursion runs on.
module _ (rest : ℕ → ℕ) (op : ℕ → ℕ → ℕ) where
  count_free : (c d a b : ℕ) → a ≤ c → a ≤ d → digits rest op c a b ≡ digits rest op d a b
  count_free zero zero a b p q = refl
  count_free (suc c) zero zero b p q = refl
  count_free (suc c) zero (suc a) b p q = absurd (omega arith)
  count_free zero (suc d) zero b p q = refl
  count_free zero (suc d) (suc a) b p q = absurd (omega arith)
  count_free (suc c) (suc d) zero b p q = refl
  count_free (suc c) (suc d) (suc a) b p q =
      omega (arith, count_free c d (suc a / 2) (b / 2) (omega arith) (omega arith))

  lowest :
      (a b : ℕ)
      → bitwise rest op (suc a) b ≡ bitwise rest op (suc a / 2) (b / 2) * 2 + op (suc a % 2) (b % 2)
  lowest a b =
      omega (arith, count_free a (suc a / 2) (suc a / 2) (b / 2) (omega arith) (omega arith))

pub bit_or-low : (a b : ℕ) → bit_or a b ≡ bit_or (a / 2) (b / 2) * 2 + max (a % 2) (b % 2)
bit_or-low zero b = omega (arith, bit_or-bitwise 0 b, bit_or-bitwise 0 (b / 2))
bit_or-low (suc a) b =
    omega
      (arith, bit_or-bitwise (suc a) b, bit_or-bitwise (suc a / 2) (b / 2), lowest (λ y. y) max a b)

pub bit_and-low : (a b : ℕ) → bit_and a b ≡ bit_and (a / 2) (b / 2) * 2 + min (a % 2) (b % 2)
bit_and-low zero b = omega (arith, bit_and-bitwise 0 b, bit_and-bitwise 0 (b / 2))
bit_and-low (suc a) b =
    omega (
      arith,
      bit_and-bitwise (suc a) b,
      bit_and-bitwise (suc a / 2) (b / 2),
      lowest (λ y. 0) min a b,
    )

pub bit_xor-low : (a b : ℕ) → bit_xor a b ≡ bit_xor (a / 2) (b / 2) * 2 + differ (a % 2) (b % 2)
bit_xor-low zero b = omega (arith, bit_xor-bitwise 0 b, bit_xor-bitwise 0 (b / 2))
bit_xor-low (suc a) b = omega (
  arith,
  bit_xor-bitwise (suc a) b,
  bit_xor-bitwise (suc a / 2) (b / 2),
  lowest (λ y. y) differ a b,
)

-- With 0, and with all ones.
pub bit_or-zero : (n w : ℕ) → w ≤ n → bit_or w 0 ≡ w
bit_or-zero n zero h = refl
bit_or-zero zero (suc w) h = absurd (omega arith)
bit_or-zero (suc n) (suc w) h =
    omega (arith, bit_or-low (suc w) 0, bit_or-zero n (suc w / 2) (omega arith))

pub bit_and-zero : (n w : ℕ) → w ≤ n → bit_and w 0 ≡ 0
bit_and-zero n zero h = refl
bit_and-zero zero (suc w) h = absurd (omega arith)
bit_and-zero (suc n) (suc w) h =
    omega (arith, bit_and-low (suc w) 0, bit_and-zero n (suc w / 2) (omega arith))

pub differ-zero : (x : ℕ) → differ x 0 ≡ x
differ-zero zero = refl
differ-zero (suc x) = refl

pub bit_xor-zero : (n w : ℕ) → w ≤ n → bit_xor w 0 ≡ w
bit_xor-zero n zero h = refl
bit_xor-zero zero (suc w) h = absurd (omega arith)
bit_xor-zero (suc n) (suc w) h = ground (
  arith,
  bit_xor-low (suc w) 0,
  bit_xor-zero n (suc w / 2) (omega arith),
  differ-zero (suc w % 2),
)

pub bit_and-ones : (n w : ℕ) → w < 2 ^ n → bit_and w (2 ^ n - 1) ≡ w
bit_and-ones zero w h = omega (arith, bit_and-zero w w (omega arith))
bit_and-ones (suc n) w h =
    let double = pow-suc 2 n in
    let one = one-le-pow n 2 (omega arith) in
    let half : (2 ^ suc n - 1) / 2 ≡ 2 ^ n - 1 = omega arith in
    rw (bit_and-low w (2 ^ suc n - 1), half) (omega (arith, bit_and-ones n (w / 2) (omega arith)))

-- Both halves of such an equation.
pub bit_or-half : (a b : ℕ) → bit_or a b / 2 ≡ bit_or (a / 2) (b / 2)
bit_or-half a b = omega (arith, bit_or-low a b)

pub bit_and-half : (a b : ℕ) → bit_and a b / 2 ≡ bit_and (a / 2) (b / 2)
bit_and-half a b = omega (arith, bit_and-low a b)

pub differ-lt : (x y : ℕ) → x < 2 → y < 2 → differ x y < 2
differ-lt zero y h k = k
differ-lt (suc zero) zero h k = h
differ-lt (suc zero) (suc zero) h k = omega arith
differ-lt (suc x) (suc (suc y)) h k = absurd (omega arith)
differ-lt (suc (suc x)) y h k = absurd (omega arith)

pub bit_xor-half : (a b : ℕ) → bit_xor a b / 2 ≡ bit_xor (a / 2) (b / 2)
bit_xor-half a b =
    omega (arith, bit_xor-low a b, differ-lt (a % 2) (b % 2) (omega arith) (omega arith))

pub half_power : (k : ℕ) → 2 ^ suc k / 2 ≡ 2 ^ k
half_power k = omega (arith, pow-suc 2 k)
