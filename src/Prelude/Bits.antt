-- ===== src/Prelude/Bits.antt =====
-- The bits of a word under `|`, `&`, `^` and `~`. A word of `n` bits is a number below 2 ^ n.
use Prim.Native.Nat.{
  ℕ, zero, suc, ◌-◌, ◌*◌, ◌/◌, ◌%◌, ◌^◌, ◌≤◌, ◌<◌, differ, bit_and, bit_or, bit_xor,
  bit_and-bitwise,
}
use native.Mathlib.Nat.{pow-suc, one-le-pow}
use native.Mathlib.Omega.{arith}
use mathlib.Core.Path.{◌≡◌, refl}
use mathlib.Core.Bool.{Bool, true, false, not}
use juntos.Prelude.Digits.{
  bit_or-low, bit_and-low, bit_xor-low, bit_or-zero, bit_and-zero, differ-zero, bit_xor-zero,
  bit_and-ones, bit_or-half, bit_and-half, differ-lt, bit_xor-half, half_power,
}
use mathlib.Core.Logic.{inl, inr}
use juntos.Prelude.Tests.{◌==◌, if◌then◌else◌, Bool-cases}

-- The bit `i` of `w`.
abbrev pub bit_set : (w i : ℕ) → Bool
bit_set w zero = w % 2 == 1
bit_set w (suc i) = bit_set (w / 2) i

-- ~mask, for a mask of the one bit `k`
abbrev pub without : (n k : ℕ) → ℕ
without n k = 2 ^ n - 1 - 2 ^ k

-- The bit `k` turned on, off, over, and read.
pub bit_set-or : (k w i : ℕ) → bit_set (bit_or w (2 ^ k)) i ≡ (if i == k then true else bit_set w i)
bit_set-or zero w zero = ground (arith, bit_or-low w 1)
bit_set-or zero w (suc i) =
    rw (bit_or-half w 1, bit_or-zero (w / 2) (w / 2) (omega arith)) (ground arith)
bit_set-or (suc k) w zero = ground (arith, bit_or-low w (2 ^ suc k), pow-suc 2 k)
bit_set-or (suc k) w (suc i) =
    rw (bit_or-half w (2 ^ suc k), half_power k) (ground (arith, bit_set-or k (w / 2) i))

bit_xor-parity : (a b : ℕ) → bit_xor a b % 2 ≡ differ (a % 2) (b % 2)
bit_xor-parity a b =
    omega (arith, bit_xor-low a b, differ-lt (a % 2) (b % 2) (omega arith) (omega arith))

differ-one : (x : ℕ) → x < 2 → differ x 1 ≡ 1 - x
differ-one zero h = refl
differ-one (suc zero) h = refl
differ-one (suc (suc x)) h = absurd (omega arith)

even_power : (k : ℕ) → 2 ^ suc k % 2 ≡ 0
even_power k = omega (arith, pow-suc 2 k)

pub bit_set-xor :
    (k w i : ℕ)
    → bit_set (bit_xor w (2 ^ k)) i ≡ (if i == k then not (bit_set w i) else bit_set w i)
bit_set-xor zero w zero = ground (arith, bit_xor-parity w 1, differ-one (w % 2))
bit_set-xor zero w (suc i) =
    rw (bit_xor-half w 1, bit_xor-zero (w / 2) (w / 2) (omega arith)) (ground arith)
bit_set-xor (suc k) w zero =
    rw (bit_xor-parity w (2 ^ suc k), even_power k, differ-zero (w % 2)) (ground arith)
bit_set-xor (suc k) w (suc i) =
    rw (bit_xor-half w (2 ^ suc k), half_power k) (ground (arith, bit_set-xor k (w / 2) i))

pub bit_and-test : (k w : ℕ) → (bit_and w (2 ^ k) == 0) ≡ not (bit_set w k)
bit_and-test zero w = ground (arith, bit_and-low w 1, bit_and-zero (w / 2) (w / 2) (omega arith))
bit_and-test (suc k) w =
    ground (arith, bit_and-low w (2 ^ suc k), pow-suc 2 k, half_power k, bit_and-test k (w / 2))

power_le : (k n : ℕ) → k ≤ n → 2 ^ k ≤ 2 ^ n
power_le zero n h = one-le-pow n 2 (omega arith)
power_le (suc k) zero h = absurd (omega arith)
power_le (suc k) (suc n) h = omega (arith, pow-suc 2 k, pow-suc 2 n, power_le k n)

without_first : (n : ℕ) → (without (suc n) 0 / 2 ≡ 2 ^ n - 1) × (without (suc n) 0 % 2 ≡ 0)
without_first n = omega (arith, pow-suc 2 n, one-le-pow n 2 (omega arith))

without_later :
    (n k : ℕ)
    → k < n
    → (without (suc n) (suc k) / 2 ≡ without n k) × (without (suc n) (suc k) % 2 ≡ 1)
without_later n k h =
    let fits = power_le (suc k) n h in
    let some = one-le-pow k 2 (omega arith) in omega (arith, pow-suc 2 n, pow-suc 2 k)

pub bit_set-without :
    (n k w i : ℕ)
    → k < n
    → w < 2 ^ n
    → bit_set (bit_and w (without n k)) i ≡ (if i == k then false else bit_set w i)
bit_set-without zero k w i h small = absurd (omega arith)
bit_set-without (suc n) zero w zero h small =
    ground (arith, bit_and-low w (without (suc n) 0), without_first n)
bit_set-without (suc n) zero w (suc i) h small =
    rw
      (
        bit_and-half w (without (suc n) 0),
        (without_first n).0,
        bit_and-ones n (w / 2) (omega (arith, pow-suc 2 n)),
      )
      (ground arith)
bit_set-without (suc n) (suc k) w zero h small =
    ground (arith, bit_and-low w (without (suc n) (suc k)), without_later n k)
bit_set-without (suc n) (suc k) w (suc i) h small =
    rw (bit_and-half w (without (suc n) (suc k)), (without_later n k (omega arith)).0)
      (ground (arith, bit_set-without n k (w / 2) i (omega arith) (omega (arith, pow-suc 2 n))))

-- The results are words too.
pub bit_or-lt : (n a b : ℕ) → a < 2 ^ n → b < 2 ^ n → bit_or a b < 2 ^ n
bit_or-lt zero zero zero h k = h
bit_or-lt zero (suc a) b h k = absurd (omega arith)
bit_or-lt zero a (suc b) h k = absurd (omega arith)
bit_or-lt (suc n) a b h k = omega (
  arith,
  bit_or-low a b,
  pow-suc 2 n,
  bit_or-lt n (a / 2) (b / 2) (omega (arith, pow-suc 2 n)) (omega (arith, pow-suc 2 n)),
)

pub bit_and-le : (n a b : ℕ) → a ≤ n → bit_and a b ≤ a
bit_and-le n zero b h = omega (arith, bit_and-bitwise 0 b)
bit_and-le zero (suc a) b h = absurd (omega arith)
bit_and-le (suc n) (suc a) b h =
    omega (arith, bit_and-low (suc a) b, bit_and-le n (suc a / 2) (b / 2) (omega arith))

pub bit_and-le_mask : (n a mask : ℕ) → a ≤ n → bit_and a mask ≤ mask
bit_and-le_mask n zero mask h = omega (arith, bit_and-bitwise 0 mask)
bit_and-le_mask zero (suc a) mask h = absurd (omega arith)
bit_and-le_mask (suc n) (suc a) mask h =
    omega (arith, bit_and-low (suc a) mask, bit_and-le_mask n (suc a / 2) (mask / 2) (omega arith))

pub bit_and_self : (n a : ℕ) → a ≤ n → bit_and a a ≡ a
bit_and_self n zero h = omega (arith, bit_and-bitwise 0 0)
bit_and_self zero (suc a) h = absurd (omega arith)
bit_and_self (suc n) (suc a) h =
    omega (arith, bit_and-low (suc a) (suc a), bit_and_self n (suc a / 2) (omega arith))

-- x & (x - 1): an odd number loses its last bit, an even one what its half loses.
and_less-odd : (x : ℕ) → x % 2 ≡ 1 → bit_and x (x - 1) ≡ x / 2 * 2
and_less-odd x odd =
    let half : (x - 1) / 2 ≡ x / 2 = omega arith in
    rw (bit_and-low x (x - 1), half, bit_and_self x (x / 2) (omega arith)) (omega arith)

and_less-even : (x : ℕ) → 0 < x → x % 2 ≡ 0 → bit_and x (x - 1) ≡ bit_and (x / 2) (x / 2 - 1) * 2
and_less-even x h even =
    let half : (x - 1) / 2 ≡ x / 2 - 1 = omega arith in
    rw (bit_and-low x (x - 1), half) (omega arith)

-- Unless nothing is left, x & (x - 1) keeps the highest bit.
pub and_less-keeps : (k x : ℕ) → 2 ^ k ≤ x → 0 < bit_and x (x - 1) → 2 ^ k ≤ bit_and x (x - 1)
and_less-keeps zero x h left = omega arith
and_less-keeps (suc k) x h left = elim (Bool-cases (x % 2 == 0)) [
  | inl e ↦
      let even =
        and_less-even x (omega (arith, one-le-pow (suc k) 2 (omega arith))) (ground arith) in
      omega (
        arith,
        pow-suc 2 k,
        even,
        and_less-keeps k (x / 2) (omega (arith, pow-suc 2 k)) (omega (arith, even)),
      )
  | inr e ↦ omega (arith, pow-suc 2 k, and_less-odd x (ground arith))
]

-- A positive number stands between two powers of two.
pub between_powers : (n x : ℕ) → 0 < x → x ≤ n → (k : ℕ) × (2 ^ k ≤ x) × (x < 2 * 2 ^ k)
between_powers zero x h le = absurd (omega arith)
between_powers (suc n) x h le = elim (Bool-cases (x == 1)) [
  | inl one ↦ (0, ground arith, ground arith)
  | inr more ↦
      let (k, low, high) = between_powers n (x / 2) (ground arith) (ground arith) in
      (suc k, omega (arith, pow-suc 2 k), omega (arith, pow-suc 2 k))
]

pub bit_xor-lt : (n a b : ℕ) → a < 2 ^ n → b < 2 ^ n → bit_xor a b < 2 ^ n
bit_xor-lt zero zero zero h k = h
bit_xor-lt zero (suc a) b h k = absurd (omega arith)
bit_xor-lt zero a (suc b) h k = absurd (omega arith)
bit_xor-lt (suc n) a b h k = omega (
  arith,
  bit_xor-low a b,
  differ-lt (a % 2) (b % 2) (omega arith) (omega arith),
  pow-suc 2 n,
  bit_xor-lt n (a / 2) (b / 2) (omega (arith, pow-suc 2 n)) (omega (arith, pow-suc 2 n)),
)

pub power-lt : (k n : ℕ) → k < n → 2 ^ k < 2 ^ n
power-lt k n h = omega (arith, power_le (suc k) n h, pow-suc 2 k, one-le-pow k 2 (omega arith))
