-- ===== src/Prelude/Count.antt =====
-- How often a number stands in a list.
use juntos.Prelude.Tests.{◌==◌, if◌then◌else◌}
use Prim.Native.Nat.{ℕ, ◌+◌}
use mathlib.Core.Path.{◌≡◌, refl, ap, ◌∙◌}
use mathlib.Core.List.{List, [], ◌∷◌, ◌++◌, reverse, reverse-cons}
use native.Mathlib.Omega.{arith}

-- 1 where the two are the same.
abbrev pub one_if : ℕ → ℕ → ℕ
one_if t u = if u == t then 1 else 0

abbrev pub count : ℕ → List ℕ → ℕ
count t [] = 0
count t (u ∷ us) = one_if t u + count t us

module _ (t : ℕ) (there : List ℕ) where
  pub count-append : (here : List ℕ) → count t (here ++ there) ≡ count t here + count t there
  count-append [] = omega arith
  count-append (u ∷ here) = omega (arith, count-append here)

pub count-reverse : (t : ℕ) (xs : List ℕ) → count t (reverse xs) ≡ count t xs
count-reverse t [] = refl
count-reverse t (x ∷ xs) =
    ap (count t) (reverse-cons x xs)
    ∙ omega (arith, count-append t (x ∷ []) (reverse xs), count-reverse t xs)
