-- ===== src/LinkedList/Runs.antt =====
-- lib/kernel/list.c: list_sort () on the sequence of the elements: runs, their merge, and a pass.
use juntos.Prelude.{
  ℕ, suc, ◌+◌, ◌*◌, ◌≤◌, ◌≡◌, refl, ap, Bool, true, false, if◌then◌else◌, List, [], ◌∷◌, ◌++◌,
  count, length, count-append, length-append, arith,
}

module _ (less : ℕ → ℕ → Bool) where
  -- Behind `x`, no element is less than the one before it.
  abbrev pub Follows : (x : ℕ) → List ℕ → Type 0
  Follows x [] = Unit
  Follows x (y ∷ ys) = (less y x ≡ false) × Follows y ys

  abbrev pub IsOrdered : List ℕ → Type 0
  IsOrdered [] = Unit
  IsOrdered (x ∷ xs) = Follows x xs

  -- The longest run behind `x`, and what is left.
  pub data Run : (x : ℕ) (xs r ys : List ℕ) → Type 0 where
    at_end : {x : ℕ} → Run x [] [] []
    descent : {x y : ℕ} {ys : List ℕ} → less y x ≡ true → Run x (y ∷ ys) [] (y ∷ ys)
    ascent :
        {x y : ℕ} {ys r zs : List ℕ} → less y x ≡ false → Run y ys r zs → Run x (y ∷ ys) (y ∷ r) zs

  -- The merge of two runs, the first one's elements first where neither is less.
  pub data Merge : (ls rs ms : List ℕ) → Type 0 where
    first_done : {rs : List ℕ} → Merge [] rs rs
    second_done : {ls : List ℕ} → Merge ls [] ls
    from_first :
        {a b : ℕ} {ls rs ms : List ℕ}
        → less b a ≡ false
        → Merge ls (b ∷ rs) ms
        → Merge (a ∷ ls) (b ∷ rs) (a ∷ ms)
    from_second :
        {a b : ℕ} {ls rs ms : List ℕ}
        → less b a ≡ true
        → Merge (a ∷ ls) rs ms
        → Merge (a ∷ ls) (b ∷ rs) (b ∷ ms)

  -- A pass over the list, and the number of runs that it counts.
  pub data Pass : (xs out : List ℕ) (n : ℕ) → Type 0 where
    no_run : Pass [] [] 0
    one_run : {x : ℕ} {xs r : List ℕ} → Run x xs r [] → Pass (x ∷ xs) (x ∷ xs) 1
    two_runs :
        {x y : ℕ} {xs r ys s rest ms out : List ℕ} {n : ℕ}
        → Run x xs r (y ∷ ys)
        → Run y ys s rest
        → Merge (x ∷ r) (y ∷ s) ms
        → Pass rest out n
        → Pass (x ∷ xs) (ms ++ out) (suc n)

  pub Run-Follows : {x : ℕ} {xs r ys : List ℕ} → Run x xs r ys → Follows x r
  Run-Follows at_end = tt
  Run-Follows (descent _) = tt
  Run-Follows (ascent e run) = (e, Run-Follows run)

  pub Run-append : {x : ℕ} {xs r ys : List ℕ} → Run x xs r ys → xs ≡ r ++ ys
  Run-append at_end = refl
  Run-append (descent _) = refl
  Run-append (ascent {y} e run) = ap (λ l. y ∷ l) (Run-append run)

  -- How many runs a list is made of.
  abbrev descents : (x : ℕ) → List ℕ → ℕ
  descents x [] = 0
  descents x (y ∷ ys) = (if less y x then 1 else 0) + descents y ys

  abbrev pub runs : List ℕ → ℕ
  runs [] = 0
  runs (x ∷ xs) = suc (descents x xs)

  Run-runs : {x : ℕ} {xs r ys : List ℕ} → Run x xs r ys → runs (x ∷ xs) ≡ suc (runs ys)
  Run-runs at_end = refl
  Run-runs (descent e) = ground (arith, e)
  Run-runs (ascent e run) = ground (arith, e, Run-runs run)

  Follows-descents : (x : ℕ) (xs : List ℕ) → descents x xs ≡ 0 → Follows x xs
  Follows-descents x [] h = tt
  Follows-descents x (y ∷ ys) h = (ground arith, Follows-descents y ys (ground arith))

  pub runs-IsOrdered : (xs : List ℕ) → runs xs ≤ 1 → IsOrdered xs
  runs-IsOrdered [] h = tt
  runs-IsOrdered (x ∷ xs) h = Follows-descents x xs (omega arith)

  pub runs-length : (xs : List ℕ) → runs xs ≤ length xs
  runs-length [] = omega arith
  runs-length (x ∷ []) = omega arith
  runs-length (x ∷ y ∷ ys) = ground (arith, runs-length (y ∷ ys))

  descents-append : (x : ℕ) (ms out : List ℕ) → Follows x ms → descents x (ms ++ out) ≤ runs out
  descents-append x [] [] f = omega arith
  descents-append x [] (y ∷ out) f = ground arith
  descents-append x (m ∷ ms) out (e, f) = ground (arith, e, descents-append m ms out f)

  runs-append : (ms out : List ℕ) → IsOrdered ms → runs (ms ++ out) ≤ suc (runs out)
  runs-append [] out f = omega arith
  runs-append (m ∷ ms) out f = omega (arith, descents-append m ms out f)

  Merge-count : {ls rs ms : List ℕ} (t : ℕ) → Merge ls rs ms → count t ms ≡ count t ls + count t rs
  Merge-count t first_done = omega arith
  Merge-count t second_done = omega arith
  Merge-count t (from_first e m) = omega (arith, Merge-count t m)
  Merge-count t (from_second e m) = omega (arith, Merge-count t m)

  Merge-length : {ls rs ms : List ℕ} → Merge ls rs ms → length ms ≡ length ls + length rs
  Merge-length first_done = omega arith
  Merge-length second_done = omega arith
  Merge-length (from_first e m) = omega (arith, Merge-length m)
  Merge-length (from_second e m) = omega (arith, Merge-length m)

  pub Run-length : {x : ℕ} {xs r ys : List ℕ} → Run x xs r ys → length xs ≡ length r + length ys
  Run-length at_end = omega arith
  Run-length (descent e) = omega arith
  Run-length (ascent e run) = omega (arith, Run-length run)

  module _ (asymmetric : (a b : ℕ) → less a b ≡ true → less b a ≡ false) where
    Merge-Follows :
        {ls rs ms : List ℕ} (x : ℕ) → Merge ls rs ms → Follows x ls → Follows x rs → Follows x ms
    Merge-Follows x first_done fa fb = fb
    Merge-Follows x second_done fa fb = fa
    Merge-Follows x (from_first {a} e m) (la, fa) (lb, fb) = (la, Merge-Follows a m fa (e, fb))
    Merge-Follows x (from_second {a} {b} e m) (la, fa) (lb, fb) =
        (lb, Merge-Follows b m (asymmetric b a e, fa) fb)

    pub Merge-IsOrdered :
        {ls rs ms : List ℕ} → Merge ls rs ms → IsOrdered ls → IsOrdered rs → IsOrdered ms
    Merge-IsOrdered first_done fa fb = fb
    Merge-IsOrdered second_done fa fb = fa
    Merge-IsOrdered (from_first {a} e m) fa fb = Merge-Follows a m fa (e, fb)
    Merge-IsOrdered (from_second {a} {b} e m) fa fb = Merge-Follows b m (asymmetric b a e, fa) fb

    -- The runs behind a pass are at most those that it counted.
    pub Pass-runs : {xs out : List ℕ} {n : ℕ} → Pass xs out n → runs out ≤ n
    Pass-runs no_run = omega arith
    Pass-runs (one_run run) = omega (arith, Run-runs run)
    Pass-runs (two_runs {ms} {out} r s m p) =
        let ordered = Merge-IsOrdered m (Run-Follows r) (Run-Follows s) in
        omega (arith, runs-append ms out ordered, Pass-runs p)

  -- A pass halves the number of runs.
  pub Pass-halves : {xs out : List ℕ} {n : ℕ} → Pass xs out n → 2 * n ≤ suc (runs xs)
  Pass-halves no_run = omega arith
  Pass-halves (one_run run) = omega (arith, Run-runs run)
  Pass-halves (two_runs r s m p) = omega (arith, Run-runs r, Run-runs s, Pass-halves p)

  pub Pass-count : {xs out : List ℕ} {n : ℕ} (t : ℕ) → Pass xs out n → count t out ≡ count t xs
  Pass-count t no_run = refl
  Pass-count t (one_run run) = refl
  Pass-count t (two_runs {y} {xs} {r} {ys} {s} {rest} {ms} {out} a b m p) = omega (
    arith,
    count-append t out ms,
    Merge-count t m,
    Pass-count t p,
    count-append t (y ∷ ys) r,
    count-append t rest s,
    ap (count t) (Run-append a),
    ap (count t) (Run-append b),
  )

  pub Pass-length : {xs out : List ℕ} {n : ℕ} → Pass xs out n → length out ≡ length xs
  Pass-length no_run = refl
  Pass-length (one_run run) = refl
  Pass-length (two_runs {ms} {out} a b m p) =
      omega (arith, length-append ms out, Merge-length m, Pass-length p, Run-length a, Run-length b)
