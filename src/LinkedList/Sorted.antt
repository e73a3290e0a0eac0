-- ===== src/LinkedList/Sorted.antt =====
-- lib/kernel/list.c: list_sort () sorts.
use juntos.Prelude.{
  ℕ, zero, suc, ◌^◌, ◌<◌, ◌≡◌, refl, sym, ◌∙◌, ap, Bool, true, false, not, ◌==◌, ltb, some, List,
  [], ◌∷◌, length, arith, Bool-cases, inl, inr, Returns, returns, bind-Returns, call-Returns,
  assert-Returns, Returns-then, Returns-else, Returns-mono, subst,
}
use mathlib.Core.List.{append-nil}
use juntos.LinkedList.Elem.{Mem, null, tail_of}
use juntos.LinkedList.Chain.{IsList, begin_of}
use juntos.LinkedList.Shape.{list_begin-eq, list_end-eq, not_null}
use juntos.LinkedList.Sort.{sort_loop, list_sort, is_sorted}
use juntos.LinkedList.Runs.{
  IsOrdered, runs, runs-IsOrdered, runs-length, Pass-runs, Pass-halves, Pass-length,
}
use juntos.LinkedList.Walk.{is_sorted-eq}
use juntos.LinkedList.Merge.{Rearranged, Rearranged-trans}
use juntos.LinkedList.Passes.{pass_loop-Returns}

-- The list holds the elements `xs` in an order in which none is less than the one before it.
pub record Sorted (less : ℕ → ℕ → Bool) (list : ℕ) (xs : List ℕ) (m m' : Mem) : Type 0 where
  pub ys : List ℕ
  pub ordered : IsOrdered less ys
  pub size : length ys ≡ length xs
  pub memory : Rearranged list xs ys m m'

module _ (less : ℕ → ℕ → Bool) (asymmetric : (a b : ℕ) → less a b ≡ true → less b a ≡ false) where
  sort_loop-Returns :
      {list : ℕ} {m : Mem} (rounds fuel : ℕ) (xs : List ℕ)
      → IsList list xs m
      → runs less xs < rounds
      → length xs < fuel
      → length xs < 2 ^ 64
      → Returns (Sorted less list xs m) (sort_loop rounds fuel less list m)
  unfolding sort_loop
  sort_loop-Returns zero fuel xs l hr hf hs = absurd (omega arith)
  sort_loop-Returns {list} {m} (suc rounds) fuel xs l hr hf hs =
      bind-Returns _ (begin_of xs (tail_of list)) (list_begin-eq l) (
        bind-Returns _ (tail_of list) (list_end-eq l) (
          call-Returns _ (pass_loop-Returns less fuel fuel list m [] xs 0 l hf hf (omega arith))
            λ (cnt, m1) p. elim (Bool-cases (ltb 1 cnt)) [
              | inl more ↦ Returns-then _ _ more (
                  Returns-mono
                    (sort_loop-Returns rounds fuel p.out p.memory.holds
                      (ground (
                        arith,
                        Pass-runs less asymmetric p.pass,
                        Pass-halves less p.pass,
                        p.counted,
                      ))
                      (omega (arith, Pass-length less p.pass))
                      (omega (arith, Pass-length less p.pass)))
                    λ m2 s. record {
                      ys = s.ys;
                      ordered = s.ordered;
                      size = s.size ∙ Pass-length less p.pass;
                      memory = Rearranged-trans p.memory s.memory;
                    })
              | inr one ↦ Returns-else _ _ one (
                  returns (record {
                    ys = p.out;
                    ordered =
                        runs-IsOrdered less p.out
                          (ground (arith, Pass-runs less asymmetric p.pass, p.counted));
                    size = Pass-length less p.pass;
                    memory = p.memory;
                  }))
            ]))

  final-is_sorted :
      {list : ℕ} {m : Mem} (fuel : ℕ) (ys : List ℕ)
      → IsList list ys m
      → IsOrdered less ys
      → length ys < fuel
      → is_sorted fuel less (begin_of ys (tail_of list)) (tail_of list) m ≡ some true
  unfolding is_sorted
  final-is_sorted {list} {m} fuel [] l f h =
      let e : (tail_of list == tail_of list) ≡ true = ground arith in rw e refl
  final-is_sorted {list} {m} fuel (y ∷ ys) l f h =
      is_sorted-eq fuel less [] y ys []
        (subst (λ zs. IsList list zs m) (sym (append-nil (y ∷ ys))) l) f (omega arith)

  -- list_sort () of a list, with a comparison that is not true both ways, leaves the same elements,
  -- each as often, in an order in which none is less than the one before it, and changes no field
  -- outside the list; fuel for every element and one more is enough for each of its loops.
  pub list_sort_lem :
      {list : ℕ} {m : Mem} (fuel : ℕ) (xs : List ℕ)
      → IsList list xs m
      → length xs < fuel
      → length xs < 2 ^ 64
      → Returns (Sorted less list xs m) (list_sort fuel less list m)
  unfolding list_sort
  list_sort_lem {list} {m} fuel xs l hf hs =
      assert-Returns (not (list == null)) _ (ap not (not_null l)) (
        call-Returns _ (sort_loop-Returns fuel fuel xs l (omega (arith, runs-length less xs)) hf hs)
          λ m' s. bind-Returns _ (begin_of s.ys (tail_of list)) (list_begin-eq s.memory.holds) (
            bind-Returns _ (tail_of list) (list_end-eq s.memory.holds) (
              bind-Returns _ true
                (final-is_sorted fuel s.ys s.memory.holds s.ordered (omega (arith, s.size)))
                (returns s))))
