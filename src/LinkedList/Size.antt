-- ===== src/LinkedList/Size.antt =====
-- lib/kernel/list.c: list_size ().
use juntos.Prelude.{
  ℕ, zero, suc, ◌+◌, ◌<◌, ◌^◌, ◌%◌, ◌≡◌, sym, ap, ◌∙◌, List, [], ◌∷◌, ◌++◌, arith, some, subst,
  length,
}
use mathlib.Core.List.{append_assoc}
use juntos.LinkedList.Elem.{Mem, tail_of}
use juntos.LinkedList.Shape.{list_begin-eq, list_end-eq, list_next-eq, not_end}
use juntos.LinkedList.Ops.{size_loop, list_size}
use juntos.LinkedList.Chain.{begin_of, IsList}

size_loop-eq :
    (fuel : ℕ) {list : ℕ} {m : Mem} (xs ys : List ℕ) (cnt : ℕ)
    → IsList list (xs ++ ys) m
    → length ys < fuel
    → cnt + length ys < 2 ^ 64
    → size_loop fuel (begin_of ys (tail_of list)) (tail_of list) cnt m ≡ some (cnt + length ys)
unfolding size_loop
size_loop-eq zero xs ys cnt l enough fits = absurd (omega arith)
size_loop-eq (suc fuel) xs [] cnt l enough fits = ground arith
size_loop-eq (suc fuel) {list} {m} xs (y ∷ ys) cnt l enough fits =
    let l' = subst (λ zs. IsList list zs m) (sym (append_assoc xs (y ∷ []) ys)) l in
    let one_more : (cnt + 1) % 2 ^ 64 ≡ cnt + 1 = omega arith in
    let rest : cnt + 1 + length ys ≡ cnt + suc (length ys) = omega arith in
    rw (not_end xs y ys l, list_next-eq xs y ys l, one_more, sym rest)
      (size_loop-eq fuel (xs ++ y ∷ []) ys (cnt + 1) l' (omega arith) (omega arith))

-- list_size (), on fuel for every element and the end, returns the number of elements, where a
-- size_t holds it.
pub list_size_lem :
    (fuel list : ℕ) (m : Mem) (xs : List ℕ)
    → IsList list xs m
    → length xs < fuel
    → length xs < 2 ^ 64
    → list_size fuel list m ≡ some (length xs)
unfolding list_size
list_size_lem fuel list m xs l enough fits =
    rw (list_begin-eq l, list_end-eq l)
      (size_loop-eq fuel [] xs 0 l enough (omega arith) ∙ ap some (omega arith))
