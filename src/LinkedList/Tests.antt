-- ===== src/LinkedList/Tests.antt =====
-- The list at 1000 that holds the elements at 10, 30 and 20, and the theorems at it.
use juntos.Prelude.{
  ℕ, ◌/◌, ◌≡◌, refl, true, false, Option, none, List, [], ◌∷◌, ◌==◌, if◌then◌else◌, arith, some,
  ltb, Returns,
}
use juntos.LinkedList.Elem.{Mem}
use juntos.LinkedList.Spec.{insert_ordered}
use juntos.LinkedList.Ops.{
  list_insert, list_remove, list_size, list_insert_ordered, list_max, list_min, list_reverse,
}
use juntos.LinkedList.Chain.{nil, cons, Apart, IsList, SameOutside}
use juntos.LinkedList.Insert.{Inserted, list_insert_lem}
use juntos.LinkedList.Remove.{Removed, list_remove_lem}
use juntos.LinkedList.Size.{list_size_lem}
use juntos.LinkedList.Sort.{list_sort, list_unique}
use juntos.LinkedList.Sorted.{Sorted, list_sort_lem}
use juntos.LinkedList.Ordered.{list_insert_ordered_lem}
use juntos.LinkedList.Extremes.{IsOrder, MaxOf, converse, list_max_lem, list_min_lem}
use juntos.LinkedList.Turn.{list_reverse_lem}

abbrev nexts : ℕ → ℕ
nexts a =
    if a == 1000
    then 10
    else if a == 10
    then 30
    else if a == 30
    then 20
    else if a == 20
    then 1016
    else 0

abbrev prevs : ℕ → ℕ
prevs a =
    if a == 1016
    then 20
    else if a == 20
    then 30
    else if a == 30
    then 10
    else if a == 10
    then 1000
    else 0

abbrev three : Mem
three = record { prev = prevs; next = nexts }

three-IsList : IsList 1000 (10 ∷ 30 ∷ 20 ∷ []) three
three-IsList = record {
  chain = cons {p = 1000} {x = 10} refl refl (
      cons {p = 10} {x = 30} refl refl (cons {p = 30} {x = 20} refl refl (nil {p = 20} refl refl)));
  head_end = refl;
  tail_end = refl;
  apart = ((λ a. ground arith), refl);
}

Apart-from_five : Apart (1000 ∷ 1016 ∷ 5 ∷ 10 ∷ 30 ∷ 20 ∷ [])
Apart-from_five = ((λ a. ground arith), refl)

ltb-IsOrder : IsOrder ltb
ltb-IsOrder = record {
  irreflexive = λ a. ground arith;
  transitive = λ a b c h k. ground arith;
  between = λ a b c h. ground arith;
}

list_insert_example :
    Returns (Inserted 1000 (10 ∷ []) (30 ∷ 20 ∷ []) 5 three) (list_insert 30 5 three)
list_insert_example = list_insert_lem (10 ∷ []) (30 ∷ 20 ∷ []) 5 three-IsList Apart-from_five

list_remove_example :
    Returns
      (λ (next, m'). (next ≡ 20) × Removed 1000 (10 ∷ []) 30 (20 ∷ []) three m')
      (list_remove 30 three)
list_remove_example = list_remove_lem (10 ∷ []) 30 (20 ∷ []) three-IsList

list_size_example : list_size 4 1000 three ≡ some 3
list_size_example =
    list_size_lem 4 1000 three (10 ∷ 30 ∷ 20 ∷ []) three-IsList (omega arith) (omega arith)

list_insert_ordered_example :
    Returns
      (λ m'.
        IsList 1000 (5 ∷ 10 ∷ 30 ∷ 20 ∷ []) m'
        × SameOutside (1000 ∷ 1016 ∷ 5 ∷ 10 ∷ 30 ∷ 20 ∷ []) three m')
      (list_insert_ordered 4 ltb 1000 5 three)
unfolding insert_ordered
list_insert_ordered_example =
    list_insert_ordered_lem 4 1000 three ltb 5 (10 ∷ 30 ∷ 20 ∷ []) three-IsList Apart-from_five
      (omega arith)

list_max_example : Returns (MaxOf ltb 1016 (10 ∷ 30 ∷ 20 ∷ [])) (list_max 4 ltb 1000 three)
list_max_example =
    list_max_lem 4 1000 three ltb (10 ∷ 30 ∷ 20 ∷ []) ltb-IsOrder three-IsList (omega arith)

list_min_example :
    Returns (MaxOf (converse ltb) 1016 (10 ∷ 30 ∷ 20 ∷ [])) (list_min 4 ltb 1000 three)
list_min_example =
    list_min_lem 4 1000 three ltb (10 ∷ 30 ∷ 20 ∷ []) ltb-IsOrder three-IsList (omega arith)

list_reverse_example :
    Returns
      (λ m'.
        IsList 1000 (20 ∷ 30 ∷ 10 ∷ []) m' × SameOutside (1000 ∷ 1016 ∷ 10 ∷ 30 ∷ 20 ∷ []) three m')
      (list_reverse 4 1000 three)
list_reverse_example = list_reverse_lem 4 1000 three (10 ∷ 30 ∷ 20 ∷ []) three-IsList (omega arith)

ltb-asymmetric : (a b : ℕ) → ltb a b ≡ true → ltb b a ≡ false
ltb-asymmetric a b h = ground arith

list_sort_example : Returns (Sorted ltb 1000 (10 ∷ 30 ∷ 20 ∷ []) three) (list_sort 4 ltb 1000 three)
list_sort_example =
    list_sort_lem ltb ltb-asymmetric 4 (10 ∷ 30 ∷ 20 ∷ []) three-IsList (omega arith) (omega arith)

abbrev order_of : Option Mem → List ℕ
order_of none = []
order_of (some m) = m.next 1000 ∷ m.next (m.next 1000) ∷ m.next (m.next (m.next 1000)) ∷ []

list_sort-three : order_of (list_sort 4 ltb 1000 three) ≡ 10 ∷ 20 ∷ 30 ∷ []
unfolding list_sort
list_sort-three = refl

-- 30 and 20 are equal by their quotients; the tail stands behind 30.
list_unique-three :
    order_of (list_unique 4 (λ a b. ltb (a / 20) (b / 20)) 1000 none three) ≡ 10 ∷ 30 ∷ 1016 ∷ []
unfolding list_unique
list_unique-three = refl
