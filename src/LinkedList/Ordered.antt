-- ===== src/LinkedList/Ordered.antt =====
-- lib/kernel/list.c: list_insert_ordered () and insert_ordered of Spec.
use juntos.Prelude.{
  ℕ, zero, suc, ◌<◌, ◌≡◌, refl, sym, ap, List, [], ◌∷◌, ◌++◌, ◌==◌, arith, Returns, returns,
  assert-Returns, Bool, bind-Returns, call-Returns, Returns-mono, Returns-then, Returns-else, subst,
  length, inl, inr, Bool-cases,
}
use mathlib.Core.List.{append_assoc}
use juntos.LinkedList.Elem.{Mem, head_of, tail_of}
use juntos.LinkedList.Spec.{insert_ordered}
use juntos.LinkedList.Shape.{list_begin-eq, list_end-eq, list_next-eq, not_end, not_null}
use juntos.LinkedList.Ops.{find_place, list_insert_ordered}
use juntos.LinkedList.Chain.{begin_of, SameOutside, Apart, IsList}
use juntos.LinkedList.Insert.{list_insert_lem}

-- The place `b` among `ys`: the element goes between `us` and `vs`.
PlaceIn : (ℕ → ℕ → Bool) → (elem end : ℕ) → List ℕ → ℕ → Type 0
PlaceIn less elem end ys b =
    (us : List ℕ) × (vs : List ℕ) × (ys ≡ us ++ vs)
    × (b ≡ begin_of vs end)
    × (insert_ordered less elem ys ≡ us ++ elem ∷ vs)

find_place-Returns :
    (fuel : ℕ) {list : ℕ} {m : Mem} (less : ℕ → ℕ → Bool) (elem : ℕ) (xs ys : List ℕ)
    → IsList list (xs ++ ys) m
    → length ys < fuel
    → Returns
        (PlaceIn less elem (tail_of list) ys)
        (find_place fuel less elem (begin_of ys (tail_of list)) (tail_of list) m)
unfolding find_place PlaceIn insert_ordered
find_place-Returns zero less elem xs ys l enough = absurd (omega arith)
find_place-Returns (suc fuel) {list} less elem xs [] l enough =
    Returns-then {b = tail_of list == tail_of list} _ _ (ground arith)
      (returns ([], [], refl, refl, refl))
find_place-Returns (suc fuel) {list} {m} less elem xs (y ∷ ys) l enough =
    Returns-else _ _ (not_end xs y ys l) (elim (Bool-cases (less elem y)) [
      | inl before ↦ rw before (returns ([], y ∷ ys, refl, refl, rw before refl))
      | inr behind ↦
          let l' = subst (λ zs. IsList list zs m) (sym (append_assoc xs (y ∷ []) ys)) l in
          rw behind (
            bind-Returns _ (begin_of ys (tail_of list)) (list_next-eq xs y ys l) (
              Returns-mono (find_place-Returns fuel less elem (xs ++ y ∷ []) ys l' (omega arith))
                λ b (us, vs, e, at, o). (y ∷ us, vs, rw e refl, at, rw behind (ap (◌∷◌ y) o))))
    ])

-- list_insert_ordered () of an element that is in no list: the element stands where insert_ordered
-- puts it, and the other elements as they did, whatever the comparison is.
pub list_insert_ordered_lem :
    (fuel list : ℕ) (m : Mem) (less : ℕ → ℕ → Bool) (elem : ℕ) (xs : List ℕ)
    → IsList list xs m
    → Apart (head_of list ∷ tail_of list ∷ elem ∷ xs)
    → length xs < fuel
    → Returns
        (λ m'.
          IsList list (insert_ordered less elem xs) m'
          × SameOutside (head_of list ∷ tail_of list ∷ elem ∷ xs) m m')
        (list_insert_ordered fuel less list elem m)
unfolding list_insert_ordered PlaceIn
list_insert_ordered_lem fuel list m less elem xs l a enough =
    assert-Returns _ _ (rw (not_null l) refl) (
      assert-Returns _ _ (ground (arith, a.1)) (
        bind-Returns _ (begin_of xs (tail_of list)) (list_begin-eq l) (
          bind-Returns _ (tail_of list) (list_end-eq l) (
            call-Returns _ (find_place-Returns fuel less elem [] xs l enough)
              (λ b (us, vs, e, at, o). rw at (
                Returns-mono
                  (list_insert_lem us vs elem (subst (λ zs. IsList list zs m) e l)
                    (subst (λ zs. Apart (head_of list ∷ tail_of list ∷ elem ∷ zs)) e a))
                  (λ m' (i, same). (
                    subst (λ zs. IsList list zs m') (sym o) i,
                    subst (λ zs. SameOutside (head_of list ∷ tail_of list ∷ elem ∷ zs) m m') (sym e)
                        same,
                  ))))))))
