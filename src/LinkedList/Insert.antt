-- ===== src/LinkedList/Insert.antt =====
-- lib/kernel/list.c: list_insert () and the operations that are an insertion.
use juntos.Prelude.{
  ℕ, ◌+◌, ◌≤◌, sym, List, [], ◌∷◌, ◌++◌, count, count-append, arith, Returns, returns,
  assert-Returns, bind-Returns, subst,
}
use mathlib.Core.List.{append_assoc, append-nil}
use juntos.LinkedList.Elem.{Mem, null, head_of, tail_of}
use juntos.LinkedList.Shape.{list_begin-eq, list_end-eq, begin-checked}
use juntos.LinkedList.Ops.{link_before, list_insert, list_push_front, list_push_back}
use juntos.LinkedList.Chain.{
  Chain, nil, begin-count, before-count, begin_of, SameOutside, cons, Chain-frame, Chain-append,
  Chain-split, prev-count, Apart, IsList,
}

-- The part of a list in front of the insertion.
link-left :
    {m : Mem} {b p : ℕ} {xs : List ℕ} (e : ℕ)
    → ((a : ℕ) → count a (p ∷ b ∷ e ∷ xs) ≤ 1)
    → Chain m b p xs
    → Chain (link_before b e m) b p (xs ++ e ∷ [])
unfolding link_before
link-left {b} {p} e one (nil n v) =
    cons (ground (arith, one p, one b, one e)) (ground (arith, one p, one b, one e))
      (nil (ground (arith, one p, one b, one e)) (ground (arith, one p, one b, one e)))
link-left {m} {b} {p} e one (cons {x} n v c) =
    cons (ground (arith, one p, one x, one b, one e, prev-count c))
      (ground (arith, one p, one x, one b, one e, prev-count c))
      (link-left e (λ a. omega (arith, one a)) c)

link-right :
    {m : Mem} {b p q : ℕ} {xs ys : List ℕ} (e : ℕ)
    → ((a : ℕ) → count a (p ∷ e ∷ xs) + count a (b ∷ q ∷ ys) ≤ 1)
    → Chain m b p xs
    → Chain m q b ys
    → Chain (link_before b e m) q b ys
unfolding link_before
link-right {b} e one left right =
    Chain-frame (λ a h. ground (arith, one a, prev-count left))
      (λ a h. ground (arith, one a, prev-count left)) right

link-Chain :
    {m : Mem} {q p : ℕ} (xs ys : List ℕ) (e : ℕ)
    → ((a : ℕ) → count a (p ∷ q ∷ e ∷ xs ++ ys) ≤ 1)
    → Chain m q p (xs ++ ys)
    → Chain (link_before (begin_of ys q) e m) q p (xs ++ e ∷ ys)
link-Chain {m} {q} {p} xs [] e one c =
    link-left e (λ a. ground (arith, one a, count-append a [] xs))
      (subst (Chain m q p) (append-nil xs) c)
link-Chain {m} {q} {p} xs (y ∷ ys) e one c =
    let (left, right) = Chain-split xs c in
    subst (Chain (link_before y e m) q p) (append_assoc xs (e ∷ []) (y ∷ ys)) (
      Chain-append (link-left e (λ a. ground (arith, one a, count-append a (y ∷ ys) xs)) left)
        (link-right e (λ a. ground (arith, one a, count-append a (y ∷ ys) xs)) left right))

abbrev pub Inserted : (list : ℕ) (xs ys : List ℕ) (elem : ℕ) → Mem → Mem → Type 0
Inserted list xs ys elem m m' =
    IsList list (xs ++ elem ∷ ys) m'
    × SameOutside (head_of list ∷ tail_of list ∷ elem ∷ xs ++ ys) m m'

pub inserted :
    {list : ℕ} {m : Mem} (xs ys : List ℕ) (elem : ℕ)
    → IsList list (xs ++ ys) m
    → Apart (head_of list ∷ tail_of list ∷ elem ∷ xs ++ ys)
    → Inserted list xs ys elem m (link_before (begin_of ys (tail_of list)) elem m)
unfolding link_before
inserted {list} {m} xs ys elem l (one, nonnull) =
    let b = begin_of ys (tail_of list) in
    let here = begin-count (tail_of list) xs ys in
    let there = before-count xs ys l.chain in
    (
      record {
        chain = link-Chain xs ys elem one l.chain;
        head_end = ground (arith, one b, one (head_of list), here, l.head_end);
        tail_end = ground (arith, one (m.prev b), one (tail_of list), there, l.tail_end);
        apart = (
          (λ a. ground (arith, one a, count-append a ys xs, count-append a (elem ∷ ys) xs)),
          ground (arith, nonnull, count-append null ys xs, count-append null (elem ∷ ys) xs),
        );
      },
      λ a out. ground (arith, here, there),
    )

-- list_insert () of an element that is in no list, before the place where `ys` begins, an element of
-- the list or its tail: the list holds it there, and no field outside it is changed.
pub list_insert_lem :
    {list : ℕ} {m : Mem} (xs ys : List ℕ) (elem : ℕ)
    → IsList list (xs ++ ys) m
    → Apart (head_of list ∷ tail_of list ∷ elem ∷ xs ++ ys)
    → Returns (Inserted list xs ys elem m) (list_insert (begin_of ys (tail_of list)) elem m)
unfolding list_insert
list_insert_lem {list} {m} xs ys elem l a =
    assert-Returns _ _ (begin-checked xs ys l)
      (assert-Returns _ _ (ground (arith, a.1)) (returns (inserted xs ys elem l a)))

-- list_push_front () puts the element in front of the others.
pub list_push_front-Returns :
    {list : ℕ} {m : Mem} (xs : List ℕ) (elem : ℕ)
    → IsList list xs m
    → Apart (head_of list ∷ tail_of list ∷ elem ∷ xs)
    → Returns (Inserted list [] xs elem m) (list_push_front list elem m)
unfolding list_push_front
list_push_front-Returns {list} xs elem l a =
    bind-Returns _ (begin_of xs (tail_of list)) (list_begin-eq l) (list_insert_lem [] xs elem l a)

pub list_push_back-Returns :
    {list : ℕ} {m : Mem} (xs : List ℕ) (elem : ℕ)
    → IsList list xs m
    → Apart (head_of list ∷ tail_of list ∷ elem ∷ xs)
    → Returns (Inserted list xs [] elem m) (list_push_back list elem m)
unfolding list_push_back
list_push_back-Returns {list} {m} xs elem l a = bind-Returns _ (tail_of list) (list_end-eq l) (
    list_insert_lem xs [] elem (subst (λ ys. IsList list ys m) (sym (append-nil xs)) l)
      (subst (λ ys. Apart (head_of list ∷ tail_of list ∷ elem ∷ ys)) (sym (append-nil xs)) a))
