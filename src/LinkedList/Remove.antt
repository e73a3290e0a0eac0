-- ===== src/LinkedList/Remove.antt =====
-- lib/kernel/list.c: list_remove () and the operations that take an element out.
use juntos.Prelude.{
  ℕ, Bool, ◌≤◌, ◌≡◌, refl, List, [], ◌∷◌, ◌++◌, count, count-append, arith, some, Returns, returns,
  assert-Returns, true, false, bind-Returns, call-Returns,
}
use juntos.LinkedList.Elem.{Mem, null, head_of, tail_of}
use juntos.LinkedList.Shape.{interior, list_begin-eq, list_end-eq, not_end, next_in}
use juntos.LinkedList.Ops.{
  unlink, list_remove, list_front, list_back, list_empty, list_pop_front, list_pop_back,
}
use juntos.LinkedList.Chain.{
  Chain, nil, cons, begin_of, begin-next, begin-prev, SameOutside, Chain-frame, Chain-split,
  prev-count, next-count, IsList,
}

unlink-Chain :
    {m : Mem} {q p : ℕ} (xs : List ℕ) (e : ℕ) (ys : List ℕ)
    → ((a : ℕ) → count a (p ∷ q ∷ xs ++ e ∷ ys) ≤ 1)
    → Chain m q p (xs ++ e ∷ ys)
    → Chain (unlink e m) q p (xs ++ ys)
unfolding unlink
unlink-Chain {q} {p} [] e [] one (cons n v (nil n' v')) =
    nil (ground (arith, one p, one q, one e)) (ground (arith, one p, one q, one e))
unlink-Chain {q} {p} [] e (y ∷ ys) one (cons n v (cons n' v' c)) =
    cons (ground (arith, one p, one y, one e)) (ground (arith, one p, one y, one e)) (
      Chain-frame (λ a h. ground (arith, one a, one e, one p))
        (λ a h. ground (arith, one a, one e, one y)) c)
unlink-Chain {m} {q} {p} (x ∷ xs) e ys one (cons n v c) =
    let (left, right) = Chain-split xs c in
    cons (ground (arith, one p, one x, one e, prev-count left, count-append (m.prev e) (e ∷ ys) xs))
      (ground (arith, one p, one x, one e, next-count right, count-append (m.next e) (e ∷ ys) xs))
      (unlink-Chain xs e ys (λ a. omega (arith, one a)) c)

abbrev pub Removed : (list : ℕ) (xs : List ℕ) (elem : ℕ) (ys : List ℕ) → Mem → Mem → Type 0
Removed list xs elem ys m m' =
    IsList list (xs ++ ys) m' × SameOutside (head_of list ∷ tail_of list ∷ xs ++ ys) m m'

pub removed :
    {list : ℕ} {m : Mem} (xs : List ℕ) (elem : ℕ) (ys : List ℕ)
    → IsList list (xs ++ elem ∷ ys) m
    → Removed list xs elem ys m (unlink elem m)
unfolding unlink
removed {list} {m} xs elem ys l =
    let (left, right) = Chain-split xs l.chain in
    let before = prev-count left in
    let behind = next-count right in
    let one = l.apart.0 in
    (
      record {
        chain = unlink-Chain xs elem ys one l.chain;
        head_end = ground (
          arith,
          one (head_of list),
          one (m.next elem),
          one elem,
          before,
          behind,
          l.head_end,
          count-append (m.next elem) (elem ∷ ys) xs,
          count-append elem (elem ∷ ys) xs,
        );
        tail_end = ground (
          arith,
          one (tail_of list),
          one (m.prev elem),
          one elem,
          before,
          behind,
          l.tail_end,
          count-append (m.prev elem) (elem ∷ ys) xs,
          count-append elem (elem ∷ ys) xs,
        );
        apart = (
          (λ a. ground (arith, one a, count-append a ys xs, count-append a (elem ∷ ys) xs)),
          ground (arith, l.apart.1, count-append null ys xs, count-append null (elem ∷ ys) xs),
        );
      },
      λ a out. ground (
        arith,
        before,
        behind,
        one elem,
        one a,
        count-append a ys xs,
        count-append elem (elem ∷ ys) xs,
        count-append a (elem ∷ ys) xs,
      ),
    )

unlink-next :
    {list : ℕ} {m : Mem} (xs : List ℕ) (elem : ℕ) (ys : List ℕ)
    → IsList list (xs ++ elem ∷ ys) m
    → (unlink elem m).next elem ≡ begin_of ys (tail_of list)
unfolding unlink
unlink-next {list} {m} xs elem ys l =
    let (left, right) = Chain-split xs l.chain in
    ground (
      arith,
      prev-count left,
      l.apart.0 elem,
      next_in xs elem ys l,
      count-append elem (elem ∷ ys) xs,
    )

-- list_remove () of an element of the list returns the one behind it, or the tail; the list holds
-- the others, in their order, and no field outside it is changed.
pub list_remove_lem :
    {list : ℕ} {m : Mem} (xs : List ℕ) (elem : ℕ) (ys : List ℕ)
    → IsList list (xs ++ elem ∷ ys) m
    → Returns
        (λ (next, m'). (next ≡ begin_of ys (tail_of list)) × Removed list xs elem ys m m')
        (list_remove elem m)
unfolding list_remove
list_remove_lem {list} {m} xs elem ys l =
    let out = removed xs elem ys l in
    assert-Returns _ _ (interior xs elem ys l) (returns (unlink-next xs elem ys l, out))

-- Whether there is an element.
abbrev pub is_nil : List ℕ → Bool
is_nil [] = true
is_nil (x ∷ xs) = false

pub list_empty-eq :
    {list : ℕ} {m : Mem} (xs : List ℕ) → IsList list xs m → list_empty list m ≡ some (is_nil xs)
unfolding list_empty
list_empty-eq [] l = rw (list_begin-eq l, list_end-eq l) (ground arith)
list_empty-eq (x ∷ xs) l = rw (list_begin-eq l, list_end-eq l) (ground (arith, not_end [] x xs l))

pub list_front-eq :
    {list : ℕ} {m : Mem} (x : ℕ) (xs : List ℕ) → IsList list (x ∷ xs) m → list_front list m ≡ some x
unfolding list_front
list_front-eq x xs l = rw (list_empty-eq (x ∷ xs) l, begin-next l.chain)

pub list_back-eq :
    {list : ℕ} {m : Mem} (xs : List ℕ) (x : ℕ)
    → IsList list (xs ++ x ∷ []) m
    → list_back list m ≡ some x
unfolding list_back
list_back-eq [] x l = rw (list_empty-eq (x ∷ []) l, begin-prev (Chain-split [] l.chain).1)
list_back-eq (y ∷ xs) x l =
    rw (list_empty-eq (y ∷ xs ++ x ∷ []) l, begin-prev (Chain-split (y ∷ xs) l.chain).1)

pub list_pop_front-Returns :
    {list : ℕ} {m : Mem} (x : ℕ) (xs : List ℕ)
    → IsList list (x ∷ xs) m
    → Returns (λ (front, m'). (front ≡ x) × Removed list [] x xs m m') (list_pop_front list m)
unfolding list_pop_front
list_pop_front-Returns x xs l =
    bind-Returns _ x (list_front-eq x xs l)
      (call-Returns _ (list_remove_lem [] x xs l) λ (next, m') (_, out). returns (refl, out))

pub list_pop_back-Returns :
    {list : ℕ} {m : Mem} (xs : List ℕ) (x : ℕ)
    → IsList list (xs ++ x ∷ []) m
    → Returns (λ (back, m'). (back ≡ x) × Removed list xs x [] m m') (list_pop_back list m)
unfolding list_pop_back
list_pop_back-Returns xs x l =
    bind-Returns _ x (list_back-eq xs x l)
      (call-Returns _ (list_remove_lem xs x [] l) λ (next, m') (_, out). returns (refl, out))
