-- ===== src/LinkedList/Shape.antt =====
-- lib/kernel/list.c: what the checks see in a list that is well formed.
use juntos.Prelude.{ℕ, ◌≡◌, true, false, ◌||◌, List, [], ◌∷◌, ◌++◌, ◌==◌, some, count-append, arith}
use juntos.LinkedList.Elem.{
  Mem, null, tail_of, is_interior, is_tail, list_begin, list_next, list_end,
}
use juntos.LinkedList.Chain.{Chain-split, IsList, begin_of, begin-next, prev-count, next-count}

pub not_null : {list : ℕ} {xs : List ℕ} {m : Mem} → IsList list xs m → (list == null) ≡ false
not_null l = ground (arith, l.apart.1)

pub interior :
    {list : ℕ} {m : Mem} (xs : List ℕ) (y : ℕ) (ys : List ℕ)
    → IsList list (xs ++ y ∷ ys) m
    → is_interior y m ≡ true
interior {list} {m} xs y ys l =
    let (left, right) = Chain-split xs l.chain in
    ground (arith, prev-count left, next-count right, l.apart.1, count-append null (y ∷ ys) xs)

pub tail_checked :
    {list : ℕ} {xs : List ℕ} {m : Mem} → IsList list xs m → is_tail (tail_of list) m ≡ true
tail_checked {list} {xs} l = ground (arith, prev-count l.chain, l.tail_end, l.apart.1)

pub begin-checked :
    {list : ℕ} {m : Mem} (xs ys : List ℕ)
    → IsList list (xs ++ ys) m
    → (is_interior (begin_of ys (tail_of list)) m || is_tail (begin_of ys (tail_of list)) m) ≡ true
begin-checked xs [] l = ground (arith, tail_checked l)
begin-checked xs (y ∷ ys) l = ground (arith, interior xs y ys l)

-- list_next () of an element.
pub next_in :
    {list : ℕ} {m : Mem} (xs : List ℕ) (y : ℕ) (ys : List ℕ)
    → IsList list (xs ++ y ∷ ys) m
    → m.next y ≡ begin_of ys (tail_of list)
next_in xs y ys l = begin-next (Chain-split xs l.chain).1

pub list_begin-eq :
    {list : ℕ} {xs : List ℕ} {m : Mem}
    → IsList list xs m
    → list_begin list m ≡ some (begin_of xs (tail_of list))
unfolding list_begin
list_begin-eq l = rw (not_null l, begin-next l.chain)

pub list_end-eq :
    {list : ℕ} {xs : List ℕ} {m : Mem} → IsList list xs m → list_end list ≡ some (tail_of list)
unfolding list_end
list_end-eq l = rw (not_null l)

pub list_next-eq :
    {list : ℕ} {m : Mem} (xs : List ℕ) (y : ℕ) (ys : List ℕ)
    → IsList list (xs ++ y ∷ ys) m
    → list_next y m ≡ some (begin_of ys (tail_of list))
unfolding list_next
list_next-eq xs y ys l = ground (arith, interior xs y ys l, next_in xs y ys l)

-- An element is not the end.
pub not_end :
    {list : ℕ} {m : Mem} (xs : List ℕ) (y : ℕ) (ys : List ℕ)
    → IsList list (xs ++ y ∷ ys) m
    → (y == tail_of list) ≡ false
not_end xs y ys l = ground (arith, l.apart.0 y, count-append y (y ∷ ys) xs)
