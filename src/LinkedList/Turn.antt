-- ===== src/LinkedList/Turn.antt =====
-- lib/kernel/list.c: list_reverse () as a whole: the loop, then the list's two ends.
use juntos.Prelude.{
  ℕ, ◌<◌, ◌≡◌, ◌≢◌, refl, sym, List, [], ◌∷◌, ◌==◌, arith, some, true, false, subst, length, count,
  Returns, returns, Returns-of_eq, bind-Returns, call-Returns, Returns-mono, ap, ◌∙◌, count-reverse,
}
use mathlib.Core.List.{reverse}
use juntos.LinkedList.Elem.{Mem, null, head_of, tail_of, set_next, set_prev}
use juntos.LinkedList.Shape.{list_begin-eq, list_end-eq}
use juntos.LinkedList.Ops.{swap_ends, swap_back_links, list_reverse}
use juntos.LinkedList.Remove.{list_empty-eq}
use juntos.LinkedList.Chain.{Chain, cons, SameOutside, prev-count, next-prev, prev-next, IsList}
use juntos.LinkedList.Reverse.{Exchanged, reverse_loop-Returns, flip-Chain, ends-Chain}

-- The four writes of the two swaps, where the list begins with `x` and ends with `last`.
turned : (list x last : ℕ) → Mem → Mem
turned list x last m =
    set_next x (tail_of list)
      (set_prev last (head_of list) (set_prev (tail_of list) x (set_next (head_of list) last m)))

-- What the two swaps make of the state that the loop leaves.
record Turned (list x : ℕ) (xs : List ℕ) (m n : Mem) : Type 0 where
  next_head : n.next (head_of list) ≡ m.prev (tail_of list)
  prev_tail : n.prev (tail_of list) ≡ x
  next_first : n.next x ≡ tail_of list
  prev_last : n.prev (m.prev (tail_of list)) ≡ head_of list
  nexts : (a : ℕ) → 0 < count a xs → n.next a ≡ m.prev a
  prevs : (a : ℕ) → 0 < count a (x ∷ xs) → a ≢ m.prev (tail_of list) → n.prev a ≡ m.next a
  head_end : n.prev (head_of list) ≡ null
  tail_end : n.next (tail_of list) ≡ null
  outside : SameOutside (head_of list ∷ tail_of list ∷ x ∷ xs) m n

-- The first element and the last, as the loop leaves their links.
==-self : (a : ℕ) → (a == a) ≡ true
==-self a = ground arith

swaps-eq :
    {list x : ℕ} {xs : List ℕ} {m m1 : Mem}
    → IsList list (x ∷ xs) m
    → Chain m (tail_of list) (head_of list) (x ∷ xs)
    → Exchanged (x ∷ xs) m m1
    → swap_back_links list (swap_ends list m1) ≡ some (turned list x (m.prev (tail_of list)) m1)
unfolding swap_ends swap_back_links turned
swaps-eq {list} {x} {xs} {m} {m1} l (cons n v c) e =
    let one = l.apart.0 in
    let last = m.prev (tail_of list) in
    let here = prev-count c in
    let top = one (head_of list) in
    let bottom = one (tail_of list) in
    let last_read : m1.prev (tail_of list) ≡ last =
      ground (arith, bottom, e.outside (tail_of list)) in
    let first_read : m1.next (head_of list) ≡ x =
      ground (arith, top, n, e.outside (head_of list)) in
    let up : m1.next x ≡ head_of list = ground (arith, e.inside x, v) in
    let down : m1.prev last ≡ tail_of list = ground (arith, e.inside last, here, next-prev c) in
    let x_head : (x == head_of list) ≡ false = ground (arith, top) in
    let last_tail : (last == tail_of list) ≡ false = ground (arith, bottom, here) in
    let x_null : (x == null) ≡ false = ground (arith, l.apart.1) in
    let last_null : (last == null) ≡ false = ground (arith, l.apart.1, here) in
    rw
      (
        last_read,
        first_read,
        ==-self (head_of list),
        ==-self (tail_of list),
        x_null,
        last_null,
        x_head,
        last_tail,
        up,
        down,
      )
      refl

turned-Turned :
    {list x : ℕ} {xs : List ℕ} {m m1 : Mem}
    → IsList list (x ∷ xs) m
    → Chain m (tail_of list) (head_of list) (x ∷ xs)
    → Exchanged (x ∷ xs) m m1
    → Turned list x xs m (turned list x (m.prev (tail_of list)) m1)
unfolding turned
turned-Turned {list} {x} {xs} {m} {m1} l (cons n v c) e =
    let one = l.apart.0 in
    let last = m.prev (tail_of list) in
    let here = prev-count c in
    let top = one (head_of list) in
    let bottom = one (tail_of list) in
    record {
      next_head = ground (arith, top, bottom, one x);
      prev_tail = ground (arith, top, bottom, one last, here);
      next_first = ground (arith, top, bottom, one x);
      prev_last = ground (arith, top, bottom, one last, here);
      nexts = λ a h. ground (arith, top, bottom, one a, e.inside a);
      prevs = λ a h ne. ground (arith, top, bottom, one a, e.inside a);
      head_end = ground (arith, top, bottom, one last, here, e.outside (head_of list), l.head_end);
      tail_end = ground (arith, top, bottom, one x, e.outside (tail_of list), l.tail_end);
      outside = λ a h. ground (arith, e.outside a, here);
    }

-- What the swaps leave is the list backwards.
Turned-Chain :
    {list x : ℕ} {xs : List ℕ} {m n : Mem}
    → IsList list (x ∷ xs) m
    → Turned list x xs m n
    → Chain n (tail_of list) (head_of list) (reverse (x ∷ xs))
Turned-Chain {list} {x} {xs} {m} {n} l t =
    let one = l.apart.0 in
    let c = l.chain in
    let last = m.prev (tail_of list) in
    flip-Chain (
      ends-Chain (head_of list) (tail_of list) c (λ a. omega (arith, one a)) t.prev_tail t.next_head
        (λ a h inner. t.prevs a h (λ same. inner (ap m.next same ∙ next-prev c)))
        (λ a h end.
          subst (λ b. n.prev b ≡ head_of list) (sym (ap m.prev end) ∙ prev-next a c (omega arith))
            t.prev_last)
        (λ a h. t.nexts a h) t.next_first)

reversed :
    {list x : ℕ} {xs : List ℕ} {m n : Mem}
    → IsList list (x ∷ xs) m
    → Turned list x xs m n
    → IsList list (reverse (x ∷ xs)) n
reversed {list} {x} {xs} l t = record {
  chain = Turned-Chain l t;
  head_end = t.head_end;
  tail_end = t.tail_end;
  apart = (
    (λ a. omega (arith, l.apart.0 a, count-reverse a (x ∷ xs))),
    omega (arith, l.apart.1, count-reverse null (x ∷ xs)),
  );
}

-- list_reverse (), on fuel for every element and the end: the list holds its elements the other way
-- round, and no field outside it is changed.
pub list_reverse_lem :
    (fuel list : ℕ) (m : Mem) (xs : List ℕ)
    → IsList list xs m
    → length xs < fuel
    → Returns
        (λ m'. IsList list (reverse xs) m' × SameOutside (head_of list ∷ tail_of list ∷ xs) m m')
        (list_reverse fuel list m)
unfolding list_reverse
list_reverse_lem fuel list m [] l enough =
    bind-Returns _ true (list_empty-eq [] l) (returns (l, λ a out. (refl, refl)))
list_reverse_lem fuel list m (x ∷ xs) l enough = bind-Returns _ false (list_empty-eq (x ∷ xs) l) (
    bind-Returns _ x (list_begin-eq l) (
      bind-Returns _ (tail_of list) (list_end-eq l) (
        call-Returns _
          (reverse_loop-Returns fuel l.chain (λ a. omega (arith, l.apart.0 a))
            (omega (arith, l.apart.1)) (λ a h. (refl, refl)) enough)
          λ m1 e.
            Returns-mono (Returns-of_eq (swaps-eq l l.chain e) (turned-Turned l l.chain e))
              λ n t. (reversed l t, t.outside))))
