-- ===== src/LinkedList/Ops.antt =====
-- lib/kernel/list.c: the operations. A loop runs on fuel; none is also a loop that runs out of it.
use juntos.Prelude.{
  ℕ, zero, suc, ◌+◌, ◌^◌, ◌%◌, Bool, not, ◌||◌, Option, none, some, ◌==◌, if◌then◌else◌, assert,
  ◌>>◌, ◌>>=◌,
}
use juntos.LinkedList.Elem.{
  Mem, null, set_prev, set_next, head_of, tail_of, is_interior, is_tail, list_begin, list_next,
  list_end,
}

-- The four writes of list_insert (), `before_prev` read first.
unfoldable pub link_before : (before elem : ℕ) → Mem → Mem
link_before before elem m =
    set_prev before elem
      (set_next (m.prev before) elem (set_next elem before (set_prev elem (m.prev before) m)))

unfoldable pub list_insert : (before elem : ℕ) → Mem → Option Mem
unfolding link_before
list_insert before elem m = do
  assert (is_interior before m || is_tail before m)
  assert (not (elem == null))
  some (link_before before elem m)

unfoldable pub list_push_front : (list elem : ℕ) → Mem → Option Mem
unfolding list_begin list_insert
list_push_front list elem m = do first ← list_begin list m; list_insert first elem m

unfoldable pub list_push_back : (list elem : ℕ) → Mem → Option Mem
unfolding list_end list_insert
list_push_back list elem m = do end ← list_end list; list_insert end elem m

-- The two writes of list_remove ().
unfoldable pub unlink : ℕ → Mem → Mem
unlink elem m =
    let m1 = set_next (m.prev elem) (m.next elem) m in set_prev (m1.next elem) (m1.prev elem) m1

unfoldable pub list_remove : ℕ → Mem → Option (ℕ × Mem)
unfolding unlink
list_remove elem m = do assert (is_interior elem m); some ((unlink elem m).next elem, unlink elem m)

unfoldable pub list_empty : ℕ → Mem → Option Bool
unfolding list_begin list_end
list_empty list m = do first ← list_begin list m; end ← list_end list; some (first == end)

unfoldable pub list_front : ℕ → Mem → Option ℕ
unfolding list_empty
list_front list m = do empty ← list_empty list m; assert (not empty); some (m.next (head_of list))

unfoldable pub list_back : ℕ → Mem → Option ℕ
unfolding list_empty
list_back list m = do empty ← list_empty list m; assert (not empty); some (m.prev (tail_of list))

unfoldable pub list_pop_front : ℕ → Mem → Option (ℕ × Mem)
unfolding list_front list_remove
list_pop_front list m = do
  front ← list_front list m
  (_, m1) ← list_remove front m
  some (front, m1)

unfoldable pub list_pop_back : ℕ → Mem → Option (ℕ × Mem)
unfolding list_back list_remove
list_pop_back list m = do back ← list_back list m; (_, m1) ← list_remove back m; some (back, m1)

-- The for of list_size (); `cnt` is a size_t.
unfoldable pub size_loop : (fuel e end cnt : ℕ) → Mem → Option ℕ
unfolding list_next
size_loop zero e end cnt m = none
size_loop (suc fuel) e end cnt m =
    if e == end
    then some cnt
    else (list_next e m >>= λ e'. size_loop fuel e' end ((cnt + 1) % 2 ^ 64) m)

unfoldable pub list_size : (fuel list : ℕ) → Mem → Option ℕ
unfolding list_begin list_end size_loop
list_size fuel list m = do
  first ← list_begin list m
  end ← list_end list
  size_loop fuel first end 0 m

-- The for of list_insert_ordered (); `less` is the comparison of two elements, with its `aux`.
unfoldable pub find_place : (fuel : ℕ) → (ℕ → ℕ → Bool) → (elem e end : ℕ) → Mem → Option ℕ
unfolding list_next
find_place zero less elem e end m = none
find_place (suc fuel) less elem e end m =
    if e == end
    then some e
    else if less elem e
    then some e
    else (list_next e m >>= λ e'. find_place fuel less elem e' end m)

unfoldable pub list_insert_ordered :
    (fuel : ℕ) → (ℕ → ℕ → Bool) → (list elem : ℕ) → Mem → Option Mem
unfolding list_begin list_end find_place list_insert
list_insert_ordered fuel less list elem m = do
  assert (not (list == null))
  assert (not (elem == null))
  first ← list_begin list m
  end ← list_end list
  e ← find_place fuel less elem first end m
  list_insert e elem m

-- The for of list_max (); e is the element to look at.
unfoldable pub max_loop : (fuel : ℕ) → (ℕ → ℕ → Bool) → (max e end : ℕ) → Mem → Option ℕ
unfolding list_next
max_loop zero less max e end m = none
max_loop (suc fuel) less max e end m =
    if e == end
    then some max
    else (list_next e m >>= λ e'. max_loop fuel less (if less max e then e else max) e' end m)

unfoldable pub list_max : (fuel : ℕ) → (ℕ → ℕ → Bool) → (list : ℕ) → Mem → Option ℕ
unfolding list_begin list_end list_next max_loop
list_max fuel less list m = do
  max ← list_begin list m
  end ← list_end list
  (if max == end then some max else (list_next max m >>= λ e. max_loop fuel less max e end m))

unfoldable pub min_loop : (fuel : ℕ) → (ℕ → ℕ → Bool) → (min e end : ℕ) → Mem → Option ℕ
unfolding list_next
min_loop zero less min e end m = none
min_loop (suc fuel) less min e end m =
    if e == end
    then some min
    else (list_next e m >>= λ e'. min_loop fuel less (if less e min then e else min) e' end m)

unfoldable pub list_min : (fuel : ℕ) → (ℕ → ℕ → Bool) → (list : ℕ) → Mem → Option ℕ
unfolding list_begin list_end list_next min_loop
list_min fuel less list m = do
  min ← list_begin list m
  end ← list_end list
  (if min == end then some min else (list_next min m >>= λ e. min_loop fuel less min e end m))

-- swap (&e->prev, &e->next)
unfoldable pub swap_links : ℕ → Mem → Mem
swap_links e m = set_next e (m.prev e) (set_prev e (m.next e) m)

-- The for of list_reverse (); a field of NULL is not read.
unfoldable pub reverse_loop : (fuel e end : ℕ) → Mem → Option Mem
unfolding swap_links
reverse_loop zero e end m = none
reverse_loop (suc fuel) e end m = if e == end then some m else (do
  assert (not (e == null))
  let m1 = swap_links e m
  reverse_loop fuel (m1.prev e) end m1)

-- The two swaps behind the for: of the list's ends, and of the ends' links back to it.
unfoldable pub swap_ends : ℕ → Mem → Mem
swap_ends list m =
    set_prev (tail_of list) (m.next (head_of list))
      (set_next (head_of list) (m.prev (tail_of list)) m)

unfoldable pub swap_back_links : ℕ → Mem → Option Mem
swap_back_links list m = do
  let last = m.next (head_of list)
  let first = m.prev (tail_of list)
  assert (not (last == null))
  assert (not (first == null))
  some (set_next first (m.prev last) (set_prev last (m.next first) m))

unfoldable pub list_reverse : (fuel list : ℕ) → Mem → Option Mem
unfolding list_empty list_begin list_end reverse_loop swap_ends swap_back_links
list_reverse fuel list m = do
  empty ← list_empty list m
  (if empty then some m else (do
    first ← list_begin list m
    end ← list_end list
    m1 ← reverse_loop fuel first end m
    swap_back_links list (swap_ends list m1)))
