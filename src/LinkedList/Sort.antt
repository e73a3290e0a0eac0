-- ===== src/LinkedList/Sort.antt =====
-- lib/kernel/list.c: list_splice (), list_sort () with its helpers, and list_unique (). A loop runs on
-- fuel; none is also a loop that runs out of it.
use juntos.Prelude.{
  ℕ, zero, suc, ◌+◌, ◌^◌, ◌%◌, Bool, true, false, not, ◌&&◌, ◌||◌, Option, none, some, ◌==◌, ltb,
  if◌then◌else◌, assert, ◌>>◌, ◌>>=◌,
}
use juntos.LinkedList.Elem.{
  Mem, null, set_prev, set_next, is_interior, is_tail, list_begin, list_next, list_end, list_prev,
}
use juntos.LinkedList.Ops.{list_empty, list_remove, list_push_back}

-- The writes of list_splice (), `last` the last element that is moved.
unfoldable pub relink : (before first last : ℕ) → Mem → Mem
relink before first last m =
    let m1 = set_next (m.prev first) (m.next last) m in
    let m2 = set_prev (m1.next last) (m1.prev first) m1 in
    let m3 = set_prev first (m2.prev before) m2 in
    let m4 = set_next last before m3 in
    let m5 = set_next (m4.prev before) first m4 in set_prev before last m5

unfoldable pub list_splice : (before first last : ℕ) → Mem → Option Mem
unfolding list_prev relink
list_splice before first last m = do
  assert (is_interior before m || is_tail before m)
  (if first == last then some m else (do
    last' ← list_prev last m
    assert (is_interior first m)
    assert (is_interior last' m)
    some (relink before first last' m)))

-- The while of is_sorted ()
unfoldable pub sorted_loop : (fuel : ℕ) → (ℕ → ℕ → Bool) → (a b : ℕ) → Mem → Option Bool
unfolding list_next list_prev
sorted_loop zero less a b m = none
sorted_loop (suc fuel) less a b m = do
  a' ← list_next a m
  (if a' == b
      then some true
      else (do p ← list_prev a' m; if less a' p then some false else sorted_loop fuel less a' b m))

unfoldable pub is_sorted : (fuel : ℕ) → (ℕ → ℕ → Bool) → (a b : ℕ) → Mem → Option Bool
unfolding sorted_loop
is_sorted fuel less a b m = if a == b then some true else sorted_loop fuel less a b m

-- The do of find_end_of_run ()
unfoldable pub run_loop : (fuel : ℕ) → (ℕ → ℕ → Bool) → (a b : ℕ) → Mem → Option ℕ
unfolding list_next list_prev
run_loop zero less a b m = none
run_loop (suc fuel) less a b m = do
  a' ← list_next a m
  (if a' == b
      then some a'
      else (do p ← list_prev a' m; if less a' p then some a' else run_loop fuel less a' b m))

unfoldable pub find_end_of_run : (fuel : ℕ) → (ℕ → ℕ → Bool) → (a b : ℕ) → Mem → Option ℕ
unfolding run_loop
find_end_of_run fuel less a b m = do
  assert (not (a == null))
  assert (not (b == null))
  assert (not (a == b))
  run_loop fuel less a b m

-- The while of inplace_merge ()
unfoldable pub merge_loop : (fuel : ℕ) → (ℕ → ℕ → Bool) → (a0 a1b0 b1 : ℕ) → Mem → Option Mem
unfolding list_next list_prev list_splice
merge_loop zero less a0 a1b0 b1 m = none
merge_loop (suc fuel) less a0 a1b0 b1 m =
    if a0 == a1b0 || a1b0 == b1
    then some m
    else if less a1b0 a0
    then (do
      x ← list_next a1b0 m
      p ← list_prev x m
      m' ← list_splice a0 p x m
      merge_loop fuel less a0 x b1 m')
    else (do x ← list_next a0 m; merge_loop fuel less x a1b0 b1 m)

unfoldable pub inplace_merge : (fuel : ℕ) → (ℕ → ℕ → Bool) → (a0 a1b0 b1 : ℕ) → Mem → Option Mem
unfolding is_sorted merge_loop
inplace_merge fuel less a0 a1b0 b1 m = do
  assert (not (a0 == null))
  assert (not (a1b0 == null))
  assert (not (b1 == null))
  first ← is_sorted fuel less a0 a1b0 m
  assert first
  second ← is_sorted fuel less a1b0 b1 m
  assert second
  merge_loop fuel less a0 a1b0 b1 m

-- The for of list_sort (): output_run_cnt, a size_t, behind it.
unfoldable pub pass_loop :
    (rounds fuel : ℕ) → (ℕ → ℕ → Bool) → (a0 end cnt : ℕ) → Mem → Option (ℕ × Mem)
unfolding find_end_of_run inplace_merge
pass_loop zero fuel less a0 end cnt m = none
pass_loop (suc rounds) fuel less a0 end cnt m = if a0 == end then some (cnt, m) else (do
  a1b0 ← find_end_of_run fuel less a0 end m
  if a1b0 == end then some ((cnt + 1) % 2 ^ 64, m) else (do
    b1 ← find_end_of_run fuel less a1b0 end m
    m' ← inplace_merge fuel less a0 a1b0 b1 m
    pass_loop rounds fuel less b1 end ((cnt + 1) % 2 ^ 64) m'))

-- The do of list_sort ()
unfoldable pub sort_loop : (rounds fuel : ℕ) → (ℕ → ℕ → Bool) → (list : ℕ) → Mem → Option Mem
unfolding list_begin list_end pass_loop
sort_loop zero fuel less list m = none
sort_loop (suc rounds) fuel less list m = do
  a0 ← list_begin list m
  end ← list_end list
  (cnt, m') ← pass_loop fuel fuel less a0 end 0 m
  (if ltb 1 cnt then sort_loop rounds fuel less list m' else some m')

unfoldable pub list_sort : (fuel : ℕ) → (ℕ → ℕ → Bool) → (list : ℕ) → Mem → Option Mem
unfolding sort_loop list_begin list_end is_sorted
list_sort fuel less list m = do
  assert (not (list == null))
  m' ← sort_loop fuel fuel less list m
  first ← list_begin list m'
  end ← list_end list
  sorted ← is_sorted fuel less first end m'
  assert sorted
  some m'

-- list_push_back () to the list of the duplicates, where there is one.
unfoldable pub add_duplicate : (duplicates : Option ℕ) → (next : ℕ) → Mem → Option Mem
unfolding list_push_back
add_duplicate none next m = some m
add_duplicate (some list) next m = list_push_back list next m

unfoldable pub unique_loop :
    (fuel : ℕ) → (ℕ → ℕ → Bool) → (elem end : ℕ) → Option ℕ → Mem → Option Mem
unfolding list_next list_remove add_duplicate
unique_loop zero less elem end duplicates m = none
unique_loop (suc fuel) less elem end duplicates m = do
  next ← list_next elem m
  (if next == end
      then some m
      else if not (less elem next) && not (less next elem)
      then (do
        (_, m1) ← list_remove next m
        m2 ← add_duplicate duplicates next m1
        unique_loop fuel less elem end duplicates m2)
      else unique_loop fuel less next end duplicates m)

unfoldable pub list_unique : (fuel : ℕ) → (ℕ → ℕ → Bool) → (list : ℕ) → Option ℕ → Mem → Option Mem
unfolding list_empty list_begin list_end unique_loop
list_unique fuel less list duplicates m = do
  assert (not (list == null))
  empty ← list_empty list m
  (if empty then some m else (do
    elem ← list_begin list m
    end ← list_end list
    unique_loop fuel less elem end duplicates m))
