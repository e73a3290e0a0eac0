-- ===== src/Stdlib/Defs.antt =====
-- lib/stdlib.c: the operations. An array is its elements by their index, from 1 in the sort and from
-- 0 in the search; `compare` is a function of two elements, with its aux. A size_t wraps around.
use juntos.Prelude.{
  ℕ, zero, suc, ◌+◌, ◌-◌, ◌*◌, ◌/◌, ◌%◌, ◌^◌, Bool, true, false, not, ◌&&◌, ◌||◌, Option, none,
  some, ◌==◌, ltb, leb, if◌then◌else◌, assert, ◌>>◌, ◌>>=◌, update,
}
use juntos.Prelude.Int.{ℤ, pos, negsuc}
use juntos.Strings.Block.{Mem, null}

abbrev pub is_positive : ℤ → Bool
is_positive (pos n) = ltb 0 n
is_positive (negsuc n) = false

abbrev pub is_negative : ℤ → Bool
is_negative (pos n) = false
is_negative (negsuc n) = true

-- All the bytes of the two elements change places.
unfoldable pub do_swap : (a_idx b_idx : ℕ) → (ℕ → ℕ) → ℕ → ℕ
do_swap a_idx b_idx array = update (update array a_idx (array b_idx)) b_idx (array a_idx)

abbrev pub do_compare : (ℕ → ℕ → ℤ) → (a_idx b_idx : ℕ) → (ℕ → ℕ) → ℤ
do_compare compare a_idx b_idx array = compare (array a_idx) (array b_idx)

-- `max` in heapify (), behind the tests of both children
abbrev pub larger_of : (ℕ → ℕ → ℤ) → (child max cnt : ℕ) → (ℕ → ℕ) → ℕ
larger_of compare child max cnt array =
    if leb child cnt && is_positive (do_compare compare child max array) then child else max

abbrev pub largest : (ℕ → ℕ → ℤ) → (i cnt : ℕ) → (ℕ → ℕ) → ℕ
largest compare i cnt array =
    larger_of compare ((2 * i + 1) % 2 ^ 64) (larger_of compare (2 * i % 2 ^ 64) i cnt array) cnt
      array

-- The index grows in each round; a loop that runs out of rounds is none.
unfoldable pub heapify : (rounds : ℕ) → (ℕ → ℕ → ℤ) → (i cnt : ℕ) → (ℕ → ℕ) → Option (ℕ → ℕ)
unfolding do_swap
heapify zero compare i cnt array = none
heapify (suc rounds) compare i cnt array =
    let max = largest compare i cnt array in
    if max == i then some array else heapify rounds compare max cnt (do_swap i max array)

-- for (i = cnt / 2; i > 0; i--)
unfoldable pub build_loop : (i : ℕ) → (ℕ → ℕ → ℤ) → (cnt : ℕ) → (ℕ → ℕ) → Option (ℕ → ℕ)
unfolding heapify
build_loop zero compare cnt array = some array
build_loop (suc i) compare cnt array = do
  array' ← heapify (cnt + 1) compare (suc i) cnt array
  build_loop i compare cnt array'

-- for (i = cnt; i > 1; i--), the argument being i - 1
unfoldable pub drain_loop : (above : ℕ) → (ℕ → ℕ → ℤ) → (ℕ → ℕ) → Option (ℕ → ℕ)
unfolding heapify do_swap
drain_loop zero compare array = some array
drain_loop (suc above) compare array = do
  array' ← heapify (suc above + 1) compare 1 (suc above) (do_swap 1 (suc (suc above)) array)
  drain_loop above compare array'

-- `at` is the address of the array.
unfoldable pub sort : (at cnt size : ℕ) → (ℕ → ℕ → ℤ) → (ℕ → ℕ) → Option (ℕ → ℕ)
unfolding build_loop drain_loop
sort at cnt size compare array = do
  assert (not (at == null) || (cnt == 0))
  assert (ltb 0 size)
  array' ← build_loop (cnt / 2) compare cnt array
  drain_loop (cnt - 1) compare array'

-- compare_thunk () calls the function that it is given.
unfoldable pub qsort : (at cnt size : ℕ) → (ℕ → ℕ → ℤ) → (ℕ → ℕ) → Option (ℕ → ℕ)
unfolding sort
qsort at cnt size compare array = sort at cnt size compare array

-- `first` and `last` as indices, of elements with a size; the outcome of the loop, a null
-- pointer being none, and none around it a loop that runs out of rounds.
unfoldable pub search_loop :
    (rounds : ℕ) → (ℕ → ℕ → ℤ) → (key first last : ℕ) → (ℕ → ℕ) → Option (Option ℕ)
search_loop zero compare key first last array = none
search_loop (suc rounds) compare key first last array =
    let middle = first + (last - first) / 2 in
    let cmp = compare key (array middle) in
    if ltb first last
    then (if is_negative cmp
        then search_loop rounds compare key first middle array
        else if is_positive cmp
        then search_loop rounds compare key (middle + 1) last array
        else some (some middle))
    else some none

-- Elements of no size leave `last` at the array's start.
unfoldable pub binary_search : (key cnt size : ℕ) → (ℕ → ℕ → ℤ) → (ℕ → ℕ) → Option (Option ℕ)
unfolding search_loop
binary_search key cnt size compare array =
    if size == 0 then some none else search_loop (cnt + 1) compare key 0 cnt array

unfoldable pub bsearch : (key cnt size : ℕ) → (ℕ → ℕ → ℤ) → (ℕ → ℕ) → Option (Option ℕ)
unfolding binary_search
bsearch key cnt size compare array = binary_search key cnt size compare array

-- include/lib/ctype.h
abbrev pub isspace : ℕ → Bool
isspace c = c == 32 || c == 12 || c == 10 || c == 13 || c == 9 || c == 11

abbrev pub isdigit : ℕ → Bool
isdigit c = leb 48 c && leb c 57

unfoldable pub skip_space : (fuel s : ℕ) → Mem → Option ℕ
skip_space zero s m = none
skip_space (suc fuel) s m = if isspace (m s) then skip_space fuel (s + 1) m else some s

-- `value` is the number without its sign, of a negative int; none is also an overflow.
unfoldable pub digits_loop : (fuel s value : ℕ) → Mem → Option ℕ
digits_loop zero s value m = none
digits_loop (suc fuel) s value m =
    let value' = value * 10 + (m s - 48) in
    if isdigit (m s)
    then (do assert (leb value' (2 ^ 31)); digits_loop fuel (s + 1) value' m)
    else some value

abbrev pub minus : ℕ → ℤ
minus zero = pos 0
minus (suc n) = negsuc n

unfoldable pub atoi : (fuel s : ℕ) → Mem → Option ℤ
unfolding skip_space digits_loop
atoi fuel s m = do
  assert (not (s == null))
  s1 ← skip_space fuel s m
  let negative = m s1 == 45
  value ← digits_loop fuel (if m s1 == 43 || negative then s1 + 1 else s1) 0 m
  (if negative then some (minus value) else (do assert (ltb value (2 ^ 31)); some (pos value)))
