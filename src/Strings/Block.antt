-- ===== src/Strings/Block.antt =====
-- lib/string.c: the functions on blocks of bytes. A loop `while (size-- > 0)` is recursion on `size`.
use juntos.Prelude.{
  ℕ, zero, suc, ◌+◌, ◌^◌, ◌%◌, Bool, not, ◌||◌, Option, some, ◌==◌, ltb, if◌then◌else◌, assert,
  ◌>>◌, update,
}
use juntos.Prelude.Int.{ℤ, pos, negsuc}

-- The byte at each address.
abbrev pub Mem : Type 0
Mem = ℕ → ℕ

abbrev pub null : ℕ
null = 0

-- ASSERT (p != NULL || size == 0)
abbrev pub is_block : (p size : ℕ) → Bool
is_block p size = not (p == null) || (size == 0)

-- *dst++ = *src++, `size` times
unfoldable pub copy_up : (size dst src : ℕ) → Mem → Mem
copy_up zero dst src m = m
copy_up (suc size) dst src m = copy_up size (dst + 1) (src + 1) (update m dst (m src))

-- *--dst = *--src, `size` times, from the ends of the two blocks
unfoldable pub copy_down : (size dst src : ℕ) → Mem → Mem
copy_down zero dst src m = m
copy_down (suc size) dst src m = copy_down size dst src (update m (dst + size) (m (src + size)))

-- The pointer that is returned, and the memory.
unfoldable pub memcpy : (dst src size : ℕ) → Mem → Option (ℕ × Mem)
unfolding copy_up
memcpy dst src size m = do
  assert (is_block dst size)
  assert (is_block src size)
  some (dst, copy_up size dst src m)

-- The loop forwards leaves `dst` behind the block, the one backwards at its start.
unfoldable pub memmove : (dst src size : ℕ) → Mem → Option (ℕ × Mem)
unfolding copy_up copy_down
memmove dst src size m = do
  assert (is_block dst size)
  assert (is_block src size)
  some (
      if ltb dst src then (dst + size, copy_up size dst src m) else (dst, copy_down size dst src m))

unfoldable pub memcmp_loop : (size a b : ℕ) → Mem → ℤ
memcmp_loop zero a b m = pos 0
memcmp_loop (suc size) a b m =
    if m a == m b
    then memcmp_loop size (a + 1) (b + 1) m
    else if ltb (m b) (m a)
    then pos 1
    else negsuc 0

unfoldable pub memcmp : (a b size : ℕ) → Mem → Option ℤ
unfolding memcmp_loop
memcmp a b size m = do
  assert (is_block a size)
  assert (is_block b size)
  some (memcmp_loop size a b m)

unfoldable pub memchr_loop : (size block ch : ℕ) → Mem → ℕ
memchr_loop zero block ch m = null
memchr_loop (suc size) block ch m =
    if m block == ch then block else memchr_loop size (block + 1) ch m

-- `ch` is the argument's value modulo 2 ^ 8, the unsigned char.
unfoldable pub memchr : (block ch size : ℕ) → Mem → Option ℕ
unfolding memchr_loop
memchr block ch size m = do
  assert (is_block block size)
  some (memchr_loop size block (ch % 2 ^ 8) m)

unfoldable pub fill : (size dst value : ℕ) → Mem → Mem
fill zero dst value m = m
fill (suc size) dst value m = fill size (dst + 1) value (update m dst (value % 2 ^ 8))

unfoldable pub memset : (dst value size : ℕ) → Mem → Option (ℕ × Mem)
unfolding fill
memset dst value size m = do assert (is_block dst size); some (dst, fill size dst value m)
