-- ===== src/Strings/Str.antt =====
-- lib/string.c: the functions on strings. A loop runs on fuel, one round for each character and one
-- for the null byte; none is also a loop that runs out of it.
use juntos.Prelude.{
  ℕ, zero, suc, ◌+◌, ◌-◌, ◌^◌, ◌%◌, Bool, false, not, ◌&&◌, Option, none, some, ◌==◌, ltb, leb,
  if◌then◌else◌, assert, ◌>>◌, ◌>>=◌, update,
}
use juntos.Prelude.Int.{ℤ, pos, negsuc}
use juntos.Strings.Block.{Mem, null, memcpy, memcmp}

unfoldable pub strlen_loop : (fuel p : ℕ) → Mem → Option ℕ
strlen_loop zero p m = none
strlen_loop (suc fuel) p m = if m p == 0 then some p else strlen_loop fuel (p + 1) m

unfoldable pub strlen : (fuel string : ℕ) → Mem → Option ℕ
unfolding strlen_loop
strlen fuel string m = do
  assert (not (string == null))
  p ← strlen_loop fuel string m
  some (p - string)

unfoldable pub strnlen_loop : (fuel string maxlen length : ℕ) → Mem → Option ℕ
strnlen_loop zero string maxlen length m = none
strnlen_loop (suc fuel) string maxlen length m =
    if not (m (string + length) == 0) && ltb length maxlen
    then strnlen_loop fuel string maxlen (length + 1) m
    else some length

unfoldable pub strnlen : (fuel string maxlen : ℕ) → Mem → Option ℕ
unfolding strnlen_loop
strnlen fuel string maxlen m = strnlen_loop fuel string maxlen 0 m

-- Where the while of strcmp () stops.
unfoldable pub strcmp_loop : (fuel a b : ℕ) → Mem → Option (ℕ × ℕ)
strcmp_loop zero a b m = none
strcmp_loop (suc fuel) a b m =
    if not (m a == 0) && (m a == m b) then strcmp_loop fuel (a + 1) (b + 1) m else some (a, b)

-- *a < *b ? -1 : *a > *b
abbrev pub sign_of : (a b : ℕ) → ℤ
sign_of a b = if ltb a b then negsuc 0 else if ltb b a then pos 1 else pos 0

unfoldable pub strcmp : (fuel a b : ℕ) → Mem → Option ℤ
unfolding strcmp_loop
strcmp fuel a b m = do
  assert (not (a == null))
  assert (not (b == null))
  (a', b') ← strcmp_loop fuel a b m
  some (sign_of (m a') (m b'))

unfoldable pub strchr_loop : (fuel string c : ℕ) → Mem → Option ℕ
strchr_loop zero string c m = none
strchr_loop (suc fuel) string c m =
    if m string == c
    then some string
    else if m string == 0
    then some null
    else strchr_loop fuel (string + 1) c m

-- Equality of two chars is that of their bytes.
unfoldable pub strchr : (fuel string c : ℕ) → Mem → Option ℕ
unfolding strchr_loop
strchr fuel string c m = do assert (not (string == null)); strchr_loop fuel string (c % 2 ^ 8) m

-- `set_fuel` is for the string of the characters that stop the loop.
unfoldable pub strcspn_loop : (fuel set_fuel string stop length : ℕ) → Mem → Option ℕ
unfolding strchr
strcspn_loop zero set_fuel string stop length m = none
strcspn_loop (suc fuel) set_fuel string stop length m =
    if m (string + length) == 0 then some length else (do
      found ← strchr set_fuel stop (m (string + length)) m
      (if not (found == null)
          then some length
          else strcspn_loop fuel set_fuel string stop (length + 1) m))

unfoldable pub strcspn : (fuel set_fuel string stop : ℕ) → Mem → Option ℕ
unfolding strcspn_loop
strcspn fuel set_fuel string stop m = strcspn_loop fuel set_fuel string stop 0 m

unfoldable pub strspn_loop : (fuel set_fuel string skip length : ℕ) → Mem → Option ℕ
unfolding strchr
strspn_loop zero set_fuel string skip length m = none
strspn_loop (suc fuel) set_fuel string skip length m =
    if m (string + length) == 0 then some length else (do
      found ← strchr set_fuel skip (m (string + length)) m
      (if found == null then some length else strspn_loop fuel set_fuel string skip (length + 1) m))

unfoldable pub strspn : (fuel set_fuel string skip : ℕ) → Mem → Option ℕ
unfolding strspn_loop
strspn fuel set_fuel string skip m = strspn_loop fuel set_fuel string skip 0 m

unfoldable pub strpbrk : (fuel set_fuel string stop : ℕ) → Mem → Option ℕ
unfolding strchr
strpbrk zero set_fuel string stop m = none
strpbrk (suc fuel) set_fuel string stop m = if m string == 0 then some null else (do
  found ← strchr set_fuel stop (m string) m
  (if not (found == null) then some string else strpbrk fuel set_fuel (string + 1) stop m))

unfoldable pub strrchr_loop : (fuel string c p : ℕ) → Mem → Option ℕ
strrchr_loop zero string c p m = none
strrchr_loop (suc fuel) string c p m =
    if m string == 0
    then some p
    else strrchr_loop fuel (string + 1) c (if m string == c then string else p) m

unfoldable pub strrchr : (fuel string c : ℕ) → Mem → Option ℕ
unfolding strrchr_loop
strrchr fuel string c m = strrchr_loop fuel string (c % 2 ^ 8) null m

-- ! on an int
abbrev pub is_zero : ℤ → Bool
is_zero (pos n) = n == 0
is_zero (negsuc n) = false

-- The for of strstr (), with `count` places left to look at, from the place `i`.
unfoldable pub strstr_loop : (count i haystack needle needle_len : ℕ) → Mem → Option ℕ
unfolding memcmp
strstr_loop zero i haystack needle needle_len m = some null
strstr_loop (suc count) i haystack needle needle_len m = do
  order ← memcmp (haystack + i) needle needle_len m
  (if is_zero order
      then some (haystack + i)
      else strstr_loop count (i + 1) haystack needle needle_len m)

unfoldable pub strstr : (fuel haystack needle : ℕ) → Mem → Option ℕ
unfolding strlen strstr_loop
strstr fuel haystack needle m = do
  haystack_len ← strlen fuel haystack m
  needle_len ← strlen fuel needle m
  (if leb needle_len haystack_len
      then strstr_loop (haystack_len - needle_len + 1) 0 haystack needle needle_len m
      else some null)

unfoldable pub strlcpy : (fuel dst src size : ℕ) → Mem → Option (ℕ × Mem)
unfolding strlen memcpy
strlcpy fuel dst src size m = do
  assert (not (dst == null))
  assert (not (src == null))
  src_len ← strlen fuel src m
  (if ltb 0 size
      then (do
        let dst_len = if ltb src_len (size - 1) then src_len else size - 1
        (_, m1) ← memcpy dst src dst_len m
        some (src_len, update m1 (dst + dst_len) 0))
      else some (src_len, m))

unfoldable pub strlcat : (fuel dst src size : ℕ) → Mem → Option (ℕ × Mem)
unfolding strlen memcpy
strlcat fuel dst src size m = do
  assert (not (dst == null))
  assert (not (src == null))
  src_len ← strlen fuel src m
  dst_len ← strlen fuel dst m
  (if ltb 0 size && ltb dst_len size
      then (do
        let room = size - dst_len - 1
        let copy_cnt = if ltb src_len room then src_len else room
        (_, m1) ← memcpy (dst + dst_len) src copy_cnt m
        some (src_len + dst_len, update m1 (dst + dst_len + copy_cnt) 0))
      else some (src_len + dst_len, m))
