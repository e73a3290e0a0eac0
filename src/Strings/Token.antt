-- ===== src/Strings/Token.antt =====
-- lib/string.c: strtok_r (). What save_ptr points to is an argument and part of the result.
use juntos.Prelude.{
  ℕ, zero, suc, ◌+◌, Bool, true, false, not, Option, none, some, ◌==◌, if◌then◌else◌, assert, ◌>>◌,
  ◌>>=◌, update,
}
use juntos.Strings.Block.{Mem, null}
use juntos.Strings.Str.{strchr}

-- The first while: whether the string ends there, and where the loop stops.
unfoldable pub skip_delimiters : (fuel set_fuel s delimiters : ℕ) → Mem → Option (Bool × ℕ)
unfolding strchr
skip_delimiters zero set_fuel s delimiters m = none
skip_delimiters (suc fuel) set_fuel s delimiters m = do
  found ← strchr set_fuel delimiters (m s) m
  (if found == null
      then some (false, s)
      else if m s == 0
      then some (true, s)
      else skip_delimiters fuel set_fuel (s + 1) delimiters m)

-- The second while.
unfoldable pub skip_token : (fuel set_fuel s delimiters : ℕ) → Mem → Option ℕ
unfolding strchr
skip_token zero set_fuel s delimiters m = none
skip_token (suc fuel) set_fuel s delimiters m = do
  found ← strchr set_fuel delimiters (m s) m
  (if found == null then skip_token fuel set_fuel (s + 1) delimiters m else some s)

-- The token, what *save_ptr is set to, and the memory.
unfoldable pub strtok_r : (fuel set_fuel s delimiters save : ℕ) → Mem → Option (ℕ × ℕ × Mem)
unfolding skip_delimiters skip_token
strtok_r fuel set_fuel s delimiters save m = do
  assert (not (delimiters == null))
  let start = if s == null then save else s
  assert (not (start == null))
  (ended, token) ← skip_delimiters fuel set_fuel start delimiters m
  (if ended then some (null, token, m) else (do
    stop ← skip_token fuel set_fuel token delimiters m
    some (if not (m stop == 0) then (token, stop + 1, update m stop 0) else (token, stop, m))))
