-- ===== src/Strings/Length.antt =====
-- lib/string.c: strlen (), strcmp () and strchr () against the strings as sequences.
use juntos.Prelude.{
  ℕ, zero, suc, ◌+◌, ◌<◌, ◌%◌, ◌^◌, ◌≡◌, ◌≢◌, ap, ◌∙◌, false, ◌==◌, ltb, if◌then◌else◌, arith, some,
  List, [], ◌∷◌, length, ◌>>=◌,
}
use juntos.Prelude.Int.{ℤ, pos, negsuc}
use juntos.Strings.Block.{Mem, null}
use juntos.Strings.Str.{strlen_loop, strlen, strcmp_loop, strcmp, sign_of, strchr_loop, strchr}
use juntos.Strings.Defs.{IsString, end, char}

strlen_loop-eq :
    (fuel : ℕ) {m : Mem} {s : ℕ} {bs : List ℕ}
    → IsString m s bs
    → length bs < fuel
    → strlen_loop fuel s m ≡ some (s + length bs)
unfolding strlen_loop
strlen_loop-eq zero is enough = absurd (omega arith)
strlen_loop-eq (suc fuel) (end z) enough = rw z (ap some (omega arith))
strlen_loop-eq (suc fuel) {m} {s} (char {bs} e nz is) enough =
    let more : (m s == 0) ≡ false = ground arith in
    rw more (strlen_loop-eq fuel is (omega arith) ∙ ap some (omega arith))

-- strlen (), on fuel for every character and the null byte, returns the number of characters.
pub strlen_lem :
    (fuel s : ℕ) (m : Mem) (bs : List ℕ)
    → s ≢ 0
    → IsString m s bs
    → length bs < fuel
    → strlen fuel s m ≡ some (length bs)
unfolding strlen
strlen_lem fuel s m bs nonnull is enough =
    let here : (s == null) ≡ false = ground arith in
    rw (here, strlen_loop-eq fuel is enough) (ap some (omega arith))

-- The order of strings: that of the first bytes in which they differ; a prefix comes first.
abbrev pub compare_strings : List ℕ → List ℕ → ℤ
compare_strings [] [] = pos 0
compare_strings [] (c ∷ cs) = negsuc 0
compare_strings (b ∷ bs) [] = pos 1
compare_strings (b ∷ bs) (c ∷ cs) =
    let rest = compare_strings bs cs in
    if ltb b c then negsuc 0 else if ltb c b then pos 1 else rest

strcmp_loop-eq :
    (fuel : ℕ) {m : Mem} {s t : ℕ} {bs cs : List ℕ}
    → IsString m s bs
    → IsString m t cs
    → length bs < fuel
    → (strcmp_loop fuel s t m >>= λ (a, b). some (sign_of (m a) (m b)))
      ≡ some (compare_strings bs cs)
unfolding strcmp_loop
strcmp_loop-eq zero is it enough = absurd (omega arith)
strcmp_loop-eq (suc fuel) (end z) (end z') enough = ground arith
strcmp_loop-eq (suc fuel) (end z) (char e nz it) enough = ground arith
strcmp_loop-eq (suc fuel) (char e nz is) (end z) enough = ground arith
strcmp_loop-eq (suc fuel) {m} {s} {t} (char {b} {bs} e nz is) (char {b = c} {bs = cs} e' nz' it)
      enough =
    ground (arith, strcmp_loop-eq fuel is it (omega arith))

-- strcmp () of two strings, on fuel for each character and the null byte: -1, 0 or 1 as the first is
-- before, the same as or behind the second, by their bytes.
pub strcmp_lem :
    (fuel s t : ℕ) (m : Mem) (bs cs : List ℕ)
    → s ≢ 0
    → t ≢ 0
    → IsString m s bs
    → IsString m t cs
    → length bs < fuel
    → strcmp fuel s t m ≡ some (compare_strings bs cs)
unfolding strcmp
strcmp_lem fuel s t m bs cs s_nonnull t_nonnull is it enough =
    let s_here : (s == null) ≡ false = ground arith in
    let t_here : (t == null) ≡ false = ground arith in
    rw (s_here, t_here) (strcmp_loop-eq fuel is it enough)

-- Where a byte stands first, from the place `s`; the null byte stands at the string's end.
abbrev pub find_char : (c s : ℕ) → List ℕ → ℕ
find_char c s [] = if c == 0 then s else null
find_char c s (b ∷ bs) = let rest = find_char c (s + 1) bs in if b == c then s else rest

strchr_loop-eq :
    (fuel : ℕ) {m : Mem} {s : ℕ} {bs : List ℕ} (c : ℕ)
    → IsString m s bs
    → length bs < fuel
    → strchr_loop fuel s c m ≡ some (find_char c s bs)
unfolding strchr_loop
strchr_loop-eq zero c is enough = absurd (omega arith)
strchr_loop-eq (suc fuel) c (end z) enough = ground arith
strchr_loop-eq (suc fuel) c (char e nz is) enough =
    ground (arith, strchr_loop-eq fuel c is (omega arith))

-- strchr () returns the place of the first character that is `c` modulo 2 ^ 8, the null byte
-- counted as one, and NULL where there is none.
pub strchr_lem :
    (fuel s c : ℕ) (m : Mem) (bs : List ℕ)
    → s ≢ 0
    → IsString m s bs
    → length bs < fuel
    → strchr fuel s c m ≡ some (find_char (c % 2 ^ 8) s bs)
unfolding strchr
strchr_lem fuel s c m bs nonnull is enough =
    let here : (s == null) ≡ false = ground arith in
    rw here (strchr_loop-eq fuel (c % 2 ^ 8) is enough)
