-- ===== src/Strings/Tests.antt =====
-- A memory with two strings, ab at 100 and b at 200, and the theorems at it.
use juntos.Prelude.{◌≡◌, inr, refl, [], ◌∷◌, ◌==◌, if◌then◌else◌, arith, some, Returns}
use juntos.Prelude.Int.{negsuc}
use juntos.Strings.Block.{Mem, memset, memchr, memmove, memcmp}
use juntos.Strings.Str.{strcspn, strspn, strpbrk, strcmp, strchr, strlcpy, strlcat, strstr}
use juntos.Strings.Defs.{IsString, end, char, Copied}
use juntos.Strings.Move.{memmove_lem}
use juntos.Strings.Length.{strcmp_lem, strchr_lem}
use juntos.Strings.Search.{BlockOrder, memcmp_lem, FirstOf, strstr_lem}
use juntos.Strings.Token.{strtok_r}
use juntos.Strings.Span.{AllBytes, none_left, byte, strspn_lem, strcspn_lem, strpbrk_lem}
use juntos.Strings.Cut.{Cut}
use juntos.Strings.Tokens.{strtok_r_lem}
use juntos.Strings.Fill.{Filled, FirstByte, memset_lem, memchr_lem}
use juntos.Strings.Copy.{UnchangedOutside, strlcpy_lem, strlcat_lem}

abbrev words : Mem
words a = if a == 100 then 97 else if a == 101 then 98 else if a == 200 then 98 else 0

ab : IsString words 100 (97 ∷ 98 ∷ [])
ab = char refl (λ e. omega arith) (char refl (λ e. omega arith) (end refl))

b : IsString words 200 (98 ∷ [])
b = char refl (λ e. omega arith) (end refl)

-- The blocks overlap.
memmove_example : Returns (λ (p, n). (p ≡ 102) × Copied 100 101 2 words n) (memmove 100 101 2 words)
memmove_example = memmove_lem 100 101 2 words refl refl

memcmp_example : Returns (BlockOrder words 100 200 2) (memcmp 100 200 2 words)
memcmp_example = memcmp_lem 100 200 2 words refl refl

strcmp_example : strcmp 3 100 200 words ≡ some (negsuc 0)
strcmp_example =
    strcmp_lem 3 100 200 words (97 ∷ 98 ∷ []) (98 ∷ []) (λ e. omega arith) (λ e. omega arith) ab b
      (omega arith)

strchr_example : strchr 3 100 98 words ≡ some 101
strchr_example = strchr_lem 3 100 98 words (97 ∷ 98 ∷ []) (λ e. omega arith) ab (omega arith)

strstr_example : Returns (FirstOf words 100 200 1 0 2) (strstr 3 100 200 words)
strstr_example =
    strstr_lem 3 100 200 words (97 ∷ 98 ∷ []) (98 ∷ []) (λ e. omega arith) (λ e. omega arith) ab b
      (omega arith) (omega arith)

-- Room for one character.
strlcpy_example :
    Returns
      (λ (len, n). (len ≡ 2) × IsString n 300 (97 ∷ []) × UnchangedOutside 300 2 words n)
      (strlcpy 3 300 100 2 words)
strlcpy_example =
    strlcpy_lem 3 300 100 2 words (97 ∷ 98 ∷ []) (λ e. omega arith) (λ e. omega arith) ab
      (omega arith) (omega arith) (inr (omega arith))

strlcat_example :
    Returns
      (λ (len, n). (len ≡ 3) × IsString n 200 (98 ∷ 97 ∷ []) × UnchangedOutside 201 2 words n)
      (strlcat 3 200 100 3 words)
strlcat_example =
    strlcat_lem 3 200 100 3 words (98 ∷ []) (97 ∷ 98 ∷ []) (λ e. omega arith) (λ e. omega arith) b
      ab (omega arith) (omega arith) (omega arith) (inr (omega arith))

ab-AllBytes : AllBytes (97 ∷ 98 ∷ [])
ab-AllBytes = byte (omega arith) (byte (omega arith) none_left)

strcspn_example : strcspn 3 2 100 200 words ≡ some 1
strcspn_example =
    strcspn_lem 2 200 words (98 ∷ []) (λ e. omega arith) b (omega arith) 3 100 (97 ∷ 98 ∷ []) ab
      ab-AllBytes (omega arith)

strspn_example : strspn 3 2 100 200 words ≡ some 0
strspn_example =
    strspn_lem 2 200 words (98 ∷ []) (λ e. omega arith) b (omega arith) 3 100 (97 ∷ 98 ∷ []) ab
      ab-AllBytes (omega arith)

strpbrk_example : strpbrk 3 2 100 200 words ≡ some 101
strpbrk_example =
    strpbrk_lem 2 200 words (98 ∷ []) (λ e. omega arith) b (omega arith) 3 100 (97 ∷ 98 ∷ []) ab
      ab-AllBytes (omega arith)

-- The token is a, which the b ends.
strtok_r_example : Returns (Cut words 100 1 (97 ∷ 98 ∷ [])) (strtok_r 3 2 100 200 0 words)
strtok_r_example =
    strtok_r_lem 2 200 words (98 ∷ []) (λ e. omega arith) b (omega arith) 3 100 0 100 (97 ∷ 98 ∷ [])
      refl (λ e. omega arith) ab ab-AllBytes (omega arith)

memset_example : Returns (λ (p, n). (p ≡ 100) × Filled 100 1 2 words n) (memset 100 257 2 words)
memset_example = memset_lem 100 257 2 words refl

memchr_example : Returns (FirstByte words 100 98 3) (memchr 100 98 3 words)
memchr_example = memchr_lem 100 98 3 words refl
