-- ===== src/Strings/Span.antt =====
-- lib/string.c: strspn (), strcspn () and strpbrk (), and the sets of characters.
use juntos.Prelude.{
  ℕ, zero, suc, ◌+◌, ◌<◌, ◌%◌, ◌^◌, ◌≡◌, ◌≢◌, refl, ap, ◌∙◌, false, not, ◌==◌, ◌||◌, if◌then◌else◌,
  arith, some, List, [], ◌∷◌, length, Bool, Bool-cases, inl, inr, subst,
}
use juntos.Strings.Block.{Mem, null}
use juntos.Strings.Str.{strchr, strspn_loop, strspn, strcspn_loop, strcspn, strpbrk}
use juntos.Strings.Defs.{IsString, end, char}
use juntos.Strings.Length.{strchr_lem, find_char}

abbrev pub has : ℕ → List ℕ → Bool
has c [] = false
has c (b ∷ bs) = (b == c) || has c bs

-- How many characters at the front satisfy `p`.
abbrev pub span_length : (ℕ → Bool) → List ℕ → ℕ
span_length p [] = 0
span_length p (b ∷ bs) = let rest = span_length p bs in if p b then suc rest else 0

-- Every character is a byte.
pub data AllBytes : List ℕ → Type 0 where
  none_left : AllBytes []
  byte : {b : ℕ} {bs : List ℕ} → b < 256 → AllBytes bs → AllBytes (b ∷ bs)

find_char-has :
    (c s : ℕ) (bs : List ℕ) → c ≢ 0 → s ≢ 0 → (find_char c s bs == null) ≡ not (has c bs)
find_char-has c s [] nz s_nz = ground arith
find_char-has c s (b ∷ bs) nz s_nz = ground (arith, find_char-has c (s + 1) bs nz)

-- The test that the loops make of a byte that is not the null byte.
pub strchr-has :
    (fuel set c : ℕ) (m : Mem) (cs : List ℕ)
    → set ≢ 0
    → IsString m set cs
    → length cs < fuel
    → c ≢ 0
    → c < 256
    → (p : ℕ) × (strchr fuel set c m ≡ some p) × ((p == null) ≡ not (has c cs))
strchr-has fuel set c m cs nonnull is enough nz small =
    let same : c % 2 ^ 8 ≡ c = omega arith in
    (
      find_char c set cs,
      strchr_lem fuel set c m cs nonnull is enough ∙ ap (λ b. some (find_char b set cs)) same,
      find_char-has c set cs nz nonnull,
    )

next_place : (s done : ℕ) → s + done + 1 ≡ s + (done + 1)
next_place s done = omega arith

from_zero : (s : ℕ) → s ≡ s + 0
from_zero s = omega arith

module _ (k set : ℕ) (m : Mem) (cs : List ℕ) (nonnull : set ≢ 0) (is : IsString m set cs)
    (enough_set : length cs < k) where
  strcspn_loop-eq :
      (fuel s done : ℕ) (bs : List ℕ)
      → IsString m (s + done) bs
      → AllBytes bs
      → length bs < fuel
      → strcspn_loop fuel k s set done m ≡ some (done + span_length (λ b. not (has b cs)) bs)
  unfolding strcspn_loop
  strcspn_loop-eq zero s done bs is_s bytes enough = absurd (omega arith)
  strcspn_loop-eq (suc fuel) s done [] (end z) bytes enough = rw z (ap some (omega arith))
  strcspn_loop-eq (suc fuel) s done (b ∷ bs) (char e nz is_s) (byte small bytes) enough =
      let (p, found, tested) = strchr-has k set b m cs nonnull is enough_set nz small in
      let more : (b == 0) ≡ false = ground arith in
      rw (e, more, found, tested)
        (elim (Bool-cases (has b cs)) [
          | inl stops ↦ rw stops (ap some (omega arith))
          | inr goes_on ↦
              let on = subst (λ a. IsString m a bs) (next_place s done) is_s in
              rw goes_on (
                strcspn_loop-eq fuel s (done + 1) bs on bytes (omega arith) ∙ ap some (omega arith))
        ])

  strspn_loop-eq :
      (fuel s done : ℕ) (bs : List ℕ)
      → IsString m (s + done) bs
      → AllBytes bs
      → length bs < fuel
      → strspn_loop fuel k s set done m ≡ some (done + span_length (λ b. has b cs) bs)
  unfolding strspn_loop
  strspn_loop-eq zero s done bs is_s bytes enough = absurd (omega arith)
  strspn_loop-eq (suc fuel) s done [] (end z) bytes enough = rw z (ap some (omega arith))
  strspn_loop-eq (suc fuel) s done (b ∷ bs) (char e nz is_s) (byte small bytes) enough =
      let (p, found, tested) = strchr-has k set b m cs nonnull is enough_set nz small in
      let more : (b == 0) ≡ false = ground arith in
      rw (e, more, found, tested)
        (elim (Bool-cases (has b cs)) [
          | inl goes_on ↦
              let on = subst (λ a. IsString m a bs) (next_place s done) is_s in
              rw goes_on
                (strspn_loop-eq fuel s (done + 1) bs on bytes (omega arith) ∙ ap some (omega arith))
          | inr stops ↦ rw stops (ap some (omega arith))
        ])

  -- strcspn () of a string of bytes and a set, on fuel for each character and the null byte, is the
  -- number of characters in front of the first that stands in the set.
  pub strcspn_lem :
      (fuel s : ℕ) (bs : List ℕ)
      → IsString m s bs
      → AllBytes bs
      → length bs < fuel
      → strcspn fuel k s set m ≡ some (span_length (λ b. not (has b cs)) bs)
  unfolding strcspn
  strcspn_lem fuel s bs is_s bytes enough =
      strcspn_loop-eq fuel s 0 bs (subst (λ a. IsString m a bs) (from_zero s) is_s) bytes enough
      ∙ ap some (omega arith)

  -- strspn () likewise is the number of characters in front of the first that does not stand in it.
  pub strspn_lem :
      (fuel s : ℕ) (bs : List ℕ)
      → IsString m s bs
      → AllBytes bs
      → length bs < fuel
      → strspn fuel k s set m ≡ some (span_length (λ b. has b cs) bs)
  unfolding strspn
  strspn_lem fuel s bs is_s bytes enough =
      strspn_loop-eq fuel s 0 bs (subst (λ a. IsString m a bs) (from_zero s) is_s) bytes enough
      ∙ ap some (omega arith)

  -- strpbrk () likewise finds the first character that stands in the set, and NULL where none does.
  pub strpbrk_lem :
      (fuel s : ℕ) (bs : List ℕ)
      → IsString m s bs
      → AllBytes bs
      → length bs < fuel
      → strpbrk fuel k s set m
        ≡ some (
            if span_length (λ b. not (has b cs)) bs == length bs
            then null
            else s + span_length (λ b. not (has b cs)) bs)
  unfolding strpbrk
  strpbrk_lem zero s bs is_s bytes enough = absurd (omega arith)
  strpbrk_lem (suc fuel) s [] (end z) bytes enough = rw z refl
  strpbrk_lem (suc fuel) s (b ∷ bs) (char e nz is_s) (byte small bytes) enough =
      let (p, found, tested) = strchr-has k set b m cs nonnull is enough_set nz small in
      let more : (b == 0) ≡ false = ground arith in
      let rest = strpbrk_lem fuel (s + 1) bs is_s bytes (omega arith) in
      rw (e, more, found, tested)
        (elim (Bool-cases (has b cs)) [
          | inl stops ↦ rw stops (ap some (ground arith))
          | inr goes_on ↦ rw goes_on (rest ∙ ap some (ground arith))
        ])
