-- ===== src/Strings/Tokens.antt =====
-- lib/string.c: strtok_r () on strings as sequences.
use juntos.Prelude.{
  ℕ, zero, suc, ◌+◌, ◌<◌, ◌≡◌, ◌≢◌, refl, ap, ◌∙◌, true, false, not, ◌==◌, if◌then◌else◌, arith,
  some, List, [], ◌∷◌, length, length-drop, drop, update, Bool-cases, ◌>>=◌, inl, inr, Returns,
  returns, bind-Returns, assert-Returns,
}
use juntos.Strings.Block.{Mem, null}
use juntos.Strings.Str.{strchr}
use juntos.Strings.Token.{skip_delimiters, skip_token, strtok_r}
use juntos.Strings.Defs.{IsString, end, char}
use juntos.Strings.Length.{strchr_lem, find_char}
use juntos.Strings.Span.{has, span_length, AllBytes, byte, strchr-has}
use juntos.Strings.Cut.{
  is_nil, find_char-end, IsString-drop, AllBytes-drop, span_length_le, Cut, Cut-at,
}

module _ (k set : ℕ) (m : Mem) (ds : List ℕ) (nonnull : set ≢ 0) (is : IsString m set ds)
    (enough_set : length ds < k) where
  at_end : (p : ℕ) × (strchr k set 0 m ≡ some p) × ((p == null) ≡ false)
  at_end = (
    find_char 0 set ds,
    strchr_lem k set 0 m ds nonnull is enough_set,
    find_char-end set ds nonnull,
  )

  skip_delimiters-eq :
      (fuel s : ℕ) (bs : List ℕ)
      → IsString m s bs
      → AllBytes bs
      → length bs < fuel
      → skip_delimiters fuel k s set m
        ≡ some
            (is_nil (drop (span_length (λ b. has b ds) bs) bs), s + span_length (λ b. has b ds) bs)
  unfolding skip_delimiters
  skip_delimiters-eq zero s bs is_s bytes enough = absurd (omega arith)
  skip_delimiters-eq (suc fuel) s [] (end z) bytes enough =
      let (p, found, tested) = at_end in
      rw (z, found, tested) (ap (λ a. some (true, a)) (omega arith))
  skip_delimiters-eq (suc fuel) s (b ∷ bs) (char e nz is_s) (byte small bytes) enough =
      let (p, found, tested) = strchr-has k set b m ds nonnull is enough_set nz small in
      let more : (b == 0) ≡ false = ground arith in
      rw (e, found, tested)
        (elim (Bool-cases (has b ds)) [
          | inl goes_on ↦
              let n = span_length (λ b. has b ds) bs in
              let shift : s + 1 + n ≡ s + suc n = omega arith in
              rw (goes_on, more)
                (skip_delimiters-eq fuel (s + 1) bs is_s bytes (omega arith)
                  ∙ ap (λ a. some (is_nil (drop n bs), a)) shift)
          | inr stops ↦ rw stops (ap (λ a. some (false, a)) (omega arith))
        ])

  skip_token-eq :
      (fuel s : ℕ) (bs : List ℕ)
      → IsString m s bs
      → AllBytes bs
      → length bs < fuel
      → skip_token fuel k s set m ≡ some (s + span_length (λ b. not (has b ds)) bs)
  unfolding skip_token
  skip_token-eq zero s bs is_s bytes enough = absurd (omega arith)
  skip_token-eq (suc fuel) s [] (end z) bytes enough =
      let (p, found, tested) = at_end in rw (z, found, tested) (ap some (omega arith))
  skip_token-eq (suc fuel) s (b ∷ bs) (char e nz is_s) (byte small bytes) enough =
      let (p, found, tested) = strchr-has k set b m ds nonnull is enough_set nz small in
      rw (e, found, tested)
        (elim (Bool-cases (has b ds)) [
          | inl stops ↦ rw stops (ap some (omega arith))
          | inr goes_on ↦
              rw goes_on
                (skip_token-eq fuel (s + 1) bs is_s bytes (omega arith) ∙ ap some (omega arith))
        ])

  -- What one call leaves, if the string from the first character that is no delimiter is `cs`.
  abbrev pub TokenOf : (t : ℕ) (cs : List ℕ) → ℕ × ℕ × Mem → Type 0
  TokenOf t [] (token, save, n) = (token ≡ null) × (save ≡ t) × (n ≡ m)
  TokenOf t (c ∷ cs) r = Cut m t (span_length (λ b. not (has b ds)) (c ∷ cs)) (c ∷ cs) r

  token_part :
      (fuel t : ℕ) (cs : List ℕ)
      → IsString m t cs
      → AllBytes cs
      → length cs < fuel
      → Returns (TokenOf t cs) (
          if is_nil cs
          then some (null, t, m)
          else (skip_token fuel k t set m >>= λ stop.
              some (if not (m stop == 0) then (t, stop + 1, update m stop 0) else (t, stop, m))))
  token_part fuel t [] is_t bytes enough = returns (refl, refl, refl)
  token_part fuel t (c ∷ cs) is_t bytes enough =
      let len = span_length (λ b. not (has b ds)) (c ∷ cs) in
      bind-Returns _ (t + len) (skip_token-eq fuel t (c ∷ cs) is_t bytes enough)
        (returns (Cut-at len is_t (span_length_le (λ b. not (has b ds)) (c ∷ cs))))

  -- strtok_r () at a string of bytes, given as `s` or, where that is NULL, as what was saved, on fuel
  -- for each character and the null byte: past the delimiters at its front, the token is the
  -- characters up to the next delimiter, ended by a null byte, and the string behind that delimiter
  -- is saved; no other byte is changed. Where only delimiters are left it is NULL, and the end is
  -- saved.
  pub strtok_r_lem :
      (fuel s save start : ℕ) (bs : List ℕ)
      → (if s == null then save else s) ≡ start
      → start ≢ 0
      → IsString m start bs
      → AllBytes bs
      → length bs < fuel
      → Returns
          (TokenOf
            (start + span_length (λ b. has b ds) bs)
            (drop (span_length (λ b. has b ds) bs) bs))
          (strtok_r fuel k s set save m)
  unfolding strtok_r
  strtok_r_lem fuel s save start bs from start_nonnull is_s bytes enough =
      let n = span_length (λ b. has b ds) bs in
      let left = IsString-drop n is_s (span_length_le (λ b. has b ds) bs) in
      assert-Returns (not (set == null)) _ (ground arith) (
        rw from (
          assert-Returns (not (start == null)) _ (ground arith) (
            bind-Returns _ (is_nil (drop n bs), start + n)
              (skip_delimiters-eq fuel start bs is_s bytes enough)
              (token_part fuel (start + n) (drop n bs) left (AllBytes-drop n bytes)
                (omega (arith, length-drop n bs))))))
