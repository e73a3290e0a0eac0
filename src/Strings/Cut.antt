-- ===== src/Strings/Cut.antt =====
-- lib/string.c: parts of strings, for strtok_r ().
use juntos.Prelude.{
  ℕ, zero, suc, ◌+◌, ◌<◌, ◌≤◌, ◌≡◌, ◌≢◌, refl, ap, sym, ◌∙◌, true, false, not, ◌==◌, if◌then◌else◌,
  arith, List, [], ◌∷◌, length, take, drop, Bool, update, Bool-cases, inl, inr, subst,
}
use juntos.Strings.Block.{Mem, null}
use juntos.Strings.Defs.{IsString, end, char}
use juntos.Strings.Length.{find_char}
use juntos.Strings.Copy.{IsString-copy}
use juntos.Strings.Span.{span_length, AllBytes, none_left, byte}

abbrev pub is_nil : List ℕ → Bool
is_nil [] = true
is_nil (b ∷ bs) = false

pub find_char-end : (s : ℕ) (bs : List ℕ) → s ≢ 0 → (find_char 0 s bs == null) ≡ false
find_char-end s [] nz = ground arith
find_char-end s (b ∷ bs) nz = ground (arith, find_char-end (s + 1) bs)

pub IsString-drop :
    (k : ℕ) {m : Mem} {s : ℕ} {bs : List ℕ}
    → IsString m s bs
    → k ≤ length bs
    → IsString m (s + k) (drop k bs)
IsString-drop zero {m} {s} {bs} is h = subst (λ a. IsString m a bs) (omega arith) is
IsString-drop (suc k) (end z) h = absurd (omega arith)
IsString-drop (suc k) {m} {s} (char {bs} e nz is) h =
    subst (λ a. IsString m a (drop k bs)) (omega arith) (IsString-drop k is (omega arith))

pub IsString-above :
    {m n : Mem} {s : ℕ} {bs : List ℕ}
    → IsString m s bs
    → ((a : ℕ) → s ≤ a → n a ≡ m a)
    → IsString n s bs
IsString-above (end {s} z) same = end (same s (omega arith) ∙ z)
IsString-above (char {s} e nz is) same =
    char (same s (omega arith) ∙ e) nz (IsString-above is λ a h. same a (omega arith))

pub AllBytes-drop : (k : ℕ) {bs : List ℕ} → AllBytes bs → AllBytes (drop k bs)
AllBytes-drop zero bytes = bytes
AllBytes-drop (suc k) none_left = none_left
AllBytes-drop (suc k) (byte h bytes) = AllBytes-drop k bytes

pub char_nonzero :
    {m : Mem} (i : ℕ) {s : ℕ} {bs : List ℕ} → IsString m s bs → i < length bs → m (s + i) ≢ 0
char_nonzero i (end z) h = absurd (omega arith)
char_nonzero {m} zero {s} (char e nz is) h = λ z. nz (sym e ∙ ap m (omega arith) ∙ z)
char_nonzero {m} (suc i) {s} (char e nz is) h =
    λ z. char_nonzero i is (omega arith) (ap m (omega arith) ∙ z)

pub end_zero : {m : Mem} {s : ℕ} {bs : List ℕ} → IsString m s bs → m (s + length bs) ≡ 0
end_zero {m} (end z) = ap m (omega arith) ∙ z
end_zero {m} (char e nz is) = ap m (omega arith) ∙ end_zero is

pub not_last :
    {m : Mem} (len : ℕ) {s : ℕ} {bs : List ℕ}
    → IsString m s bs
    → len ≤ length bs
    → m (s + len) ≢ 0
    → suc len ≤ length bs
not_last {m} len {s} {bs} is short ne = elim (Bool-cases (len == length bs)) [
  | inl same ↦
      let e : len ≡ length bs = ground arith in absurd (ne (ap (λ i. m (s + i)) e ∙ end_zero is))
  | inr less ↦ ground arith
]

pub drop-length_le : (k : ℕ) (bs : List ℕ) → length bs ≤ k → drop k bs ≡ []
drop-length_le zero [] h = refl
drop-length_le zero (b ∷ bs) h = absurd (omega arith)
drop-length_le (suc k) [] h = refl
drop-length_le (suc k) (b ∷ bs) h = drop-length_le k bs (omega arith)

pub span_length_le : (p : ℕ → Bool) (bs : List ℕ) → span_length p bs ≤ length bs
span_length_le p [] = omega arith
span_length_le p (b ∷ bs) = ground (arith, span_length_le p bs)

-- The end of strtok_r (), at the end of a token of `len` characters.
abbrev pub Cut : Mem → (t len : ℕ) (cs : List ℕ) → ℕ × ℕ × Mem → Type 0
Cut m t len cs (token, save, n) =
    (token ≡ t)
    × IsString n token (take len cs)
    × IsString n save (drop (suc len) cs)
    × ((a : ℕ) → a ≢ t + len → n a ≡ m a)

pub Cut-at :
    {m : Mem} {t : ℕ} (len : ℕ) {cs : List ℕ}
    → IsString m t cs
    → len ≤ length cs
    → Cut m t len cs
        (if not (m (t + len) == 0) then (t, t + len + 1, update m (t + len) 0) else (t, t + len, m))
Cut-at {m} {t} len {cs} is short = elim (Bool-cases (m (t + len) == 0)) [
  | inl last ↦
      let z : m (t + len) ≡ 0 = ground arith in
      let all : length cs ≤ suc len = ground (arith, char_nonzero len is) in
      rw last (
        refl,
        IsString-copy len t is short (λ i h. refl) z,
        subst (λ bs. IsString m (t + len) bs) (sym (drop-length_le (suc len) cs all)) (end z),
        λ a h. refl,
      )
  | inr inner ↦
      let more : suc len ≤ length cs = not_last len is short (ground arith) in
      rw inner (
        refl,
        IsString-copy len t is short (λ i h. ground arith) (ground arith),
        IsString-above
            (subst (λ a. IsString m a (drop (suc len) cs)) (omega arith)
              (IsString-drop (suc len) is more))
            (λ a h. ground arith),
        λ a h. ground arith,
      )
]
