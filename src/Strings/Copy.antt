-- ===== src/Strings/Copy.antt =====
-- lib/string.c: strlcpy () and strlcat ().
use juntos.Prelude.{
  ℕ, zero, suc, ◌+◌, ◌-◌, ◌<◌, ◌≤◌, ◌≡◌, ◌≢◌, ◌⊎◌, inl, inr, refl, ap, sym, ◌∙◌, not, ◌==◌, ◌&&◌,
  ltb, if◌then◌else◌, arith, List, [], ◌∷◌, ◌++◌, length, take, update, Returns, returns,
  Returns-then, bind-Returns, call-Returns, assert-Returns, Bool-cases, subst,
}
use juntos.Strings.Block.{Mem, null}
use juntos.Strings.Str.{strlcpy, strlcat}
use juntos.Strings.Defs.{IsString, end, char, Copied}
use juntos.Strings.Move.{memcpy_lem}
use juntos.Strings.Length.{strlen_lem}

-- The first `k` characters of a string, copied and ended by a null byte.
pub IsString-copy :
    (k : ℕ) {m : Mem} {n : Mem} {src : ℕ} {bs : List ℕ} (dst : ℕ)
    → IsString m src bs
    → k ≤ length bs
    → ((i : ℕ) → i < k → n (dst + i) ≡ m (src + i))
    → n (dst + k) ≡ 0
    → IsString n dst (take k bs)
IsString-copy zero {m} {n} dst is short same last = end (ap n (omega arith) ∙ last)
IsString-copy (suc k) dst (end z) short same last = absurd (omega arith)
IsString-copy (suc k) {m} {n} {src} dst (char e nz is) short same last =
    char (ap n (omega arith) ∙ same 0 (omega arith) ∙ ap m (omega arith) ∙ e) nz (
      IsString-copy k (dst + 1) is (omega arith)
        (λ i h. ap n (omega arith) ∙ same (suc i) (omega arith) ∙ ap m (omega arith))
        (ap n (omega arith) ∙ last))

take-length_le : (k : ℕ) (bs : List ℕ) → length bs ≤ k → take k bs ≡ take (length bs) bs
take-length_le zero [] h = refl
take-length_le zero (b ∷ bs) h = absurd (omega arith)
take-length_le (suc k) [] h = refl
take-length_le (suc k) (b ∷ bs) h = ap (◌∷◌ b) (take-length_le k bs (omega arith))

-- The smaller of the room and the length, as the code finds it.
abbrev pub fitting : (len room : ℕ) → ℕ
fitting len room = if ltb len room then len else room

fitting_le : (len room : ℕ) → fitting len room ≤ len
fitting_le len room = ground arith

fitting_room : (len room : ℕ) → fitting len room ≤ room
fitting_room len room = ground arith

take-fitting : (room : ℕ) (bs : List ℕ) → take (fitting (length bs) room) bs ≡ take room bs
take-fitting room bs = elim (Bool-cases (ltb (length bs) room)) [
  | inl short ↦ rw short (sym (take-length_le room bs (ground arith)))
  | inr long ↦ rw long refl
]

-- The bytes below `dst` and those from `dst + size` on are as they were.
abbrev pub UnchangedOutside : (dst size : ℕ) → Mem → Mem → Type 0
UnchangedOutside dst size m n = (a : ℕ) → (a < dst) ⊎ (dst + size ≤ a) → n a ≡ m a

update_below : (n : Mem) (dst k i : ℕ) → i < k → update n (dst + k) 0 (dst + i) ≡ n (dst + i)
update_below n dst k i h = ground arith

-- memcpy () of the first `k` characters behind `dst`, and the null byte.
copied-IsString :
    {m n : Mem} {src : ℕ} {bs : List ℕ} (k dst : ℕ)
    → IsString m src bs
    → k ≤ length bs
    → Copied dst src k m n
    → IsString (update n (dst + k) 0) dst (take k bs)
copied-IsString {m} {n} {src} k dst is short c =
    IsString-copy k dst is short (λ i h. update_below n dst k i h ∙ c.inside i h) (ground arith)

-- strlcpy () of a string into room that is not empty, below the source or apart from it: `dst` then
-- holds the string's first size - 1 characters, nothing outside the room is changed, and the length
-- of the whole string is returned.
pub strlcpy_lem :
    (fuel dst src size : ℕ) (m : Mem) (bs : List ℕ)
    → dst ≢ 0
    → src ≢ 0
    → IsString m src bs
    → length bs < fuel
    → 0 < size
    → (dst ≤ src) ⊎ (src + length bs ≤ dst)
    → Returns
        (λ (len, n).
          (len ≡ length bs) × IsString n dst (take (size - 1) bs) × UnchangedOutside dst size m n)
        (strlcpy fuel dst src size m)
unfolding strlcpy
strlcpy_lem fuel dst src size m bs d s is enough room apart =
    let k = fitting (length bs) (size - 1) in
    assert-Returns (not (dst == null)) _ (ground arith) (
      assert-Returns (not (src == null)) _ (ground arith) (
        bind-Returns _ (length bs) (strlen_lem fuel src m bs s is enough) (
          Returns-then {b = ltb 0 size} _ _ (ground arith) (
            call-Returns _
              (memcpy_lem dst src k m (ground arith) (ground arith)
                (ground (arith, fitting_le (length bs) (size - 1))))
              λ (p, n) (_, c). returns (
                refl,
                subst (IsString _ dst) (take-fitting (size - 1) bs)
                    (copied-IsString k dst is (fitting_le _ _) c),
                λ a out. ground (arith, c.outside a, fitting_room (length bs) (size - 1)),
              )))))

IsString-append :
    {m : Mem} {s : ℕ} {ds : List ℕ} (cs : List ℕ) {n : Mem}
    → IsString m s ds
    → ((a : ℕ) → a < s + length ds → n a ≡ m a)
    → IsString n (s + length ds) cs
    → IsString n s (ds ++ cs)
IsString-append cs {n} (end {s} z) same is =
    let here : s + 0 ≡ s = omega arith in subst (λ a. IsString n a cs) here is
IsString-append cs {n} (char {s} {b} {bs} e nz before) same is =
    let there : s + length (b ∷ bs) ≡ s + 1 + length bs = omega arith in
    char (same s (omega arith) ∙ e) nz (
      IsString-append cs before (λ a h. same a (omega arith))
        (subst (λ a. IsString n a cs) there is))

-- strlcat () of a string behind another that leaves room below `size`, the source apart from the
-- room: `dst` then holds both, cut to size - 1 characters, nothing from the end of the first to the
-- end of the room apart is changed, and the length of the two together is returned.
pub strlcat_lem :
    (fuel dst src size : ℕ) (m : Mem) (ds bs : List ℕ)
    → dst ≢ 0
    → src ≢ 0
    → IsString m dst ds
    → IsString m src bs
    → length ds < fuel
    → length bs < fuel
    → length ds < size
    → (dst + length ds ≤ src) ⊎ (src + length bs ≤ dst + length ds)
    → Returns
        (λ (len, n).
          (len ≡ length bs + length ds)
          × IsString n dst (ds ++ take (size - length ds - 1) bs)
          × UnchangedOutside (dst + length ds) (size - length ds) m n)
        (strlcat fuel dst src size m)
unfolding strlcat
strlcat_lem fuel dst src size m ds bs d s is_dst is_src enough_dst enough room apart =
    let free = size - length ds - 1 in
    let k = fitting (length bs) free in
    let behind = dst + length ds in
    assert-Returns (not (dst == null)) _ (ground arith) (
      assert-Returns (not (src == null)) _ (ground arith) (
        bind-Returns _ (length bs) (strlen_lem fuel src m bs s is_src enough) (
          bind-Returns _ (length ds) (strlen_lem fuel dst m ds d is_dst enough_dst) (
            Returns-then {b = ltb 0 size && ltb (length ds) size} _ _ (ground arith) (
              call-Returns _
                (memcpy_lem behind src k m (ground arith) (ground arith)
                  (ground (arith, fitting_le (length bs) free)))
                λ (p, n) (_, c). returns (
                  refl,
                  IsString-append (take free bs) is_dst (λ a h. ground (arith, c.outside a))
                      (subst (IsString _ behind) (take-fitting free bs)
                        (copied-IsString k behind is_src (fitting_le _ _) c)),
                  λ a out. ground (arith, c.outside a, fitting_room (length bs) free),
                ))))))
