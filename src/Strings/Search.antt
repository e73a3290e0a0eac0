-- ===== src/Strings/Search.antt =====
-- lib/string.c: memcmp () and strstr ().
use juntos.Prelude.{
  ℕ, zero, suc, ◌+◌, ◌-◌, ◌<◌, ◌≤◌, ◌≡◌, ◌≢◌, inl, inr, ap, ◌∙◌, true, ◌==◌, ltb, leb,
  if◌then◌else◌, arith, some, List, length, Returns, returns, Returns-mono, bind-Returns,
  call-Returns, Option, assert-Returns, Bool-cases, subst,
}
use juntos.Prelude.Int.{ℤ, pos, negsuc}
use juntos.Strings.Block.{Mem, null, is_block, memcmp_loop, memcmp}
use juntos.Strings.Str.{is_zero, strstr_loop, strstr}
use juntos.Strings.Defs.{IsString}
use juntos.Strings.Length.{strlen_lem}

-- The blocks at `a` and `b` hold the same bytes.
abbrev pub SameBlock : Mem → (a b size : ℕ) → Type 0
SameBlock m a b size = (i : ℕ) → i < size → m (a + i) ≡ m (b + i)

-- The order of two blocks by the first bytes in which they differ.
pub data BlockOrder (m : Mem) (a b size : ℕ) : ℤ → Type 0 where
  same : SameBlock m a b size → BlockOrder m a b size (pos 0)
  above :
      (i : ℕ) → i < size → SameBlock m a b i → m (b + i) < m (a + i) → BlockOrder m a b size (pos 1)
  below :
      (i : ℕ)
      → i < size
      → SameBlock m a b i
      → m (a + i) < m (b + i)
      → BlockOrder m a b size (negsuc 0)

SameBlock-suc :
    (m : Mem) (a b size : ℕ)
    → m a ≡ m b
    → SameBlock m (a + 1) (b + 1) size
    → SameBlock m a b (suc size)
SameBlock-suc m a b size first rest zero h = ap m (omega arith) ∙ first ∙ ap m (omega arith)
SameBlock-suc m a b size first rest (suc i) h =
    ap m (omega arith) ∙ rest i (omega arith) ∙ ap m (omega arith)

BlockOrder-suc :
    {m : Mem} {a b size : ℕ} {r : ℤ}
    → m a ≡ m b
    → BlockOrder m (a + 1) (b + 1) size r
    → BlockOrder m a b (suc size) r
BlockOrder-suc {m} {a} {b} {size} first (same s) = same (SameBlock-suc m a b size first s)
BlockOrder-suc {m} {a} {b} first (above i h s o) =
    above (suc i) (omega arith) (SameBlock-suc m a b i first s) (
      subst (λ x. x < m (a + suc i)) (ap m (omega arith))
        (subst (λ x. m (b + 1 + i) < x) (ap m (omega arith)) o))
BlockOrder-suc {m} {a} {b} first (below i h s o) =
    below (suc i) (omega arith) (SameBlock-suc m a b i first s) (
      subst (λ x. x < m (b + suc i)) (ap m (omega arith))
        (subst (λ x. m (a + 1 + i) < x) (ap m (omega arith)) o))

here : (m : Mem) (a : ℕ) → m a ≡ m (a + 0)
here m a = ap m (omega arith)

memcmp_loop-BlockOrder : (size a b : ℕ) (m : Mem) → BlockOrder m a b size (memcmp_loop size a b m)
unfolding memcmp_loop
memcmp_loop-BlockOrder zero a b m = same λ i h. absurd (omega arith)
memcmp_loop-BlockOrder (suc size) a b m = elim (Bool-cases (m a == m b)) [
  | inl eq ↦ rw eq (BlockOrder-suc (ground arith) (memcmp_loop-BlockOrder size (a + 1) (b + 1) m))
  | inr ne ↦ rw ne (elim (Bool-cases (ltb (m b) (m a))) [
    | inl up ↦
        rw up
          (above 0 (omega arith) (λ i h. absurd (omega arith)) (ground (arith, here m a, here m b)))
    | inr down ↦
        rw down
          (below 0 (omega arith) (λ i h. absurd (omega arith)) (ground (arith, here m a, here m b)))
  ])
]

-- memcmp () of two blocks: 0 where they hold the same bytes, and else 1 or -1, as the first bytes that
-- differ are in order.
pub memcmp_lem :
    (a b size : ℕ) (m : Mem)
    → is_block a size ≡ true
    → is_block b size ≡ true
    → Returns (BlockOrder m a b size) (memcmp a b size m)
unfolding memcmp
memcmp_lem a b size m a_block b_block =
    assert-Returns (is_block a size) _ a_block
      (assert-Returns (is_block b size) _ b_block (returns (memcmp_loop-BlockOrder size a b m)))

-- The answer about the places `from` to `end`, the first at which the needle stands.
pub data FirstOf (m : Mem) (haystack needle len from end : ℕ) : ℕ → Type 0 where
  found :
      (j : ℕ)
      → from ≤ j
      → j < end
      → SameBlock m (haystack + j) needle len
      → ((k : ℕ) → from ≤ k → k < j → ¬ SameBlock m (haystack + k) needle len)
      → FirstOf m haystack needle len from end (haystack + j)
  missing :
      ((k : ℕ) → from ≤ k → k < end → ¬ SameBlock m (haystack + k) needle len)
      → FirstOf m haystack needle len from end null

later_place : (P : ℕ → Type 0) {from k : ℕ} → ¬ P from → (from + 1 ≤ k → ¬ P k) → from ≤ k → ¬ P k
later_place P {from} {k} not_here later h = elim (Bool-cases (from == k)) [
  | inl eq ↦ let at : from ≡ k = ground arith in subst (λ j. ¬ P j) at not_here
  | inr ne ↦ later (ground arith)
]

FirstOf-next :
    {m : Mem} {haystack needle len from end r : ℕ}
    → ¬ SameBlock m (haystack + from) needle len
    → FirstOf m haystack needle len (from + 1) end r
    → FirstOf m haystack needle len from end r
FirstOf-next {m} {haystack} {needle} {len} not_here (found j up to s none) =
    found j (omega arith) to s λ k h below.
      later_place (λ k. SameBlock m (haystack + k) needle len) not_here (λ past. none k past below)
        h
FirstOf-next {m} {haystack} {needle} {len} not_here (missing none) = missing λ k h below.
    later_place (λ k. SameBlock m (haystack + k) needle len) not_here (λ past. none k past below) h

differs : (m : Mem) (a b size i : ℕ) → i < size → m (a + i) ≢ m (b + i) → ¬ SameBlock m a b size
differs m a b size i h ne equal = ne (equal i h)

-- One round of the for.
strstr_round :
    {m : Mem} {haystack needle len from end : ℕ} {order : ℤ} {rest : Option ℕ}
    → from < end
    → BlockOrder m (haystack + from) needle len order
    → Returns (FirstOf m haystack needle len (from + 1) end) rest
    → Returns
        (FirstOf m haystack needle len from end)
        (if is_zero order then some (haystack + from) else rest)
strstr_round {m} {haystack} {needle} {len} {from} to (same s) rest =
    returns (found from (omega arith) to s λ k h below. absurd (omega arith))
strstr_round {m} {haystack} {needle} {len} {from} to (above i h s o) rest =
    Returns-mono rest
      λ r f. FirstOf-next (differs m (haystack + from) needle len i h (λ e. omega arith)) f
strstr_round {m} {haystack} {needle} {len} {from} to (below i h s o) rest =
    Returns-mono rest
      λ r f. FirstOf-next (differs m (haystack + from) needle len i h (λ e. omega arith)) f

FirstOf-end :
    {m : Mem} {haystack needle len from end end' r : ℕ}
    → end ≡ end'
    → FirstOf m haystack needle len from end r
    → FirstOf m haystack needle len from end' r
FirstOf-end {m} {haystack} {needle} {len} {from} {r} e f =
    subst (λ x. FirstOf m haystack needle len from x r) e f

strstr_loop-Returns :
    (count i haystack needle len : ℕ) (m : Mem)
    → haystack ≢ 0
    → needle ≢ 0
    → Returns
        (FirstOf m haystack needle len i (i + count))
        (strstr_loop count i haystack needle len m)
unfolding strstr_loop
strstr_loop-Returns zero i haystack needle len m h n =
    returns (missing λ k up to. absurd (omega arith))
strstr_loop-Returns (suc count) i haystack needle len m h n =
    call-Returns _ (memcmp_lem (haystack + i) needle len m (ground arith) (ground arith)) λ order o.
      strstr_round (omega arith) o (
        Returns-mono (strstr_loop-Returns count (i + 1) haystack needle len m h n)
          λ r f. FirstOf-end (omega arith) f)

-- strstr () of two strings, on fuel for each of their characters and the null byte, returns the first
-- place at which the needle's characters stand in the haystack, and NULL where they stand at none.
pub strstr_lem :
    (fuel haystack needle : ℕ) (m : Mem) (hs ns : List ℕ)
    → haystack ≢ 0
    → needle ≢ 0
    → IsString m haystack hs
    → IsString m needle ns
    → length hs < fuel
    → length ns < fuel
    → Returns
        (FirstOf m haystack needle (length ns) 0 (length hs + 1 - length ns))
        (strstr fuel haystack needle m)
unfolding strstr
strstr_lem fuel haystack needle m hs ns h n is_h is_n enough_h enough_n =
    bind-Returns _ (length hs) (strlen_lem fuel haystack m hs h is_h enough_h) (
      bind-Returns _ (length ns) (strlen_lem fuel needle m ns n is_n enough_n)
        (elim (Bool-cases (leb (length ns) (length hs))) [
          | inl fits ↦ rw fits (
              Returns-mono
                (strstr_loop-Returns (length hs - length ns + 1) 0 haystack needle (length ns) m h
                  n)
                λ r f. FirstOf-end (ground (arith, fits)) f)
          | inr long ↦ rw long (returns (missing λ k up to. absurd (ground arith)))
        ]))
