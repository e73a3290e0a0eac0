-- ===== src/LinkedList/Reverse.antt =====
-- lib/kernel/list.c: the loop of list_reverse ().
use juntos.Prelude.{
  ℕ, zero, suc, ◌<◌, ◌≤◌, ◌≡◌, ◌≢◌, refl, sym, ◌∙◌, List, ◌∷◌, ◌==◌, arith, not, subst, length,
  count, Returns, returns, Returns-then, Returns-else, assert-Returns, Returns-mono,
}
use mathlib.Core.List.{reverse, reverse-cons}
use juntos.LinkedList.Elem.{Mem, null}
use juntos.LinkedList.Ops.{swap_links, reverse_loop}
use juntos.LinkedList.Chain.{Chain, nil, cons, SameOutside, begin_of, begin-next, Chain-append}

-- The memory with the two fields of every element exchanged.
abbrev pub flip : Mem → Mem
flip m = record { prev = m.next; next = m.prev }

-- The fields of the elements `xs` are exchanged, and nothing else is changed.
pub record Exchanged (xs : List ℕ) (m n : Mem) : Type 0 where
  pub inside : (a : ℕ) → 0 < count a xs → (n.next a ≡ m.prev a) × (n.prev a ≡ m.next a)
  pub outside : SameOutside xs m n

Exchanged-cons :
    {m n : Mem} (y : ℕ) {ys : List ℕ}
    → count y ys ≡ 0
    → Exchanged ys (swap_links y m) n
    → Exchanged (y ∷ ys) m n
unfolding swap_links
Exchanged-cons y once x = record {
  inside = λ a h. ground (arith, x.inside a, x.outside a, x.outside y);
  outside = λ a h. ground (arith, x.outside a);
}

-- The loop at `ys`, which are still as they were in `old`.
pub reverse_loop-Returns :
    (fuel : ℕ) {old m : Mem} {q p : ℕ} {ys : List ℕ}
    → Chain old q p ys
    → ((a : ℕ) → count a (q ∷ ys) ≤ 1)
    → count null ys ≡ 0
    → ((a : ℕ) → 0 < count a ys → (m.next a ≡ old.next a) × (m.prev a ≡ old.prev a))
    → length ys < fuel
    → Returns (Exchanged ys m) (reverse_loop fuel (begin_of ys q) q m)
unfolding reverse_loop swap_links
reverse_loop-Returns zero c one nonnull same enough = absurd (omega arith)
reverse_loop-Returns (suc fuel) {q} (nil n v) one nonnull same enough =
    Returns-then {b = q == q} _ _ (ground arith)
      (returns (record { inside = λ a h. absurd (omega arith); outside = λ a h. (refl, refl) }))
reverse_loop-Returns (suc fuel) {old} {m} {q} (cons {x} {xs = ys} n v c) one nonnull same enough =
    let onward : (swap_links x m).prev x ≡ begin_of ys q = ground (arith, same x, begin-next c) in
    Returns-else {b = x == q} _ _ (ground (arith, one x)) (
      assert-Returns (not (x == null)) _ (ground arith) (
        rw onward (
          Returns-mono
            (reverse_loop-Returns fuel {m = swap_links x m} c (λ a. omega (arith, one a))
              (omega arith) (λ a h. ground (arith, one x, same a)) (omega arith))
            (λ m' e. Exchanged-cons x (ground (arith, one x)) e))))

-- A list read backwards.
pub flip-Chain :
    {m : Mem} {p q : ℕ} {xs : List ℕ} → Chain (flip m) p q xs → Chain m q p (reverse xs)
flip-Chain (nil n v) = nil v n
flip-Chain {m} {p} {q} (cons {x} {xs} n v c) =
    subst (Chain m q p) (sym (reverse-cons x xs)) (Chain-append (flip-Chain c) (nil v n))

-- The ends of a chain renamed.
pub ends-Chain :
    {m n : Mem} {q p : ℕ} (q' p' : ℕ) {x : ℕ} {xs : List ℕ}
    → Chain m q p (x ∷ xs)
    → ((a : ℕ) → count a (q ∷ p ∷ x ∷ xs) ≤ 1)
    → n.next p' ≡ x
    → n.prev q' ≡ m.prev q
    → ((a : ℕ) → 0 < count a (x ∷ xs) → m.next a ≢ q → n.next a ≡ m.next a)
    → ((a : ℕ) → 0 < count a (x ∷ xs) → m.next a ≡ q → n.next a ≡ q')
    → ((a : ℕ) → 0 < count a xs → n.prev a ≡ m.prev a)
    → n.prev x ≡ p'
    → Chain n q' p' (x ∷ xs)
ends-Chain q' p' (cons e b (nil e' b')) one first last onward end back start =
    cons first start (nil (end _ (ground arith) e') (last ∙ b'))
ends-Chain {m} {n} {q} q' p' {x} (cons e b (cons {x = y} e' b' c)) one first last onward end back
      start =
    let inner : m.next x ≢ q = λ h. ground (arith, one y, one q) in
    cons first start (
      ends-Chain q' x (cons e' b' c) (λ a. omega (arith, one a))
        (onward x (ground arith) inner ∙ e') last (λ a h. onward a (omega arith))
        (λ a h. end a (omega arith)) (λ a h. back a (omega arith)) (back y (ground arith) ∙ b'))
