-- ===== src/Stdlib/Sift.antt =====
-- lib/stdlib.c: heapify () makes a heap of an array with one element too high.
use juntos.Prelude.{
  ℕ, zero, suc, ◌+◌, ◌*◌, ◌/◌, ◌^◌, ◌≤◌, ◌<◌, ◌≡◌, ◌≢◌, sym, ap, ◌∙◌, inl, inr, ◌==◌, arith,
  Bool-cases, Returns, returns, Returns-then, Returns-else, Returns-mono, subst,
}
use juntos.Prelude.Int.{ℤ}
use juntos.Stdlib.Defs.{do_swap, largest, heapify}
use juntos.Stdlib.Heap.{
  Le, IsCompare, Permuted, Permuted-refl, Permuted-trans, swap-Permuted, IsLargest,
  largest-IsLargest,
}

module _ (compare : ℕ → ℕ → ℤ) where
  -- No element of the tree from `lo` on is larger than its parent.
  abbrev pub IsHeap : (lo cnt : ℕ) → (ℕ → ℕ) → Type 0
  IsHeap lo cnt a = (c : ℕ) → 2 * lo ≤ c → c ≤ cnt → Le compare (a c) (a (c / 2))

  -- Only the children of `i` may be larger than it.
  pub record Sifting (lo i cnt : ℕ) (a : ℕ → ℕ) : Type 0 where
    pub edges : (c : ℕ) → 2 * lo ≤ c → c ≤ cnt → c / 2 ≢ i → Le compare (a c) (a (c / 2))
    pub bridged : 2 * lo ≤ i → (c : ℕ) → c ≤ cnt → c / 2 ≡ i → Le compare (a c) (a (i / 2))

  Le-at : (x y x' y' : ℕ) → x' ≡ x → y' ≡ y → Le compare x y → Le compare x' y'
  Le-at x y x' y' e f h = rw (e, f) h

module _ (compare : ℕ → ℕ → ℤ) (order : IsCompare compare) (lo i m cnt : ℕ) (a : ℕ → ℕ)
    (low : 0 < lo) (from : lo ≤ i) (child : m / 2 ≡ i) (inside : m ≤ cnt)
    (big : IsLargest compare order i cnt a m) (s : Sifting compare lo i cnt a) where
  at_i : do_swap i m a i ≡ a m
  unfolding do_swap
  at_i = ground (arith, low)

  at_m : do_swap i m a m ≡ a i
  unfolding do_swap
  at_m = ground arith

  at_other : (c : ℕ) → c ≢ i → c ≢ m → do_swap i m a c ≡ a c
  unfolding do_swap
  at_other c ni nm = ground arith

  swapped-edges :
      (c : ℕ)
      → 2 * lo ≤ c
      → c ≤ cnt
      → c / 2 ≢ m
      → Le compare (do_swap i m a c) (do_swap i m a (c / 2))
  swapped-edges c l u ne = elim (Bool-cases (c / 2 == i)) [
    | inl p ↦
        let parent : c / 2 ≡ i = ground arith in
        let top : do_swap i m a (c / 2) ≡ a m = ap (do_swap i m a) parent ∙ at_i in
        elim (Bool-cases (c == m)) [
          | inl e ↦
              let same : c ≡ m = ground arith in
              Le-at compare (a i) (a m) _ _ (ap (do_swap i m a) same ∙ at_m) top big.self
          | inr e ↦
              Le-at compare (a c) (a m) _ _
                (at_other c (omega (arith, low, from, parent)) (λ q. ground (arith, q, e))) top
                (big.children c parent u)
        ]
    | inr p ↦ elim (Bool-cases (c == i)) [
      | inl e ↦
          let same : c ≡ i = ground arith in
          let up : do_swap i m a (c / 2) ≡ a (i / 2) =
            at_other (c / 2) (λ q. ground (arith, q, p)) ne ∙ ap (λ k. a (k / 2)) same in
          Le-at compare (a m) (a (i / 2)) _ _ (ap (do_swap i m a) same ∙ at_i) up
            (s.bridged (omega arith) m inside child)
      | inr e ↦
          Le-at compare (a c) (a (c / 2)) _ _
            (at_other c (λ q. ground (arith, q, e)) (λ q. ground (arith, q, p, child)))
            (at_other (c / 2) (λ q. ground (arith, q, p)) ne)
            (s.edges c l u (λ q. ground (arith, q, p)))
    ]
  ]

  swapped-bridged :
      (c : ℕ) → c ≤ cnt → c / 2 ≡ m → Le compare (do_swap i m a c) (do_swap i m a (m / 2))
  swapped-bridged c u e =
      let top : do_swap i m a (m / 2) ≡ a m = ap (do_swap i m a) child ∙ at_i in
      let edge =
        s.edges c (omega (arith, e, child, from)) u (λ q. omega (arith, q, e, child, low, from)) in
      Le-at compare (a c) (a m) _ _
        (at_other c (λ q. omega (arith, q, e, child, low, from))
          (λ q. omega (arith, q, e, child, low, from)))
        top (subst (λ k. Le compare (a c) (a k)) e edge)

  swap-Sifting : Sifting compare lo m cnt (do_swap i m a)
  swap-Sifting = record { edges = swapped-edges; bridged = λ h c u e. swapped-bridged c u e }

-- A heap of the same elements.
pub record Sifted (compare : ℕ → ℕ → ℤ) (lo cnt : ℕ) (a a' : ℕ → ℕ) : Type 0 where
  pub heap : IsHeap compare lo cnt a'
  pub elems : Permuted cnt a a'

module _ (compare : ℕ → ℕ → ℤ) (order : IsCompare compare) (lo cnt : ℕ) (low : 0 < lo)
    (small : cnt < 2 ^ 63) where
  done-IsHeap :
      (i : ℕ) (a : ℕ → ℕ)
      → IsLargest compare order i cnt a i
      → Sifting compare lo i cnt a
      → IsHeap compare lo cnt a
  done-IsHeap i a big s c l u = elim (Bool-cases (c / 2 == i)) [
    | inl p ↦
        let parent : c / 2 ≡ i = ground arith in
        subst (λ k. Le compare (a c) (a k)) (sym parent) (big.children c parent u)
    | inr p ↦ s.edges c l u (λ q. ground (arith, q, p))
  ]

  pub heapify-Returns :
      (rounds i : ℕ) (a : ℕ → ℕ)
      → lo ≤ i
      → i ≤ cnt
      → cnt < i + rounds
      → Sifting compare lo i cnt a
      → Returns (Sifted compare lo cnt a) (heapify rounds compare i cnt a)
  unfolding heapify
  heapify-Returns zero i a from h enough s = absurd (omega arith)
  heapify-Returns (suc rounds) i a from h enough s =
      let m = largest compare i cnt a in
      let big = largest-IsLargest compare order i cnt a h small in
      elim (Bool-cases (m == i)) [
        | inl e ↦
            let same : m ≡ i = ground arith in
            Returns-then _ _ e (
              returns (record {
                heap = done-IsHeap i a (subst (IsLargest compare order i cnt a) same big) s;
                elems = Permuted-refl cnt a;
              }))
        | inr e ↦ Returns-else _ _ e (elim big.place [
          | inl same ↦ absurd (ground (arith, same, e))
          | inr (child, inside) ↦
              Returns-mono
                (heapify-Returns rounds m (do_swap i m a) (omega (arith, child, low)) inside
                  (omega (arith, child, low))
                  (swap-Sifting compare order lo i m cnt a low from child inside big s))
                λ a' r. record {
                  heap = r.heap;
                  elems =
                      Permuted-trans cnt a (do_swap i m a) a'
                        (swap-Permuted cnt i m a (omega (arith, low)) h (omega (arith, child, low))
                          inside (λ q. omega (arith, q, child, low)))
                        r.elems;
                }
        ])
      ]
