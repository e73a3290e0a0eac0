-- ===== src/Stdlib/Sorted.antt =====
-- lib/stdlib.c: sort () sorts.
use juntos.Prelude.{
  ℕ, zero, suc, ◌+◌, ◌-◌, ◌/◌, ◌^◌, ◌≤◌, ◌<◌, ◌≡◌, ◌≢◌, sym, ap, ◌∙◌, ◌⊎◌, inl, inr, not, ◌||◌,
  ◌==◌, ltb, arith, Bool-cases, Returns, returns, call-Returns, assert-Returns, Returns-mono, subst,
}
use juntos.Prelude.Int.{ℤ}
use juntos.Strings.Block.{null}
use juntos.Stdlib.Defs.{do_swap, drain_loop, sort}
use juntos.Stdlib.Heap.{Le, IsCompare, Permuted, Permuted-refl, Permuted-trans, swap-Permuted}
use juntos.Stdlib.Sift.{IsHeap, Sifting, Sifted, heapify-Returns}
use juntos.Stdlib.Build.{Permuted-place, Permuted-more, build_loop-Returns, root-largest}

module _ (compare : ℕ → ℕ → ℤ) (order : IsCompare compare) where
  -- The array of `n` when its first `suc above` elements are still a heap, and the others are sorted
  -- and not smaller than those.
  record Draining (n above : ℕ) (a : ℕ → ℕ) : Type 0 where
    heap : IsHeap compare 1 (suc above) a
    bound : (k j : ℕ) → 0 < k → k ≤ suc above → suc above < j → j ≤ n → Le compare (a k) (a j)
    sorted : (j : ℕ) → suc above < j → j < n → Le compare (a j) (a (suc j))

  -- The first `n` elements in order.
  pub record SortedTo (n : ℕ) (a a' : ℕ → ℕ) : Type 0 where
    pub ordered : (j : ℕ) → 0 < j → j < n → Le compare (a' j) (a' (suc j))
    pub elems : Permuted n a a'

  -- The root changed for the last element of the heap.
  module _ (n above : ℕ) (a : ℕ → ℕ) (inside : suc (suc above) ≤ n)
      (d : Draining n (suc above) a) where
    changed : ℕ → ℕ
    changed = do_swap 1 (suc (suc above)) a

    at_root : changed 1 ≡ a (suc (suc above))
    unfolding changed do_swap
    at_root = ground arith

    at_top : changed (suc (suc above)) ≡ a 1
    unfolding changed do_swap
    at_top = ground arith

    at_rest : (c : ℕ) → c ≢ 1 → c ≢ suc (suc above) → changed c ≡ a c
    unfolding changed do_swap
    at_rest c p q = ground arith

    changed-Sifting : Sifting compare 1 1 (suc above) changed
    changed-Sifting = record {
      edges = λ c l u ne.
          rw
            (
              at_rest c (λ q. omega (arith, q, l)) (λ q. omega (arith, q, u)),
              at_rest (c / 2) ne (λ q. omega (arith, q, u)),
            )
            (d.heap c l (omega arith));
      bridged = λ b. absurd (omega arith);
    }

    of_top : (k : ℕ) → 0 < k → k ≤ suc (suc above) → Le compare (a k) (a 1)
    of_top k p h = root-largest compare order k (suc (suc above)) a k d.heap p h (omega arith)

    -- What stands at a place of the heap stood at a place of the larger one.
    from_heap :
        (k : ℕ)
        → 0 < k
        → k ≤ suc above
        → (i : ℕ) × (0 < i) × (i ≤ suc (suc above)) × (changed k ≡ a i)
    from_heap k p h = elim (Bool-cases (k == 1)) [
      | inl e ↦
          let at : k ≡ 1 = ground arith in
          (suc (suc above), omega arith, omega arith, ap changed at ∙ at_root)
      | inr e ↦
          (k, p, omega arith, at_rest k (λ q. ground (arith, q, e)) (λ q. omega (arith, q, h)))
    ]

    changed-bound :
        (k j : ℕ)
        → 0 < k
        → k ≤ suc above
        → suc above < j
        → j ≤ n
        → Le compare (changed k) (changed j)
    changed-bound k j p h l u =
        let (i, pi, hi, at) = from_heap k p h in
        elim (Bool-cases (j == suc (suc above))) [
          | inl e ↦
              let top : j ≡ suc (suc above) = ground arith in
              rw (at, ap changed top ∙ at_top) (of_top i pi hi)
          | inr e ↦
              rw (at, at_rest j (λ q. omega (arith, q, l)) (λ q. ground (arith, q, e)))
                (d.bound i j pi hi (ground arith) u)
        ]

    changed-sorted : (j : ℕ) → suc above < j → j < n → Le compare (changed j) (changed (suc j))
    changed-sorted j l u =
        let next = at_rest (suc j) (λ q. omega (arith, q, l)) (λ q. omega (arith, q, l)) in
        elim (Bool-cases (j == suc (suc above))) [
          | inl e ↦
              let top : j ≡ suc (suc above) = ground arith in
              rw (next, ap changed top ∙ at_top)
                (d.bound 1 (suc j) (omega arith) (omega arith) (omega arith) u)
          | inr e ↦
              rw (next, at_rest j (λ q. omega (arith, q, l)) (λ q. ground (arith, q, e)))
                (d.sorted j (ground arith) u)
        ]

    drained-Draining : (a2 : ℕ → ℕ) → Sifted compare 1 (suc above) changed a2 → Draining n above a2
    drained-Draining a2 s = record {
      heap = s.heap;
      bound = λ k j p h l u.
          let (i, pi, hi, at) = Permuted-place (suc above) changed a2 k s.elems p h in
          subst (λ x. Le compare x (a2 j)) at
            (subst (Le compare (changed i)) (sym (s.elems.outside j (inr l)))
              (changed-bound i j pi hi l u));
      sorted = λ j l u.
          rw (s.elems.outside j (inr l), s.elems.outside (suc j) (inr (omega arith)))
            (changed-sorted j l u);
    }

    drained-Permuted : (a2 : ℕ → ℕ) → Sifted compare 1 (suc above) changed a2 → Permuted n a a2
    unfolding changed
    drained-Permuted a2 s =
        Permuted-trans n a changed a2
          (swap-Permuted n 1 (suc (suc above)) a (omega arith) (omega arith) (omega arith) inside
            (λ q. omega (arith, q)))
          (Permuted-more (suc above) n changed a2 (omega arith) s.elems)

  drain_loop-Returns :
      (n above : ℕ) (a : ℕ → ℕ)
      → above < n
      → n < 2 ^ 63
      → Draining n above a
      → Returns (SortedTo n a) (drain_loop above compare a)
  unfolding drain_loop changed
  drain_loop-Returns n zero a h small d = returns (record {
    ordered = λ j p u. elim (Bool-cases (j == 1)) [
      | inl e ↦
          let at : 1 ≡ j = ground arith in
          subst (λ k. Le compare (a k) (a (suc k))) at
            (d.bound 1 2 (omega arith) (omega arith) (omega arith) (ground arith))
      | inr e ↦ d.sorted j (ground arith) u
    ];
    elems = Permuted-refl n a;
  })
  drain_loop-Returns n (suc above) a h small d =
      call-Returns _
        (heapify-Returns compare order 1 (suc above) (omega arith) (omega arith) (suc above + 1) 1
          (changed n above a h d) (omega arith) (omega arith) (omega arith)
          (changed-Sifting n above a h d))
        λ a2 s.
          Returns-mono
            (drain_loop-Returns n above a2 (omega arith) small
              (drained-Draining n above a h d a2 s))
            λ a3 r. record {
              ordered = r.ordered;
              elems = Permuted-trans n a a2 a3 (drained-Permuted n above a h d a2 s) r.elems;
            }

  -- The whole heap, of any size.
  drain-Returns :
      (cnt : ℕ) (a : ℕ → ℕ)
      → cnt < 2 ^ 63
      → IsHeap compare 1 cnt a
      → Returns (SortedTo cnt a) (drain_loop (cnt - 1) compare a)
  unfolding drain_loop
  drain-Returns zero a small heap =
      returns (record { ordered = λ j p u. absurd (omega arith); elems = Permuted-refl 0 a })
  drain-Returns (suc n) a small heap =
      let whole : suc n - 1 ≡ n = omega arith in
      rw whole (
        drain_loop-Returns (suc n) n a (omega arith) small (record {
          heap = heap;
          bound = λ k j p h l u. absurd (omega arith);
          sorted = λ j l u. absurd (omega arith);
        }))

  -- sort () of an array of fewer than 2 ^ 63 elements, of at least one byte each, by a comparison that
  -- orders them, returns with the same elements, each as often, in an order in which none is greater
  -- than the next one, and with nothing outside the array changed.
  pub sort_lem :
      (at cnt size : ℕ) (a : ℕ → ℕ)
      → (at ≢ null) ⊎ (cnt ≡ 0)
      → 0 < size
      → cnt < 2 ^ 63
      → Returns (SortedTo cnt a) (sort at cnt size compare a)
  unfolding sort
  sort_lem at cnt size a array sized small =
      assert-Returns (not (at == null) || (cnt == 0)) _ (ground arith) (
        assert-Returns (ltb 0 size) _ (ground arith) (
          call-Returns _
            (build_loop-Returns compare order (cnt / 2) cnt a (omega arith) small
              λ c l u. absurd (omega arith))
            λ a1 s. Returns-mono (drain-Returns cnt a1 small s.heap) λ a2 r. record {
              ordered = r.ordered;
              elems = Permuted-trans cnt a a1 a2 s.elems r.elems;
            }))
