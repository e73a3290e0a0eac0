-- ===== src/Stdlib/Build.antt =====
-- lib/stdlib.c: the heap that sort () builds, and its root.
use juntos.Prelude.{
  ℕ, zero, suc, ◌+◌, ◌/◌, ◌^◌, ◌≤◌, ◌<◌, ◌≡◌, refl, ap, inl, inr, ◌==◌, arith, Bool-cases, Returns,
  returns, call-Returns, Returns-mono, subst, one_if,
}
use juntos.Prelude.Int.{ℤ}
use juntos.Stdlib.Defs.{build_loop}
use juntos.Stdlib.Heap.{Le, IsCompare, tally, Permuted, Permuted-refl, Permuted-trans, Le-refl}
use juntos.Stdlib.Sift.{IsHeap, Sifted, heapify-Returns}

-- An element that is counted stands somewhere.
tally-place :
    (t : ℕ) (a : ℕ → ℕ) (n : ℕ) → 0 < tally t a n → (i : ℕ) × (0 < i) × (i ≤ n) × (a i ≡ t)
tally-place t a zero h = absurd (omega arith)
tally-place t a (suc n) h = elim (Bool-cases (a (suc n) == t)) [
  | inl e ↦ (suc n, omega arith, omega arith, ground arith)
  | inr e ↦ let (i, p, u, at) = tally-place t a n (ground arith) in (i, p, omega arith, at)
]

place-tally : (a : ℕ → ℕ) (n i : ℕ) → 0 < i → i ≤ n → 0 < tally (a i) a n
place-tally a zero i p h = absurd (omega arith)
place-tally a (suc n) i p h = elim (Bool-cases (i == suc n)) [
  | inl e ↦ let at : i ≡ suc n = ground arith in ground (arith, ap a at)
  | inr e ↦ omega (arith, place-tally a n i p (ground arith))
]

pub Permuted-place :
    (n : ℕ) (a b : ℕ → ℕ) (k : ℕ)
    → Permuted n a b
    → 0 < k
    → k ≤ n
    → (i : ℕ) × (0 < i) × (i ≤ n) × (a i ≡ b k)
Permuted-place n a b k p l u =
    tally-place (b k) a n (omega (arith, p.elems (b k), place-tally b n k l u))

pub Permuted-more : (m n : ℕ) (a b : ℕ → ℕ) → m ≤ n → Permuted m a b → Permuted n a b
Permuted-more m zero a b h p = record {
  elems = λ t. refl;
  outside = λ i o. p.outside i (omega arith);
}
Permuted-more m (suc n) a b h p = elim (Bool-cases (m == suc n)) [
  | inl e ↦ let at : m ≡ suc n = ground arith in subst (λ k. Permuted k a b) at p
  | inr e ↦
      let rest = Permuted-more m n a b (ground arith) p in
      record {
        elems = λ t.
            omega (arith, rest.elems t, ap (one_if t) (p.outside (suc n) (inr (ground arith))));
        outside = λ i o. p.outside i (omega arith);
      }
]

module _ (compare : ℕ → ℕ → ℤ) (order : IsCompare compare) where
  pub build_loop-Returns :
      (i cnt : ℕ) (a : ℕ → ℕ)
      → i ≤ cnt
      → cnt < 2 ^ 63
      → IsHeap compare (suc i) cnt a
      → Returns (Sifted compare 1 cnt a) (build_loop i compare cnt a)
  unfolding build_loop
  build_loop-Returns zero cnt a h small heap =
      returns (record { heap = heap; elems = Permuted-refl cnt a })
  build_loop-Returns (suc i) cnt a h small heap =
      call-Returns _
        (heapify-Returns compare order (suc i) cnt (omega arith) small (cnt + 1) (suc i) a
          (omega arith) h (omega arith)
          (record {
            edges = λ c l u ne. heap c (omega arith) u;
            bridged = λ b. absurd (omega arith);
          }))
        λ a' s.
          Returns-mono (build_loop-Returns i cnt a' (omega arith) small s.heap)
            λ a2 r. record { heap = r.heap; elems = Permuted-trans cnt a a' a2 s.elems r.elems }

  -- The root of a heap is its largest element.
  pub root-largest :
      (fuel cnt : ℕ) (a : ℕ → ℕ) (k : ℕ)
      → IsHeap compare 1 cnt a
      → 0 < k
      → k ≤ cnt
      → k ≤ fuel
      → Le compare (a k) (a 1)
  root-largest zero cnt a k heap p h f = absurd (omega arith)
  root-largest (suc fuel) cnt a k heap p h f = elim (Bool-cases (k == 1)) [
    | inl e ↦
        let at : 1 ≡ k = ground arith in
        subst (λ j. Le compare (a j) (a 1)) at (Le-refl compare order (a 1))
    | inr e ↦
        order.transitive (a k) (a (k / 2)) (a 1) (heap k (ground arith) h)
          (root-largest fuel cnt a (k / 2) heap (ground arith) (omega arith) (ground arith))
  ]
