-- ===== src/Stdlib/Heap.antt =====
-- lib/stdlib.c: heapify () floats an element down.
use juntos.Prelude.{
  ℕ, zero, suc, ◌+◌, ◌*◌, ◌/◌, ◌%◌, ◌^◌, ◌≤◌, ◌<◌, ◌≡◌, ◌≢◌, refl, sym, ap, ◌∙◌, ◌⊎◌, inl, inr,
  true, false, ◌==◌, leb, update, arith, Bool-cases, one_if, subst,
}
use juntos.Prelude.Int.{ℤ}
use juntos.Stdlib.Defs.{is_positive, do_swap, larger_of, largest}

-- Not greater, by the comparison.
abbrev pub Le : (ℕ → ℕ → ℤ) → (x y : ℕ) → Type 0
Le compare x y = is_positive (compare x y) ≡ false

-- What the documentation asks of the comparison.
pub record IsCompare (compare : ℕ → ℕ → ℤ) : Type 0 where
  pub total : (x y : ℕ) → is_positive (compare x y) ≡ true → Le compare y x
  pub transitive : (x y z : ℕ) → Le compare x y → Le compare y z → Le compare x z

-- How many of the first `n` elements, from 1 on, are `t`.
abbrev pub tally : (t : ℕ) → (ℕ → ℕ) → (n : ℕ) → ℕ
tally t array zero = 0
tally t array (suc n) = one_if t (array (suc n)) + tally t array n

-- The first `n` elements in another order, and the others as they were.
pub record Permuted (n : ℕ) (array array' : ℕ → ℕ) : Type 0 where
  pub elems : (t : ℕ) → tally t array' n ≡ tally t array n
  pub outside : (i : ℕ) → (i ≡ 0) ⊎ (n < i) → array' i ≡ array i

pub Permuted-refl : (n : ℕ) (array : ℕ → ℕ) → Permuted n array array
Permuted-refl n array = record { elems = λ t. refl; outside = λ i h. refl }

pub Permuted-trans : (n : ℕ) (a b c : ℕ → ℕ) → Permuted n a b → Permuted n b c → Permuted n a c
Permuted-trans n a b c p q = record {
  elems = λ t. q.elems t ∙ p.elems t;
  outside = λ i h. q.outside i h ∙ p.outside i h;
}

tally-update_above :
    (t : ℕ) (a : ℕ → ℕ) (n i v : ℕ) → n < i → tally t (update a i v) n ≡ tally t a n
tally-update_above t a zero i v h = refl
tally-update_above t a (suc n) i v h = ground (arith, tally-update_above t a n i v)

tally-update :
    (t : ℕ) (a : ℕ → ℕ) (n i v : ℕ)
    → 0 < i
    → i ≤ n
    → tally t (update a i v) n + one_if t (a i) ≡ tally t a n + one_if t v
tally-update t a zero i v p h = absurd (omega arith)
tally-update t a (suc n) i v p h = elim (Bool-cases (i == suc n)) [
  | inl e ↦
      let at : i ≡ suc n = ground arith in
      ground (arith, tally-update_above t a n i v, ap (λ j. one_if t (a j)) at)
  | inr e ↦ ground (arith, tally-update t a n i v)
]

pub swap-Permuted :
    (n i m : ℕ) (a : ℕ → ℕ) → 0 < i → i ≤ n → 0 < m → m ≤ n → i ≢ m → Permuted n a (do_swap i m a)
unfolding do_swap
swap-Permuted n i m a pi hi pm hm ne = record {
  elems = λ t.
      ground (
        arith,
        tally-update t (update a i (a m)) n m (a i) pm hm,
        tally-update t a n i (a m) pi hi,
      );
  outside = λ j h. ground arith;
}

module _ (compare : ℕ → ℕ → ℤ) (order : IsCompare compare) where
  pub Le-refl : (x : ℕ) → Le compare x x
  Le-refl x = elim (Bool-cases (is_positive (compare x x))) [
    | inl e ↦ order.total x x e
    | inr e ↦ e
  ]

  -- The larger one of an element and a child, where there is one.
  data Chosen (child max cnt : ℕ) (a : ℕ → ℕ) (m : ℕ) : Type 0 where
    is_child : m ≡ child → child ≤ cnt → Le compare (a max) (a child) → Chosen child max cnt a m
    is_max : m ≡ max → (child ≤ cnt → Le compare (a child) (a max)) → Chosen child max cnt a m

  larger_of-Chosen :
      (child max cnt : ℕ) (a : ℕ → ℕ) → Chosen child max cnt a (larger_of compare child max cnt a)
  larger_of-Chosen child max cnt a = elim (Bool-cases (leb child cnt)) [
    | inr e ↦ is_max (rw e refl) λ h. absurd (ground arith)
    | inl e ↦ elim (Bool-cases (is_positive (compare (a child) (a max)))) [
      | inl g ↦ is_child (rw (e, g) refl) (ground arith) (order.total (a child) (a max) g)
      | inr g ↦ is_max (rw (e, g) refl) λ h. g
    ]
  ]

  -- The largest of an element and its children.
  pub record IsLargest (i cnt : ℕ) (a : ℕ → ℕ) (m : ℕ) : Type 0 where
    pub place : (m ≡ i) ⊎ ((m / 2 ≡ i) × (m ≤ cnt))
    pub self : Le compare (a i) (a m)
    pub children : (c : ℕ) → c / 2 ≡ i → c ≤ cnt → Le compare (a c) (a m)

  of_children :
      (i cnt : ℕ) (a : ℕ → ℕ) (m : ℕ)
      → (2 * i ≤ cnt → Le compare (a (2 * i)) (a m))
      → (2 * i + 1 ≤ cnt → Le compare (a (2 * i + 1)) (a m))
      → (c : ℕ) → c / 2 ≡ i
      → c ≤ cnt
      → Le compare (a c) (a m)
  of_children i cnt a m fl fr c e h = elim (Bool-cases (c == 2 * i)) [
    | inl at ↦
        let same : 2 * i ≡ c = ground arith in
        subst (λ k. Le compare (a k) (a m)) same (fl (ground arith))
    | inr other ↦
        let same : 2 * i + 1 ≡ c = ground arith in
        subst (λ k. Le compare (a k) (a m)) same (fr (ground arith))
  ]

  Chosen-IsLargest :
      (i cnt : ℕ) (a : ℕ → ℕ) (l m : ℕ)
      → Chosen (2 * i) i cnt a l
      → Chosen (2 * i + 1) l cnt a m
      → IsLargest i cnt a m
  Chosen-IsLargest i cnt a l m (is_child el hl gl) (is_child em hm gm) =
      let below = subst (λ k. Le compare (a k) (a (2 * i + 1))) el gm in
      let up : Le compare (a i) (a (2 * i + 1)) =
        order.transitive (a i) (a (2 * i)) (a (2 * i + 1)) gl below in
      subst (IsLargest i cnt a) (sym em) (record {
        place = inr (omega arith);
        self = up;
        children = of_children i cnt a (2 * i + 1) (λ h. below) (λ h. Le-refl (a (2 * i + 1)));
      })
  Chosen-IsLargest i cnt a l m (is_child el hl gl) (is_max em fm) =
      subst (IsLargest i cnt a) (sym (em ∙ el)) (record {
        place = inr (omega arith);
        self = gl;
        children =
            of_children i cnt a (2 * i) (λ h. Le-refl (a (2 * i)))
              λ h. subst (λ k. Le compare (a (2 * i + 1)) (a k)) el (fm h);
      })
  Chosen-IsLargest i cnt a l m (is_max el fl) (is_child em hm gm) =
      let up = subst (λ k. Le compare (a k) (a (2 * i + 1))) el gm in
      subst (IsLargest i cnt a) (sym em) (record {
        place = inr (omega arith);
        self = up;
        children =
            of_children i cnt a (2 * i + 1)
              (λ h. order.transitive (a (2 * i)) (a i) (a (2 * i + 1)) (fl h) up)
              λ h. Le-refl (a (2 * i + 1));
      })
  Chosen-IsLargest i cnt a l m (is_max el fl) (is_max em fm) =
      subst (IsLargest i cnt a) (sym (em ∙ el)) (record {
        place = inl refl;
        self = Le-refl (a i);
        children =
            of_children i cnt a i fl λ h. subst (λ k. Le compare (a (2 * i + 1)) (a k)) el (fm h);
      })

  pub largest-IsLargest :
      (i cnt : ℕ) (a : ℕ → ℕ) → i ≤ cnt → cnt < 2 ^ 63 → IsLargest i cnt a (largest compare i cnt a)
  largest-IsLargest i cnt a h small =
      let left : 2 * i % 2 ^ 64 ≡ 2 * i = omega arith in
      let right : (2 * i + 1) % 2 ^ 64 ≡ 2 * i + 1 = omega arith in
      rw (left, right)
        (Chosen-IsLargest i cnt a (larger_of compare (2 * i) i cnt a) _
          (larger_of-Chosen (2 * i) i cnt a)
          (larger_of-Chosen (2 * i + 1) (larger_of compare (2 * i) i cnt a) cnt a))
