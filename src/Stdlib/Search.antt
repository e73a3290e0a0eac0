-- ===== src/Stdlib/Search.antt =====
-- lib/stdlib.c: binary_search ().
use juntos.Prelude.{
  ℕ, zero, suc, ◌+◌, ◌-◌, ◌/◌, ◌≤◌, ◌<◌, ◌≡◌, ◌⊎◌, refl, ◌==◌, if◌then◌else◌, inl, inr, true, false,
  Option, some, none, ltb, arith, Bool-cases, Returns, returns, Returns-then, Returns-else,
}
use juntos.Prelude.Int.{ℤ}
use juntos.Stdlib.Defs.{is_positive, is_negative, search_loop, binary_search}

-- The key is before the elements behind one that it is before, and behind those before one that it is
-- behind: the array is sorted as far as the key can tell.
pub record IsSortedFor (compare : ℕ → ℕ → ℤ) (key cnt : ℕ) (a : ℕ → ℕ) : Type 0 where
  pub before :
      (i j : ℕ)
      → i ≤ j
      → j < cnt
      → is_negative (compare key (a i)) ≡ true
      → is_negative (compare key (a j)) ≡ true
  pub behind :
      (i j : ℕ)
      → i ≤ j
      → j < cnt
      → is_positive (compare key (a j)) ≡ true
      → is_positive (compare key (a i)) ≡ true

-- A match, or that no element is one.
pub data Match (compare : ℕ → ℕ → ℤ) (key cnt : ℕ) (a : ℕ → ℕ) : Option ℕ → Type 0 where
  here :
      (i : ℕ)
      → i < cnt
      → is_negative (compare key (a i)) ≡ false
      → is_positive (compare key (a i)) ≡ false
      → Match compare key cnt a (some i)
  nowhere :
      ((i : ℕ)
        → i < cnt
        → (is_negative (compare key (a i)) ≡ true) ⊎ (is_positive (compare key (a i)) ≡ true))
      → Match compare key cnt a none

module _ (compare : ℕ → ℕ → ℤ) (key cnt : ℕ) (a : ℕ → ℕ) (is : IsSortedFor compare key cnt a) where
  search_loop-Returns :
      (rounds first last : ℕ)
      → last ≤ cnt
      → first ≤ last
      → last < first + rounds
      → ((i : ℕ) → i < first → is_positive (compare key (a i)) ≡ true)
      → ((i : ℕ) → last ≤ i → i < cnt → is_negative (compare key (a i)) ≡ true)
      → Returns (Match compare key cnt a) (search_loop rounds compare key first last a)
  unfolding search_loop
  search_loop-Returns zero first last h fl enough low high = absurd (omega arith)
  search_loop-Returns (suc rounds) first last h fl enough low high =
      let middle = first + (last - first) / 2 in
      let cmp = compare key (a middle) in
      elim (Bool-cases (ltb first last)) [
        | inr e ↦ Returns-else _ _ e (
            returns (
              nowhere λ i u. elim (Bool-cases (ltb i first)) [
                | inl l ↦ inr (low i (ground arith))
                | inr l ↦ inl (high i (ground arith) u)
              ]))
        | inl e ↦ Returns-then _ _ e elim (Bool-cases (is_negative cmp)) [
          | inl n ↦ Returns-then _ _ n (
              search_loop-Returns rounds first middle (omega arith) (omega arith) (ground arith) low
                λ i l u. is.before middle i l u n)
          | inr n ↦ Returns-else _ _ n elim (Bool-cases (is_positive cmp)) [
            | inl p ↦ Returns-then _ _ p (
                search_loop-Returns rounds (middle + 1) last h (ground arith) (omega arith)
                  (λ i l. is.behind i middle (omega arith) (ground arith) p) high)
            | inr p ↦ Returns-else _ _ p (returns (here middle (ground arith) n p))
          ]
        ]
      ]

  -- binary_search () in an array that is sorted for the key returns an element that matches it, and a
  -- null pointer only where no element does, or where the elements have no size.
  pub binary_search_lem :
      (size : ℕ)
      → Returns
          (λ r. if size == 0 then r ≡ none else Match compare key cnt a r)
          (binary_search key cnt size compare a)
  unfolding binary_search
  binary_search_lem size = elim (Bool-cases (size == 0)) [
    | inl e ↦ rw e (returns refl)
    | inr e ↦ rw e (
        search_loop-Returns (cnt + 1) 0 cnt (omega arith) (omega arith) (omega arith)
          (λ i l. absurd (omega arith)) λ i l u. absurd (omega arith))
  ]
