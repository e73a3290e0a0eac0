-- ===== src/Threads/Alarm/Defs.antt =====
-- threads/thread.c: the order of the sleep list, what earliest_wake_up_tick says of it, and who is due.
use juntos.Prelude.{
  ℕ, ◌+◌, ◌≡◌, ◌<◌, refl, Bool, not, List, [], ◌∷◌, if◌then◌else◌, arith, Bool-cases, inl, inr,
}
use juntos.Prelude.Int.{ℤ, pos_part, neg_part, ◌≤ℤ◌}
use juntos.Threads.State.{Kernel, alarm_of}
use juntos.Threads.Sleep.{leb_ℤ, int64_max}

infix 50 ◌<ℤ◌
abbrev pub ◌<ℤ◌ : ℤ → ℤ → Type 0
a <ℤ b = pos_part a + neg_part b < pos_part b + neg_part a

-- No earlier alarm behind a later one.
abbrev pub HeadLe : (ℕ → ℤ) → ℤ → List ℕ → Type 0
HeadLe f a [] = Unit
HeadLe f a (x ∷ xs) = a ≤ℤ f x

abbrev pub IsSorted : (ℕ → ℤ) → List ℕ → Type 0
IsSorted f [] = Unit
IsSorted f (x ∷ xs) = HeadLe f (f x) xs × IsSorted f xs

-- Over an empty list the tick is INT64_MAX, or what a loop that emptied the list has read there.
abbrev pub IsEarliest : (ℕ → ℤ) → List ℕ → ℤ → ℤ → Type 0
IsEarliest f [] tail earliest = tail ≤ℤ earliest
IsEarliest f (x ∷ xs) tail earliest = earliest ≡ f x

pub record Timely (k : Kernel) : Type 0 where
  pub sorted : IsSorted (alarm_of k.page) k.sleep_list
  pub earliest : IsEarliest (alarm_of k.page) k.sleep_list k.sleep_tail k.earliest_wake_up_tick
  pub tail_fits : k.sleep_tail ≤ℤ int64_max

-- The specification: who has slept long enough at `now`, and who has not, in the list's order.
abbrev pub keep_if : (ℕ → Bool) → List ℕ → List ℕ
keep_if p [] = []
keep_if p (x ∷ xs) = let rest = keep_if p xs in if p x then x ∷ rest else rest

abbrev pub is_due : (ℕ → ℤ) → ℤ → ℕ → Bool
is_due f now t = leb_ℤ (f t) now

abbrev pub due : (ℕ → ℤ) → ℤ → List ℕ → List ℕ
due f now = keep_if (is_due f now)

abbrev pub not_due : (ℕ → ℤ) → ℤ → List ℕ → List ℕ
not_due f now = keep_if (λ t. not (is_due f now t))

-- Behind a thread that is not due none is.
pub due-nil :
    (f : ℕ → ℤ) (now a : ℤ) (xs : List ℕ)
    → now <ℤ a
    → HeadLe f a xs
    → IsSorted f xs
    → (due f now xs ≡ []) × (not_due f now xs ≡ xs)
due-nil f now a [] late h s = (refl, refl)
due-nil f now a (x ∷ xs) late h s = ground (arith, due-nil f now (f x) xs)

HeadLe-trans : (f : ℕ → ℤ) (a b : ℤ) (xs : List ℕ) → a ≤ℤ b → HeadLe f b xs → HeadLe f a xs
HeadLe-trans f a b [] h t = tt
HeadLe-trans f a b (x ∷ xs) h t = omega arith

HeadLe-keep_if :
    (f : ℕ → ℤ) (p : ℕ → Bool) (a : ℤ) (xs : List ℕ)
    → HeadLe f a xs
    → IsSorted f xs
    → HeadLe f a (keep_if p xs)
HeadLe-keep_if f p a [] h s = tt
HeadLe-keep_if f p a (x ∷ xs) h s = elim (Bool-cases (p x)) [
  | inl stays ↦ rw stays h
  | inr goes ↦ rw goes (HeadLe-keep_if f p a xs (HeadLe-trans f a (f x) xs h s.0) s.1)
]

pub IsSorted-keep_if :
    (f : ℕ → ℤ) (p : ℕ → Bool) (xs : List ℕ) → IsSorted f xs → IsSorted f (keep_if p xs)
IsSorted-keep_if f p [] s = tt
IsSorted-keep_if f p (x ∷ xs) s = elim (Bool-cases (p x)) [
  | inl stays ↦ rw stays (HeadLe-keep_if f p (f x) xs s.0 s.1, IsSorted-keep_if f p xs s.1)
  | inr goes ↦ rw goes (IsSorted-keep_if f p xs s.1)
]
