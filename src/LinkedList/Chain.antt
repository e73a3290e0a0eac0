-- ===== src/LinkedList/Chain.antt =====
-- lib/kernel/list.c: the shape of a list in memory.
use juntos.Prelude.{ℕ, ◌≤◌, ◌<◌, ◌≡◌, ◌∙◌, List, [], ◌∷◌, ◌++◌, count, count-append, arith}
use juntos.LinkedList.Elem.{Mem, null, head_of, tail_of}

-- From `p`, `next` leads through `xs` to `q`, and `prev` leads back.
pub data Chain (m : Mem) (q : ℕ) : ℕ → List ℕ → Type 0 where
  nil : {p : ℕ} → m.next p ≡ q → m.prev q ≡ p → Chain m q p []
  cons :
      {p x : ℕ} {xs : List ℕ} → m.next p ≡ x → m.prev x ≡ p → Chain m q x xs → Chain m q p (x ∷ xs)

-- No element stands at two places, and none is NULL.
abbrev pub Apart : List ℕ → Type 0
Apart xs = ((a : ℕ) → count a xs ≤ 1) × (count null xs ≡ 0)

-- The list at `list` holds the elements `xs`.
pub record IsList (list : ℕ) (xs : List ℕ) (m : Mem) : Type 0 where
  pub chain : Chain m (tail_of list) (head_of list) xs
  pub head_end : m.prev (head_of list) ≡ null
  pub tail_end : m.next (tail_of list) ≡ null
  pub apart : Apart (head_of list ∷ tail_of list ∷ xs)

-- A change that spares the fields that a chain is made of.
pub Chain-frame :
    {m n : Mem} {q p : ℕ} {xs : List ℕ}
    → ((a : ℕ) → 0 < count a (p ∷ xs) → n.next a ≡ m.next a)
    → ((a : ℕ) → 0 < count a (q ∷ xs) → n.prev a ≡ m.prev a)
    → Chain m q p xs
    → Chain n q p xs
Chain-frame {q} {p} f g (nil e b) = nil (f p (ground arith) ∙ e) (g q (ground arith) ∙ b)
Chain-frame {p} f g (cons {x} e b c) =
    cons (f p (ground arith) ∙ e) (g x (ground arith) ∙ b)
      (Chain-frame (λ a h. f a (omega arith)) (λ a h. g a (omega arith)) c)

pub Chain-append :
    {m : Mem} {q y p : ℕ} {xs ys : List ℕ}
    → Chain m y p xs
    → Chain m q y ys
    → Chain m q p (xs ++ y ∷ ys)
Chain-append (nil e b) d = cons e b d
Chain-append (cons e b c) d = cons e b (Chain-append c d)

pub Chain-split :
    {m : Mem} {q y p : ℕ} (xs : List ℕ) {ys : List ℕ}
    → Chain m q p (xs ++ y ∷ ys)
    → Chain m y p xs × Chain m q y ys
Chain-split [] (cons e b d) = (nil e b, d)
Chain-split (x ∷ xs) (cons e b c) = let (left, right) = Chain-split xs c in (cons e b left, right)

-- The element in front of the end is the last, or the start; and from the other side.
pub prev-count : {m : Mem} {q p : ℕ} {xs : List ℕ} → Chain m q p xs → 0 < count (m.prev q) (p ∷ xs)
prev-count (nil e b) = ground arith
prev-count (cons e b c) = omega (arith, prev-count c)

pub next-count : {m : Mem} {q p : ℕ} {xs : List ℕ} → Chain m q p xs → 0 < count (m.next p) (q ∷ xs)
next-count (nil e b) = ground arith
next-count (cons e b c) = ground arith

-- A change of no field outside the elements `xs`.
abbrev pub SameOutside : List ℕ → Mem → Mem → Type 0
SameOutside xs m n = (a : ℕ) → count a xs ≡ 0 → (n.next a ≡ m.next a) × (n.prev a ≡ m.prev a)

-- Where the list `ys` up to `end` begins.
abbrev pub begin_of : List ℕ → ℕ → ℕ
begin_of [] end = end
begin_of (y ∷ ys) end = y

pub begin-next : {m : Mem} {q p : ℕ} {xs : List ℕ} → Chain m q p xs → m.next p ≡ begin_of xs q
begin-next (nil e b) = e
begin-next (cons e b c) = e

pub begin-prev : {m : Mem} {q p : ℕ} {xs : List ℕ} → Chain m q p xs → m.prev (begin_of xs q) ≡ p
begin-prev (nil e b) = b
begin-prev (cons e b c) = b

pub begin-count : (q : ℕ) (xs ys : List ℕ) → 0 < count (begin_of ys q) (q ∷ xs ++ ys)
begin-count q xs [] = ground (arith, count-append q [] xs)
begin-count q xs (y ∷ ys) = ground (arith, count-append y (y ∷ ys) xs)

pub before-count :
    {m : Mem} {q p : ℕ} (xs ys : List ℕ)
    → Chain m q p (xs ++ ys)
    → 0 < count (m.prev (begin_of ys q)) (p ∷ xs ++ ys)
before-count {m} {q} {p} xs [] c = prev-count c
before-count {m} {q} {p} xs (y ∷ ys) c =
    let (left, right) = Chain-split xs c in
    omega (arith, prev-count left, count-append (m.prev y) (y ∷ ys) xs)

-- `prev` undoes `next`.
pub prev-next :
    {m : Mem} {q p : ℕ} {xs : List ℕ} (a : ℕ)
    → Chain m q p xs
    → 0 < count a (p ∷ xs)
    → m.prev (m.next a) ≡ a
prev-next a (nil e b) h = ground arith
prev-next a (cons e b c) h = ground (arith, prev-next a c)

pub next-prev : {m : Mem} {q p : ℕ} {xs : List ℕ} → Chain m q p xs → m.next (m.prev q) ≡ q
next-prev (nil e b) = ground arith
next-prev (cons e b c) = next-prev c
