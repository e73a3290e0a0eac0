-- ===== src/Hash/Elems.antt =====
-- lib/kernel/hash.c: elements found, inserted in a bucket and removed from it.
use Prim.Native.Nat.{bit_and}
use juntos.Prelude.{
  ℕ, zero, suc, ◌+◌, ◌-◌, ◌^◌, ◌≤◌, ◌<◌, ◌≡◌, refl, sym, ap, ◌∙◌, Bool, true, false, ◌&&◌, ◌==◌,
  ltb, not, if◌then◌else◌, List, [], ◌∷◌, count, one_if, length, arith, Bool-cases, inl, inr, subst,
  Option, none, some,
}
use juntos.Hash.Defs.{Hash, find_bucket, equal, find_elem, insert_elem, unlink_elem, remove_elem}
use juntos.Hash.Table.{total, holds, IsTable, IsLawful, find_bucket-lt}
use juntos.Hash.Move.{push-count, total-push, copies}
use juntos.Hash.Rehash.{all_copies}

-- The element of a bucket that is equal to `e`, or that there is none.
data Sought (h : Hash) (e : ℕ) (bucket : List ℕ) : Option ℕ → Type 0 where
  one : (hi : ℕ) → 0 < count hi bucket → equal h hi e ≡ true → Sought h e bucket (some hi)
  no_one : ((x : ℕ) → 0 < count x bucket → equal h x e ≡ false) → Sought h e bucket none

later-Sought :
    (h : Hash) (e x : ℕ) (rest : List ℕ) (o : Option ℕ)
    → equal h x e ≡ false
    → Sought h e rest o
    → Sought h e (x ∷ rest) o
later-Sought h e x rest _ ne (one hi l eq) = one hi (omega arith) eq
later-Sought h e x rest _ ne (no_one all) = no_one λ y l. elim (Bool-cases (x == y)) [
  | inl at ↦ let eq : x ≡ y = ground arith in ap (λ z. equal h z e) (sym eq) ∙ ne
  | inr other ↦ all y (ground arith)
]

find_elem-Sought : (h : Hash) (bucket : List ℕ) (e : ℕ) → Sought h e bucket (find_elem h bucket e)
unfolding find_elem
find_elem-Sought h [] e = no_one λ x l. absurd (omega arith)
find_elem-Sought h (x ∷ rest) e = elim (Bool-cases (equal h x e)) [
  | inl eq ↦ rw eq (one x (ground arith) eq)
  | inr ne ↦ rw ne (later-Sought h e x rest _ ne (find_elem-Sought h rest e))
]

-- An element of the table that is equal to `e`, or that no element is.
pub data Found (h : Hash) (e : ℕ) : Option ℕ → Type 0 where
  found : (hi : ℕ) → 0 < holds h hi → equal h hi e ≡ true → Found h e (some hi)
  missing : ((x : ℕ) → 0 < holds h x → equal h x e ≡ false) → Found h e none

not_true : (b : Bool) → (b ≡ true → b ≡ false) → b ≡ false
not_true true k = k refl
not_true false k = refl

Sought-Found :
    (h : Hash) (e : ℕ) (o : Option ℕ)
    → IsTable h
    → IsLawful h
    → Sought h e (h.buckets (find_bucket h e)) o
    → Found h e o
Sought-Found h e _ is law (one hi l eq) =
    let at = is.placed (find_bucket h e) hi l in
    found hi (subst (λ i. 0 < count hi (h.buckets i)) at l) eq
Sought-Found h e _ is law (no_one all) = missing λ x l. not_true (equal h x e) λ eq.
    let at : find_bucket h x ≡ find_bucket h e =
      ap (λ n. bit_and n (h.bucket_cnt - 1)) (law.hashes x e eq) in
    all x (subst (λ i. 0 < count x (h.buckets i)) at l)

pub find_elem-Found :
    (h : Hash) (e : ℕ)
    → IsTable h
    → IsLawful h
    → Found h e (find_elem h (h.buckets (find_bucket h e)) e)
find_elem-Found h e is law =
    Sought-Found h e _ is law (find_elem-Sought h (h.buckets (find_bucket h e)) e)

-- The table with one element more.
pub holds-insert_elem :
    (h : Hash) (e t : ℕ) → holds (insert_elem h (find_bucket h e) e) t ≡ holds h t + one_if t e
unfolding insert_elem
holds-insert_elem h e t = ground (arith, push-count h e t (find_bucket h t))

and-swap : (a b : Bool) → (a && b) ≡ (b && a)
and-swap true true = refl
and-swap true false = refl
and-swap false true = refl
and-swap false false = refl

pub equal-swap : (h : Hash) (a b : ℕ) → equal h a b ≡ equal h b a
equal-swap h a b = and-swap (not (h.less a b)) (not (h.less b a))

module _ (h : Hash) (e : ℕ) (is : IsTable h) (law : IsLawful h) where
  absent : ((x : ℕ) → 0 < holds h x → equal h x e ≡ false) → holds h e ≡ 0
  absent all = elim (Bool-cases (ltb 0 (holds h e))) [
    | inl in_it ↦ absurd (ground (arith, all e, law.reflexive e))
    | inr out ↦ ground arith
  ]

  -- Two elements of the larger table that are equal.
  insert-distinct :
      ((x : ℕ) → 0 < holds h x → equal h x e ≡ false)
      → (a b : ℕ) → 0 < holds h a + one_if a e
      → 0 < holds h b + one_if b e
      → equal h a b ≡ true
      → a ≡ b
  insert-distinct all a b la lb eq = elim (Bool-cases (a == e)) [
    | inl at_a ↦ elim (Bool-cases (b == e)) [
      | inl at_b ↦ ground arith
      | inr no_b ↦
          let same : e ≡ a = ground arith in
          let clash : equal h b e ≡ true = equal-swap h b e ∙ ap (λ x. equal h x b) same ∙ eq in
          absurd (ground (arith, all b, clash))
    ]
    | inr no_a ↦ elim (Bool-cases (b == e)) [
      | inl at_b ↦
          let same : e ≡ b = ground arith in
          let clash : equal h a e ≡ true = ap (equal h a) same ∙ eq in
          absurd (ground (arith, all a, clash))
      | inr no_b ↦ is.distinct a b (ground arith) (ground arith) eq
    ]
  ]

  pub insert_elem-IsTable :
      ((x : ℕ) → 0 < holds h x → equal h x e ≡ false)
      → h.elem_cnt < 2 ^ 64 - 1
      → IsTable (insert_elem h (find_bucket h e) e)
  unfolding insert_elem
  insert_elem-IsTable all room = record {
    some_buckets = is.some_buckets;
    placed = λ i t l. ground (arith, push-count h e t i, is.placed i t);
    once = λ t. ground (arith, holds-insert_elem h e t, is.once t, absent all);
    distinct = λ a b la lb eq.
        insert-distinct all a b (omega (arith, holds-insert_elem h e a))
          (omega (arith, holds-insert_elem h e b)) eq;
    counted = ground (
      arith,
      is.counted,
      total-push h.buckets e (find_bucket h e) h.bucket_cnt 0,
      find_bucket-lt h e is.some_buckets,
    );
    small = omega arith;
  }

-- The table with one element less.
unlink-count :
    (e t : ℕ) (xs : List ℕ)
    → count t (unlink_elem e xs) ≡ (if e == t then count t xs - 1 else count t xs)
unfolding unlink_elem
unlink-count e t [] = ground arith
unlink-count e t (x ∷ xs) = ground (arith, unlink-count e t xs)

unlink-length :
    (e : ℕ) (xs : List ℕ) → count e xs ≤ 1 → length (unlink_elem e xs) + count e xs ≡ length xs
unfolding unlink_elem
unlink-length e [] h = omega arith
unlink-length e (x ∷ xs) h = ground (arith, unlink-length e xs)

unlink-total :
    (e : ℕ) (bs : ℕ → List ℕ) (n k : ℕ)
    → ((i : ℕ) → count e (bs i) ≤ 1)
    → total (λ i. unlink_elem e (bs i)) n k + copies e bs n k ≡ total bs n k
unlink-total e bs zero k h = omega arith
unlink-total e bs (suc n) k h =
    omega (arith, unlink-length e (bs k) (h k), unlink-total e bs n (k + 1) h)

pub holds-remove_elem :
    (h : Hash) (e t : ℕ) → holds (remove_elem h e) t ≡ (if e == t then holds h t - 1 else holds h t)
unfolding remove_elem
holds-remove_elem h e t = unlink-count e t (h.buckets (find_bucket h t))

module _ (h : Hash) (e : ℕ) (is : IsTable h) where
  each_once : (i : ℕ) → count e (h.buckets i) ≤ 1
  each_once i = elim (Bool-cases (ltb 0 (count e (h.buckets i)))) [
    | inl l ↦
        let at = is.placed i e (ground arith) in
        subst (λ j. count e (h.buckets j) ≤ 1) (sym at) (is.once e)
    | inr z ↦ ground arith
  ]

  pub remove_elem-IsTable : holds h e ≡ 1 → IsTable (remove_elem h e)
  unfolding remove_elem
  remove_elem-IsTable here =
      let rest = unlink-total e h.buckets h.bucket_cnt 0 each_once in
      let one = all_copies h h.bucket_cnt is e in
      record {
        some_buckets = is.some_buckets;
        placed = λ i t l. ground (arith, unlink-count e t (h.buckets i), is.placed i t);
        once = λ t. ground (arith, holds-remove_elem h e t, is.once t);
        distinct = λ a b la lb eq.
            is.distinct a b (ground (arith, holds-remove_elem h e a))
              (ground (arith, holds-remove_elem h e b)) eq;
        counted = omega (arith, is.counted, rest, one, is.small);
        small = omega arith;
      }

  pub elem_cnt-remove_elem : holds h e ≡ 1 → (remove_elem h e).elem_cnt + 1 ≡ h.elem_cnt
  unfolding remove_elem
  elem_cnt-remove_elem here = omega (
    arith,
    is.counted,
    is.small,
    unlink-total e h.buckets h.bucket_cnt 0 each_once,
    all_copies h h.bucket_cnt is e,
  )
