-- ===== src/Hash/Iterate.antt =====
-- lib/kernel/hash.c: iterators. A position in a bucket is what stands behind it there.
use juntos.Prelude.{
  ℕ, zero, suc, ◌+◌, ◌-◌, ◌<◌, ◌≡◌, ◌≢◌, refl, sym, ap, ◌∙◌, Bool, true, false, Option, none, some,
  ◌>>=◌, List, [], ◌∷◌, ◌++◌, length, length-append, arith,
}
use juntos.Hash.Defs.{Hash, apply_bucket, apply_loop, hash_apply}
use juntos.Hash.Table.{total, IsTable}

-- i->elem: the head of the bucket's list, an element, or a null pointer.
pub data Cursor : Type 0 where
  head : Cursor
  elem : ℕ → Cursor
  null : Cursor

pub record HashIterator : Type 0 where
  pub hash : Hash
  pub bucket : ℕ
  pub cur : Cursor
  pub behind : List ℕ

unfoldable pub hash_first : Hash → HashIterator
hash_first h = record { hash = h; bucket = 0; cur = head; behind = h.buckets 0 }

-- The while of hash_next (): `behind` is what list_next () goes to, `rounds` the buckets that are left.
unfoldable pub next_loop : (rounds : ℕ) → HashIterator → (behind : List ℕ) → HashIterator
next_loop rounds it (e ∷ rest) = record it { cur = elem e; behind = rest }
next_loop zero it [] = record it { bucket = it.bucket + 1; cur = null; behind = [] }
next_loop (suc rounds) it [] =
    next_loop rounds (record it { bucket = it.bucket + 1 }) (it.hash.buckets (it.bucket + 1))

unfoldable pub hash_cur : HashIterator → Cursor
hash_cur it = it.cur

-- A null pointer has no next element.
unfoldable pub hash_next : HashIterator → Option (Cursor × HashIterator)
unfolding next_loop
hash_next it = elim it.cur [
  | null ↦ none
  | _ ↦
      let it' = next_loop (it.hash.bucket_cnt - (it.bucket + 1)) it it.behind in some (it'.cur, it')
]

-- The loop of a client: while (hash_next (&i)), on the element at hash_cur (&i).
unfoldable pub iterate {ℓ} :
    {S : Type ℓ} → (fuel : ℕ) → (action : ℕ → S → S) → HashIterator → S → Option S
unfolding hash_next hash_cur
iterate zero action it s = none
iterate (suc fuel) action it s = do
  (found, it') ← hash_next it
  elim found [ elem e ↦ iterate fuel action it' (action e s) | _ ↦ some s ]

-- The elements of `rounds` buckets from bucket `i` on, in the order of the table.
abbrev pub flat : (ℕ → List ℕ) → (rounds i : ℕ) → List ℕ
flat buckets zero i = []
flat buckets (suc rounds) i = buckets i ++ flat buckets rounds (i + 1)

-- The elements that an iterator has not come to.
abbrev pub ahead : HashIterator → List ℕ
ahead it = it.behind ++ flat it.hash.buckets (it.hash.bucket_cnt - (it.bucket + 1)) (it.bucket + 1)

pub data Advanced (todo : List ℕ) (it : HashIterator) : Type 0 where
  to_elem :
      (e : ℕ)
      → it.cur ≡ elem e
      → it.bucket < it.hash.bucket_cnt
      → todo ≡ e ∷ ahead it
      → Advanced todo it
  to_end : it.cur ≡ null → todo ≡ [] → Advanced todo it

next_loop-Advanced :
    (rounds : ℕ) (it : HashIterator) (behind : List ℕ)
    → it.bucket + 1 + rounds ≡ it.hash.bucket_cnt
    → Advanced (behind ++ flat it.hash.buckets rounds (it.bucket + 1)) (next_loop rounds it behind)
unfolding next_loop
next_loop-Advanced rounds it (e ∷ rest) h =
    let left : rounds ≡ it.hash.bucket_cnt - (it.bucket + 1) = omega arith in
    to_elem e refl (omega arith)
      (ap (λ n. e ∷ (rest ++ flat it.hash.buckets n (it.bucket + 1))) left)
next_loop-Advanced zero it [] h = to_end refl refl
next_loop-Advanced (suc rounds) it [] h =
    next_loop-Advanced rounds (record it { bucket = it.bucket + 1 })
      (it.hash.buckets (it.bucket + 1)) (omega arith)

not_null {ℓ} :
    {A : Type ℓ} (c : Cursor) (o : Option A) → c ≢ null → elim c [ null ↦ none | _ ↦ o ] ≡ o
not_null head o h = refl
not_null (elem e) o h = refl
not_null null o h = absurd (h refl)

abbrev is_null : Cursor → Bool
is_null null = true
is_null _ = false

head-null : head ≢ null
head-null p = let clash : false ≡ true = ap is_null p in absurd (ground (arith, clash))

elem-null : (e : ℕ) → elem e ≢ null
elem-null e p = let clash : false ≡ true = ap is_null p in absurd (ground (arith, clash))

-- hash_next () of an iterator that is not at the end.
abbrev advanced : HashIterator → HashIterator
advanced it = next_loop (it.hash.bucket_cnt - (it.bucket + 1)) it it.behind

hash_next-eq :
    (it : HashIterator) → it.cur ≢ null → hash_next it ≡ some ((advanced it).cur, advanced it)
unfolding hash_next
hash_next-eq it set =
    not_null {A = Cursor × HashIterator} it.cur (some ((advanced it).cur, advanced it)) set

module _ {ℓ} {S : Type ℓ} (action : ℕ → S → S) where
  pub iterate-eq :
      (fuel : ℕ) (it : HashIterator) (s : S)
      → it.cur ≢ null
      → it.bucket < it.hash.bucket_cnt
      → length (ahead it) < fuel
      → iterate fuel action it s ≡ some (apply_bucket action (ahead it) s)
  unfolding iterate apply_bucket
  iterate-eq zero it s set inside h = absurd (omega arith)
  iterate-eq (suc fuel) it s set inside h =
      let left = it.hash.bucket_cnt - (it.bucket + 1) in
      rw (hash_next-eq it set) elim (next_loop-Advanced left it it.behind (omega arith)) [
        | to_end cur done ↦ rw (cur, done) refl
        | to_elem e cur inside' todo ↦
            rw (cur, todo)
              (iterate-eq fuel (advanced it) (action e s) (λ p. elem-null e (sym cur ∙ p)) inside'
                (omega (arith, ap length todo)))
      ]

  apply_bucket-append :
      (xs ys : List ℕ) (s : S)
      → apply_bucket action (xs ++ ys) s ≡ apply_bucket action ys (apply_bucket action xs s)
  unfolding apply_bucket
  apply_bucket-append [] ys s = refl
  apply_bucket-append (e ∷ xs) ys s = apply_bucket-append xs ys (action e s)

  apply_loop-eq :
      (rounds i : ℕ) (buckets : ℕ → List ℕ) (s : S)
      → apply_loop rounds i action buckets s ≡ apply_bucket action (flat buckets rounds i) s
  unfolding apply_loop apply_bucket
  apply_loop-eq zero i buckets s = refl
  apply_loop-eq (suc rounds) i buckets s =
      apply_loop-eq rounds (i + 1) buckets (apply_bucket action (buckets i) s)
      ∙ sym (apply_bucket-append (buckets i) (flat buckets rounds (i + 1)) s)

  first-ahead : (h : Hash) → 0 < h.bucket_cnt → ahead (hash_first h) ≡ flat h.buckets h.bucket_cnt 0
  unfolding hash_first
  first-ahead h some_buckets =
      let one_more : h.bucket_cnt ≡ suc (h.bucket_cnt - 1) = omega arith in
      sym (ap (λ n. flat h.buckets n 0) one_more)

  length-flat :
      (buckets : ℕ → List ℕ) (rounds i : ℕ)
      → length (flat buckets rounds i) ≡ total buckets rounds i
  length-flat buckets zero i = refl
  length-flat buckets (suc rounds) i = omega (
    arith,
    length-append (buckets i) (flat buckets rounds (i + 1)),
    length-flat buckets rounds (i + 1),
  )

  -- An iterator over a table, from hash_first () on, has the client act on the elements that
  -- hash_apply () acts on, in the same order; fuel for every element and the end is enough.
  pub iterate_lem :
      (h : Hash) (s : S)
      → IsTable h
      → iterate (h.elem_cnt + 1) action (hash_first h) s ≡ some (hash_apply action h s)
  unfolding hash_apply hash_first
  iterate_lem h s is =
      let start = first-ahead h is.some_buckets in
      let fits : length (ahead (hash_first h)) < h.elem_cnt + 1 =
        omega (arith, is.counted, length-flat h.buckets h.bucket_cnt 0, ap length start) in
      iterate-eq (h.elem_cnt + 1) (hash_first h) s head-null is.some_buckets fits
      ∙ ap (λ xs. some (apply_bucket action xs s)) start
      ∙ ap some (sym (apply_loop-eq h.bucket_cnt 0 h.buckets s))
