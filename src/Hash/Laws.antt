-- ===== src/Hash/Laws.antt =====
-- lib/kernel/hash.c: what the operations do to the set of the elements.
use juntos.Prelude.{
  ℕ, ◌+◌, ◌-◌, ◌^◌, ◌<◌, ◌≡◌, refl, ◌∙◌, Bool, true, false, ◌==◌, if◌then◌else◌, one_if, Option,
  none, some,
}
use juntos.Hash.Defs.{Hash, find_bucket, equal, insert_elem, rehash, hash_find, hash_insert}
use juntos.Hash.Table.{holds, IsTable, IsLawful}
use juntos.Hash.Rehash.{rehash_lem}
use juntos.Hash.Elems.{
  Found, found, missing, find_elem-Found, holds-insert_elem, insert_elem-IsTable,
}

-- A table behind an operation: the same functions, and the elements that are named, each as often.
pub record Has (h : Hash) (wanted : ℕ → ℕ) (h' : Hash) : Type 0 where
  pub table : IsTable h'
  pub hash : h'.hash ≡ h.hash
  pub less : h'.less ≡ h.less
  pub elements : (t : ℕ) → holds h' t ≡ wanted t

pub rehash-Has :
    (room : Bool) (h h1 : Hash) (elements : ℕ → ℕ)
    → Has h elements h1
    → Has h elements (rehash room h1)
rehash-Has room h h1 elements has =
    let (same, is) = rehash_lem room h1 has.table in
    record {
      table = is;
      hash = same.hash ∙ has.hash;
      less = same.less ∙ has.less;
      elements = λ t. same.elements t ∙ has.elements t;
    }

self-Has : (h : Hash) → IsTable h → Has h (holds h) h
self-Has h is = record { table = is; hash = refl; less = refl; elements = λ t. refl }

-- The elements with one more, and with one less.
abbrev pub with_elem : (e : ℕ) → (ℕ → ℕ) → ℕ → ℕ
with_elem e elements t = elements t + one_if t e

abbrev pub without_elem : (e : ℕ) → (ℕ → ℕ) → ℕ → ℕ
without_elem e elements t = if e == t then 0 else elements t

pub insert-Has :
    (h : Hash) (e : ℕ)
    → IsTable h
    → IsLawful h
    → ((x : ℕ) → 0 < holds h x → equal h x e ≡ false)
    → h.elem_cnt < 2 ^ 64 - 1
    → Has h (with_elem e (holds h)) (insert_elem h (find_bucket h e) e)
unfolding insert_elem
insert-Has h e is law all room = record {
  table = insert_elem-IsTable h e is law all room;
  hash = refl;
  less = refl;
  elements = holds-insert_elem h e;
}

-- hash_find () in a table gives an element equal to `e`, where there is one, and NULL else.
pub hash_find_lem : (e : ℕ) (h : Hash) → IsTable h → IsLawful h → Found h e (hash_find e h)
unfolding hash_find
hash_find_lem e h = find_elem-Found h e

-- What hash_insert () leaves: the new element is in the table, or an equal one was and is returned.
pub data Inserted (h : Hash) (new : ℕ) : Option ℕ × Hash → Type 0 where
  added :
      {h' : Hash}
      → ((x : ℕ) → 0 < holds h x → equal h x new ≡ false)
      → Has h (with_elem new (holds h)) h'
      → Inserted h new (none, h')
  present :
      {h' : Hash} (old : ℕ)
      → 0 < holds h old
      → equal h old new ≡ true
      → Has h (holds h) h'
      → Inserted h new (some old, h')

Found-Inserted :
    (room : Bool) (new : ℕ) (h : Hash) (old : Option ℕ)
    → IsTable h
    → IsLawful h
    → h.elem_cnt < 2 ^ 64 - 1
    → Found h new old
    → Inserted h new
        (old, rehash room (elim old [ none ↦ insert_elem h (find_bucket h new) new | some _ ↦ h ]))
Found-Inserted room new h _ is law small (found hi l eq) =
    present hi l eq (rehash-Has room h h (holds h) (self-Has h is))
Found-Inserted room new h _ is law small (missing all) =
    added all (rehash-Has room h _ _ (insert-Has h new is law all small))

-- hash_insert () of a table adds the new element where no element is equal to it, and else returns the
-- equal one and leaves the elements as they are; a table stays one, whatever malloc () gives.
pub hash_insert_lem :
    (room : Bool) (new : ℕ) (h : Hash)
    → IsTable h
    → IsLawful h
    → h.elem_cnt < 2 ^ 64 - 1
    → Inserted h new (hash_insert room new h)
unfolding hash_insert
hash_insert_lem room new h is law small =
    Found-Inserted room new h _ is law small (find_elem-Found h new is law)
