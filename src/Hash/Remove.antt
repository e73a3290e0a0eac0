-- ===== src/Hash/Remove.antt =====
-- lib/kernel/hash.c: elements taken out of a table, and put in the place of others.
use juntos.Prelude.{
  ℕ, ◌+◌, ◌-◌, ◌^◌, ◌<◌, ◌≡◌, refl, ap, ◌∙◌, Bool, true, false, one_if, arith, Bool-cases, inl, inr,
  Option, none, some,
}
use juntos.Hash.Defs.{
  Hash, find_bucket, equal, insert_elem, remove_elem, rehash, hash_replace, hash_delete,
}
use juntos.Hash.Table.{holds, IsTable, IsLawful}
use juntos.Hash.Elems.{
  Found, found, missing, find_elem-Found, holds-remove_elem, remove_elem-IsTable,
  elem_cnt-remove_elem, equal-swap,
}
use juntos.Hash.Laws.{Has, rehash-Has, with_elem, without_elem, insert-Has}

holds-one : (h : Hash) (e : ℕ) → IsTable h → 0 < holds h e → holds h e ≡ 1
holds-one h e is l = omega (arith, is.once e)

remove-Has :
    (h : Hash) (e : ℕ)
    → IsTable h
    → 0 < holds h e
    → Has h (without_elem e (holds h)) (remove_elem h e)
unfolding remove_elem
remove-Has h e is l = record {
  table = remove_elem-IsTable h e is (holds-one h e is l);
  hash = refl;
  less = refl;
  elements = λ t. ground (arith, holds-remove_elem h e t, is.once t);
}

-- What hash_delete () leaves: one equal element less, which is returned, or the table as it was.
pub data Deleted (h : Hash) (e : ℕ) : Option ℕ × Hash → Type 0 where
  deleted :
      {h' : Hash} (old : ℕ)
      → 0 < holds h old
      → equal h old e ≡ true
      → Has h (without_elem old (holds h)) h'
      → Deleted h e (some old, h')
  unknown : ((x : ℕ) → 0 < holds h x → equal h x e ≡ false) → Deleted h e (none, h)

Found-Deleted :
    (room : Bool) (e : ℕ) (h : Hash) (o : Option ℕ)
    → IsTable h
    → Found h e o
    → Deleted h e (o, elim o [ none ↦ h | some old ↦ rehash room (remove_elem h old) ])
Found-Deleted room e h _ is (found hi l eq) =
    deleted hi l eq (rehash-Has room h _ _ (remove-Has h hi is l))
Found-Deleted room e h _ is (missing all) = unknown all

-- hash_delete () of a table removes the element equal to `e` and no other, and returns it; without
-- such an element it returns NULL and the table is as it was.
pub hash_delete_lem :
    (room : Bool) (e : ℕ) (h : Hash) → IsTable h → IsLawful h → Deleted h e (hash_delete room e h)
unfolding hash_delete
hash_delete_lem room e h is law = Found-Deleted room e h _ is (find_elem-Found h e is law)

-- What hash_replace () leaves: the new element in the place of the equal one, which is returned.
pub data Replaced (h : Hash) (new : ℕ) : Option ℕ × Hash → Type 0 where
  fresh :
      {h' : Hash}
      → ((x : ℕ) → 0 < holds h x → equal h x new ≡ false)
      → Has h (with_elem new (holds h)) h'
      → Replaced h new (none, h')
  instead :
      {h' : Hash} (old : ℕ)
      → 0 < holds h old
      → equal h old new ≡ true
      → Has h (with_elem new (without_elem old (holds h))) h'
      → Replaced h new (some old, h')

-- Without the equal element, no element is equal to the new one.
others_differ :
    (h : Hash) (old new : ℕ)
    → IsTable h
    → IsLawful h
    → 0 < holds h old
    → equal h old new ≡ true
    → (x : ℕ) → 0 < holds (remove_elem h old) x
    → equal h x new ≡ false
others_differ h old new is law l eq x lx = elim (Bool-cases (equal h x new)) [
  | inr ne ↦ ne
  | inl e ↦
      let both : equal h x old ≡ true = law.transitive x new old e (equal-swap h new old ∙ eq) in
      let here : 0 < holds h x = ground (arith, holds-remove_elem h old x) in
      let same : x ≡ old = is.distinct x old here l both in
      absurd (ground (arith, holds-remove_elem h old x, is.once x))
]

insert_instead :
    (h : Hash) (old new : ℕ)
    → IsTable h
    → IsLawful h
    → h.elem_cnt < 2 ^ 64 - 1
    → 0 < holds h old
    → equal h old new ≡ true
    → Has h
        (with_elem new (without_elem old (holds h)))
        (insert_elem (remove_elem h old) (find_bucket h new) new)
unfolding remove_elem
insert_instead h old new is law small l eq =
    let removed = remove-Has h old is l in
    let room = elem_cnt-remove_elem h old is (holds-one h old is l) in
    let law1 : IsLawful (remove_elem h old) = record {
      reflexive = law.reflexive;
      transitive = law.transitive;
      hashes = law.hashes;
    } in
    let has =
      insert-Has (remove_elem h old) new removed.table law1 (others_differ h old new is law l eq)
        (omega arith) in
    record {
      table = has.table;
      hash = has.hash;
      less = has.less;
      elements = λ t. has.elements t ∙ ap (λ n. n + one_if t new) (removed.elements t);
    }

Found-Replaced :
    (room : Bool) (new : ℕ) (h : Hash) (o : Option ℕ)
    → IsTable h
    → IsLawful h
    → h.elem_cnt < 2 ^ 64 - 1
    → Found h new o
    → Replaced h new (
      o,
      rehash room
          (insert_elem (elim o [ none ↦ h | some e ↦ remove_elem h e ]) (find_bucket h new) new),
    )
Found-Replaced room new h _ is law small (found hi l eq) =
    instead hi l eq (rehash-Has room h _ _ (insert_instead h hi new is law small l eq))
Found-Replaced room new h _ is law small (missing all) =
    fresh all (rehash-Has room h _ _ (insert-Has h new is law all small))

-- hash_replace () of a table puts the new element in, and takes the element equal to it out, where
-- there is one, and returns it; every other element stays.
pub hash_replace_lem :
    (room : Bool) (new : ℕ) (h : Hash)
    → IsTable h
    → IsLawful h
    → h.elem_cnt < 2 ^ 64 - 1
    → Replaced h new (hash_replace room new h)
unfolding hash_replace
hash_replace_lem room new h is law small =
    Found-Replaced room new h _ is law small (find_elem-Found h new is law)
