-- ===== src/Hash/Defs.antt =====
-- lib/kernel/hash.c: the operations. An element is named by its address, a bucket is the sequence of
-- its elements; the functions of a list are its operations on the sequence. What malloc () gives is
-- an argument, `room`: whether there is memory. An action is a function on the caller's state.
use Prim.Native.Nat.{bit_and}
use juntos.Prelude.{
  ℕ, zero, suc, ◌+◌, ◌-◌, ◌/◌, ◌%◌, ◌^◌, Bool, not, ◌&&◌, Option, none, some, ◌==◌, ltb,
  if◌then◌else◌, List, [], ◌∷◌, update,
}

-- hash and less have aux with them.
pub record Hash : Type 0 where
  pub elem_cnt : ℕ
  pub bucket_cnt : ℕ
  pub buckets : ℕ → List ℕ
  pub hash : ℕ → ℕ
  pub less : ℕ → ℕ → Bool

-- &h->buckets[…]
abbrev pub find_bucket : Hash → (e : ℕ) → ℕ
find_bucket h e = bit_and (h.hash e) (h.bucket_cnt - 1)

abbrev pub equal : Hash → (a b : ℕ) → Bool
equal h a b = not (h.less a b) && not (h.less b a)

unfoldable pub find_elem : Hash → (bucket : List ℕ) → (e : ℕ) → Option ℕ
find_elem h [] e = none
find_elem h (hi ∷ rest) e = if equal h hi e then some hi else find_elem h rest e

unfoldable pub insert_elem : Hash → (bucket e : ℕ) → Hash
insert_elem h bucket e = record h {
  elem_cnt = (h.elem_cnt + 1) % 2 ^ 64;
  buckets = update h.buckets bucket (e ∷ h.buckets bucket);
}

-- list_remove () of the one place of `e` in a list.
unfoldable pub unlink_elem : (e : ℕ) → List ℕ → List ℕ
unlink_elem e [] = []
unlink_elem e (x ∷ rest) = if x == e then rest else x ∷ unlink_elem e rest

-- The element's own links lead to its neighbours: it leaves the bucket that it stands in.
unfoldable pub remove_elem : Hash → (e : ℕ) → Hash
unfolding unlink_elem
remove_elem h e = record h {
  elem_cnt = (h.elem_cnt + 2 ^ 64 - 1) % 2 ^ 64;
  buckets = λ i. unlink_elem e (h.buckets i);
}

abbrev pub turn_off_least_1bit : ℕ → ℕ
turn_off_least_1bit x = bit_and x (x - 1)

abbrev pub is_power_of_2 : ℕ → Bool
is_power_of_2 x = not (x == 0) && (turn_off_least_1bit x == 0)

-- The while of rehash (); a round makes the number smaller, so that it is fuel for itself.
unfoldable pub round_down : (fuel new_bucket_cnt : ℕ) → ℕ
round_down zero new_bucket_cnt = new_bucket_cnt
round_down (suc fuel) new_bucket_cnt =
    if is_power_of_2 new_bucket_cnt
    then new_bucket_cnt
    else round_down fuel (turn_off_least_1bit new_bucket_cnt)

unfoldable pub best_bucket_cnt : (elem_cnt : ℕ) → ℕ
unfolding round_down
best_bucket_cnt elem_cnt =
    let wanted = elem_cnt / 2 in
    let start = if ltb wanted 4 then 4 else wanted in round_down start start

-- The elements of an old bucket, pushed to the front of the new ones that they belong in.
unfoldable pub move_bucket : Hash → List ℕ → Hash
move_bucket h [] = h
move_bucket h (e ∷ rest) =
    let i = find_bucket h e in
    move_bucket (record h { buckets = update h.buckets i (e ∷ h.buckets i) }) rest

unfoldable pub move_buckets : (rounds i : ℕ) → (old_buckets : ℕ → List ℕ) → Hash → Hash
unfolding move_bucket
move_buckets zero i old_buckets h = h
move_buckets (suc rounds) i old_buckets h =
    move_buckets rounds (i + 1) old_buckets (move_bucket h (old_buckets i))

unfoldable pub rehash : (room : Bool) → Hash → Hash
unfolding best_bucket_cnt move_buckets
rehash room h =
    let new_bucket_cnt = best_bucket_cnt h.elem_cnt in
    if new_bucket_cnt == h.bucket_cnt
    then h
    else if room
    then move_buckets h.bucket_cnt 0 h.buckets
        (record h { bucket_cnt = new_bucket_cnt; buckets = λ i. [] })
    else h

-- A null pointer is none.
unfoldable pub hash_insert : (room : Bool) → (new : ℕ) → Hash → Option ℕ × Hash
unfolding find_elem insert_elem rehash
hash_insert room new h =
    let bucket = find_bucket h new in
    let old = find_elem h (h.buckets bucket) new in
    (old, rehash room (elim old [ none ↦ insert_elem h bucket new | some _ ↦ h ]))

unfoldable pub hash_replace : (room : Bool) → (new : ℕ) → Hash → Option ℕ × Hash
unfolding find_elem insert_elem remove_elem rehash
hash_replace room new h =
    let bucket = find_bucket h new in
    let old = find_elem h (h.buckets bucket) new in
    let h1 : Hash = elim old [ none ↦ h | some e ↦ remove_elem h e ] in
    (old, rehash room (insert_elem h1 bucket new))

unfoldable pub hash_find : (e : ℕ) → Hash → Option ℕ
unfolding find_elem
hash_find e h = find_elem h (h.buckets (find_bucket h e)) e

unfoldable pub hash_delete : (room : Bool) → (e : ℕ) → Hash → Option ℕ × Hash
unfolding find_elem remove_elem rehash
hash_delete room e h =
    let found = find_elem h (h.buckets (find_bucket h e)) e in
    (found, elim found [ none ↦ h | some old ↦ rehash room (remove_elem h old) ])

-- The while of hash_clear (): pop the front, call the destructor.
unfoldable pub apply_bucket {ℓ} : {S : Type ℓ} → (action : ℕ → S → S) → List ℕ → S → S
apply_bucket action [] s = s
apply_bucket action (e ∷ rest) s = apply_bucket action rest (action e s)

unfoldable pub clear_loop {ℓ} :
    {S : Type ℓ} → (rounds i : ℕ) → Option (ℕ → S → S) → (ℕ → List ℕ) × S → (ℕ → List ℕ) × S
unfolding apply_bucket
clear_loop zero i destructor r = r
clear_loop (suc rounds) i destructor (buckets, s) = clear_loop rounds (i + 1) destructor (
  update buckets i [],
  elim destructor [ none ↦ s | some action ↦ apply_bucket action (buckets i) s ],
)

unfoldable pub hash_clear {ℓ} : {S : Type ℓ} → Option (ℕ → S → S) → Hash → S → Hash × S
unfolding clear_loop
hash_clear destructor h s =
    let (buckets, s') = clear_loop h.bucket_cnt 0 destructor (h.buckets, s) in
    (record h { elem_cnt = 0; buckets = buckets }, s')

-- The buckets are freed behind it: the caller's state is left.
unfoldable pub hash_destroy {ℓ} : {S : Type ℓ} → Option (ℕ → S → S) → Hash → S → S
unfolding hash_clear
hash_destroy none h s = s
hash_destroy (some destructor) h s = (hash_clear (some destructor) h s).1

-- The lists of a block that malloc () gave are not read before list_init ().
unfoldable pub hash_init :
    (room : Bool) → (block : ℕ → List ℕ) → (hash : ℕ → ℕ) → (less : ℕ → ℕ → Bool) → Option Hash
unfolding hash_clear
hash_init room block hash less =
    if room
    then some
        (hash_clear {S = Unit {0}} none
          (record { elem_cnt = 0; bucket_cnt = 4; buckets = block; hash = hash; less = less }) tt).0
    else none

unfoldable pub apply_loop {ℓ} : {S : Type ℓ} → (rounds i : ℕ) → (ℕ → S → S) → (ℕ → List ℕ) → S → S
unfolding apply_bucket
apply_loop zero i action buckets s = s
apply_loop (suc rounds) i action buckets s =
    apply_loop rounds (i + 1) action buckets (apply_bucket action (buckets i) s)

unfoldable pub hash_apply {ℓ} : {S : Type ℓ} → (ℕ → S → S) → Hash → S → S
unfolding apply_loop
hash_apply action h s = apply_loop h.bucket_cnt 0 action h.buckets s

abbrev pub hash_size : Hash → ℕ
hash_size h = h.elem_cnt

abbrev pub hash_empty : Hash → Bool
hash_empty h = h.elem_cnt == 0
