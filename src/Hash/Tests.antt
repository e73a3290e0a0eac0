-- ===== src/Hash/Tests.antt =====
-- lib/kernel/hash.c: runs on small tables.
use Prim.Native.Nat.{bit_and}
use juntos.Prelude.{
  ℕ, ◌*◌, ◌≤◌, ◌<◌, ◌≡◌, refl, ◌==◌, ltb, true, if◌then◌else◌, some, [], ◌∷◌, count, arith, ap,
  Bool-cases, inl, inr,
}
use juntos.Hash.Defs.{
  Hash, find_bucket, hash_insert, hash_delete, hash_apply, is_power_of_2, best_bucket_cnt,
}
use juntos.Hash.Table.{IsTable, IsLawful, best_bucket_cnt_lem}
use juntos.Hash.Laws.{Inserted, hash_insert_lem}
use juntos.Hash.Remove.{Deleted, hash_delete_lem}
use juntos.Hash.Iterate.{hash_first, iterate, iterate_lem}

-- Numbers that are their own hash; 5 is in the table.
abbrev five : Hash
five = record {
  elem_cnt = 1;
  bucket_cnt = 4;
  buckets = λ i. if i == 1 then 5 ∷ [] else [];
  hash = λ e. e;
  less = ltb;
}

five-IsLawful : IsLawful five
five-IsLawful = record {
  reflexive = λ a. ground arith;
  transitive = λ a b c e f. ground arith;
  hashes = λ a b e. ground arith;
}

five-placed : (i e : ℕ) → 0 < count e (five.buckets i) → i ≡ find_bucket five e
five-placed i e h = elim (Bool-cases (e == 5)) [
  | inl at ↦
      let same : e ≡ 5 = ground arith in
      let bucket : bit_and e 3 ≡ 1 = ap (λ n. bit_and n 3) same in ground arith
  | inr other ↦ absurd (ground arith)
]

five-IsTable : IsTable five
five-IsTable = record {
  some_buckets = omega arith;
  placed = five-placed;
  once = λ e. ground arith;
  distinct = λ a b la lb e. ground arith;
  counted = refl;
  small = omega arith;
}

hash_insert_example : Inserted five 9 (hash_insert true 9 five)
hash_insert_example = hash_insert_lem true 9 five five-IsTable five-IsLawful (omega arith)

hash_delete_example : Deleted five 5 (hash_delete true 5 five)
hash_delete_example = hash_delete_lem true 5 five five-IsTable five-IsLawful

iterate_example :
    iterate 2 (λ e xs. e ∷ xs) (hash_first five) [] ≡ some (hash_apply (λ e xs. e ∷ xs) five [])
iterate_example = iterate_lem (λ e xs. e ∷ xs) five [] five-IsTable

best_bucket_cnt_example :
    (is_power_of_2 (best_bucket_cnt 15) ≡ true)
    × (4 ≤ best_bucket_cnt 15)
    × (best_bucket_cnt 15 ≤ 7)
    × (7 < 2 * best_bucket_cnt 15)
best_bucket_cnt_example = best_bucket_cnt_lem 15

best_bucket_cnt-fifteen : best_bucket_cnt 15 ≡ 4
unfolding best_bucket_cnt
best_bucket_cnt-fifteen = refl

hash_insert-twice : (hash_insert true 5 five).0 ≡ some 5
unfolding hash_insert
hash_insert-twice = refl
