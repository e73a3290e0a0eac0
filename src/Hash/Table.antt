-- ===== src/Hash/Table.antt =====
-- lib/kernel/hash.c: a hash table as a set of elements.
use juntos.Prelude.{
  ℕ, zero, suc, ◌+◌, ◌-◌, ◌*◌, ◌/◌, ◌^◌, ◌≤◌, ◌<◌, ◌≡◌, true, false, ltb, if◌then◌else◌, List,
  count, length, arith, Bool-cases, inl, inr,
}
use juntos.Prelude.Bits.{bit_and-le_mask, and_less-keeps, between_powers}
use juntos.Hash.Defs.{
  Hash, find_bucket, equal, turn_off_least_1bit, is_power_of_2, round_down, best_bucket_cnt,
}

-- The elements in all the buckets of an array of `n`.
abbrev pub total : (ℕ → List ℕ) → (n i : ℕ) → ℕ
total buckets zero i = 0
total buckets (suc n) i = length (buckets i) + total buckets n (i + 1)

-- How often an element stands in the bucket that it belongs in.
abbrev pub holds : Hash → (e : ℕ) → ℕ
holds h e = count e (h.buckets (find_bucket h e))

-- What the documentation asks of the functions: less orders the elements, and elements of which
-- neither is less than the other have the same hash.
pub record IsLawful (h : Hash) : Type 0 where
  pub reflexive : (a : ℕ) → equal h a a ≡ true
  pub transitive : (a b c : ℕ) → equal h a b ≡ true → equal h b c ≡ true → equal h a c ≡ true
  pub hashes : (a b : ℕ) → equal h a b ≡ true → h.hash a ≡ h.hash b

-- A table: each element stands once, in its own bucket, no other is equal to it, and they are
-- counted.
pub record IsTable (h : Hash) : Type 0 where
  pub some_buckets : 0 < h.bucket_cnt
  pub placed : (i e : ℕ) → 0 < count e (h.buckets i) → i ≡ find_bucket h e
  pub once : (e : ℕ) → holds h e ≤ 1
  pub distinct : (a b : ℕ) → 0 < holds h a → 0 < holds h b → equal h a b ≡ true → a ≡ b
  pub counted : h.elem_cnt ≡ total h.buckets h.bucket_cnt 0
  pub small : h.elem_cnt < 2 ^ 64

-- The same functions and elements, in buckets of another number perhaps.
pub record SameElements (h h' : Hash) : Type 0 where
  pub hash : h'.hash ≡ h.hash
  pub less : h'.less ≡ h.less
  pub elements : (e : ℕ) → holds h' e ≡ holds h e

-- A bucket of the array.
pub find_bucket-lt : (h : Hash) (e : ℕ) → 0 < h.bucket_cnt → find_bucket h e < h.bucket_cnt
find_bucket-lt h e some_buckets =
    omega (arith, bit_and-le_mask (h.hash e) (h.hash e) (h.bucket_cnt - 1) (omega arith))

-- A round of the loop of rehash ().
positive-round : (x : ℕ) → 0 < x → is_power_of_2 x ≡ false → 0 < turn_off_least_1bit x
positive-round x h e = ground arith

round_down-positive : (fuel x : ℕ) → 0 < x → 0 < round_down fuel x
unfolding round_down
round_down-positive zero x h = h
round_down-positive (suc fuel) x h = elim (Bool-cases (is_power_of_2 x)) [
  | inl e ↦ rw e h
  | inr e ↦ rw e (round_down-positive fuel (turn_off_least_1bit x) (positive-round x h e))
]

smaller-round : (x : ℕ) → 0 < x → turn_off_least_1bit x ≤ x - 1
smaller-round x h = bit_and-le_mask x x (x - 1) (omega arith)

round_down-stops : (fuel x : ℕ) → 0 < x → x ≤ fuel → is_power_of_2 (round_down fuel x) ≡ true
unfolding round_down
round_down-stops zero x h le = absurd (omega arith)
round_down-stops (suc fuel) x h le = elim (Bool-cases (is_power_of_2 x)) [
  | inl e ↦ rw e e
  | inr e ↦ rw e (
      round_down-stops fuel (turn_off_least_1bit x) (positive-round x h e)
        (omega (arith, smaller-round x h)))
]

pub best_bucket_cnt-positive : (elem_cnt : ℕ) → 0 < best_bucket_cnt elem_cnt
unfolding best_bucket_cnt
best_bucket_cnt-positive elem_cnt =
    let start = if ltb (elem_cnt / 2) 4 then 4 else elem_cnt / 2 in
    round_down-positive start start (ground arith)

round_down-le : (fuel x : ℕ) → round_down fuel x ≤ x
unfolding round_down
round_down-le zero x = omega arith
round_down-le (suc fuel) x = elim (Bool-cases (is_power_of_2 x)) [
  | inl e ↦ rw e (omega arith)
  | inr e ↦ rw e (
      omega (
        arith,
        round_down-le fuel (turn_off_least_1bit x),
        bit_and-le_mask x x (x - 1) (omega arith),
      ))
]

-- A round keeps the highest bit of a number that is not a power of two.
round_down-keeps : (k fuel x : ℕ) → 2 ^ k ≤ x → 0 < x → 2 ^ k ≤ round_down fuel x
unfolding round_down
round_down-keeps k zero x h some = h
round_down-keeps k (suc fuel) x h some = elim (Bool-cases (is_power_of_2 x)) [
  | inl e ↦ rw e h
  | inr e ↦
      let left = positive-round x some e in
      rw e (round_down-keeps k fuel (turn_off_least_1bit x) (and_less-keeps k x h left) left)
]

-- The loop of rehash () ends with a number of buckets that is a power of two by is_power_of_2 (): at
-- least four, at most four or half the number of the elements, and more than half of that, so that it
-- is the largest power of two there.
pub best_bucket_cnt_lem :
    (elem_cnt : ℕ)
    → (is_power_of_2 (best_bucket_cnt elem_cnt) ≡ true)
      × (4 ≤ best_bucket_cnt elem_cnt)
      × (best_bucket_cnt elem_cnt ≤ (if ltb (elem_cnt / 2) 4 then 4 else elem_cnt / 2))
      × ((if ltb (elem_cnt / 2) 4 then 4 else elem_cnt / 2) < 2 * best_bucket_cnt elem_cnt)
unfolding best_bucket_cnt
best_bucket_cnt_lem elem_cnt =
    let start = if ltb (elem_cnt / 2) 4 then 4 else elem_cnt / 2 in
    let four : 2 ^ 2 ≤ start = ground arith in
    let (k, low, high) = between_powers start start (omega arith) (omega arith) in
    (
      round_down-stops start start (omega arith) (omega arith),
      round_down-keeps 2 start start four (omega arith),
      round_down-le start start,
      omega (arith, high, round_down-keeps k start start low (omega arith)),
    )
