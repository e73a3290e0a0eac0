-- ===== src/Strings/Fill.antt =====
-- lib/string.c: memset () and memchr ().
use juntos.Prelude.{
  ℕ, zero, suc, ◌+◌, ◌<◌, ◌≤◌, ◌%◌, ◌^◌, ◌≡◌, ◌≢◌, ◌⊎◌, inl, inr, refl, ap, ◌∙◌, true, ◌==◌, arith,
  update, Bool-cases, Returns, returns, assert-Returns, subst,
}
use juntos.Strings.Block.{Mem, null, is_block, fill, memset, memchr_loop, memchr}

-- The block at `dst` holds the byte `value` throughout, and the rest is as it was.
pub record Filled (dst value size : ℕ) (m n : Mem) : Type 0 where
  pub inside : (i : ℕ) → i < size → n (dst + i) ≡ value
  pub outside : (a : ℕ) → (a < dst) ⊎ (dst + size ≤ a) → n a ≡ m a

Filled-suc :
    (dst value size : ℕ) (m n : Mem)
    → Filled (dst + 1) value size (update m dst value) n
    → (i : ℕ) → i < suc size
    → n (dst + i) ≡ value
Filled-suc dst value size m n f zero h =
    let here : n dst ≡ value = ground (arith, f.outside dst) in ap n (omega arith) ∙ here
Filled-suc dst value size m n f (suc i) h = ap n (omega arith) ∙ f.inside i (omega arith)

fill-Filled :
    (size dst value : ℕ) (m : Mem) → Filled dst (value % 2 ^ 8) size m (fill size dst value m)
unfolding fill
fill-Filled zero dst value m = record {
  inside = λ i h. absurd (omega arith);
  outside = λ a h. refl;
}
fill-Filled (suc size) dst value m =
    let rest = fill-Filled size (dst + 1) value (update m dst (value % 2 ^ 8)) in
    record {
      inside = Filled-suc dst (value % 2 ^ 8) size m _ rest;
      outside = λ a h. ground (arith, rest.outside a);
    }

-- memset () of a block: every byte of it is the value modulo 2 ^ 8, no other byte is changed, and
-- the block's address is returned.
pub memset_lem :
    (dst value size : ℕ) (m : Mem)
    → is_block dst size ≡ true
    → Returns (λ (p, n). (p ≡ dst) × Filled dst (value % 2 ^ 8) size m n) (memset dst value size m)
unfolding memset
memset_lem dst value size m block =
    assert-Returns (is_block dst size) _ block (returns (refl, fill-Filled size dst value m))

-- The first byte of a block that is `c`; NULL where there is none.
pub data FirstByte (m : Mem) (block c size : ℕ) : ℕ → Type 0 where
  at :
      (i : ℕ)
      → i < size
      → m (block + i) ≡ c
      → ((j : ℕ) → j < i → m (block + j) ≢ c)
      → FirstByte m block c size (block + i)
  nowhere : ((j : ℕ) → j < size → m (block + j) ≢ c) → FirstByte m block c size null

not_earlier :
    (m : Mem) (block c size : ℕ)
    → m block ≢ c
    → ((j : ℕ) → j < size → m (block + 1 + j) ≢ c)
    → (j : ℕ) → j < suc size
    → m (block + j) ≢ c
not_earlier m block c size ne rest zero h = λ e. ne (ap m (omega arith) ∙ e)
not_earlier m block c size ne rest (suc j) h = λ e. rest j (omega arith) (ap m (omega arith) ∙ e)

FirstByte-suc :
    {m : Mem} {block c size r : ℕ}
    → m block ≢ c
    → FirstByte m (block + 1) c size r
    → FirstByte m block c (suc size) r
FirstByte-suc {m} {block} {c} {size} ne (at i h e none) =
    subst (FirstByte m block c (suc size)) (omega arith)
      (at (suc i) (omega arith) (ap m (omega arith) ∙ e) (not_earlier m block c i ne none))
FirstByte-suc {m} {block} {c} {size} ne (nowhere none) =
    nowhere (not_earlier m block c size ne none)

memchr_loop-FirstByte :
    (size block c : ℕ) (m : Mem) → FirstByte m block c size (memchr_loop size block c m)
unfolding memchr_loop
memchr_loop-FirstByte zero block c m = nowhere λ j h. absurd (omega arith)
memchr_loop-FirstByte (suc size) block c m = elim (Bool-cases (m block == c)) [
  | inl here ↦
      let e : m block ≡ c = ground arith in
      rw here (
        subst (FirstByte m block c (suc size)) (omega arith)
          (at 0 (omega arith) (ap m (omega arith) ∙ e) λ j h. absurd (omega arith)))
  | inr on ↦
      let ne : m block ≢ c = λ e. ground arith in
      rw on (FirstByte-suc ne (memchr_loop-FirstByte size (block + 1) c m))
]

-- memchr () of a block returns the place of the first byte that is the argument modulo 2 ^ 8, and
-- NULL where there is none.
pub memchr_lem :
    (block ch size : ℕ) (m : Mem)
    → is_block block size ≡ true
    → Returns (FirstByte m block (ch % 2 ^ 8) size) (memchr block ch size m)
unfolding memchr
memchr_lem block ch size m is =
    assert-Returns (is_block block size) _ is
      (returns (memchr_loop-FirstByte size block (ch % 2 ^ 8) m))
