-- ===== src/Strings/Move.antt =====
-- lib/string.c: memcpy () and memmove ().
use juntos.Prelude.{
  ℕ, zero, suc, ◌+◌, ◌<◌, ◌≤◌, ◌≡◌, ◌≢◌, ◌⊎◌, inl, inr, refl, ap, sym, ◌∙◌, true, ltb, update,
  if◌then◌else◌, arith, Returns, returns, assert-Returns, Bool-cases,
}
use juntos.Strings.Block.{Mem, is_block, copy_up, copy_down, memcpy, memmove}
use juntos.Strings.Defs.{Copied}

update_self : (m : Mem) (a v : ℕ) → update m a v a ≡ v
update_self m a v = ground arith

update_ne : (m : Mem) (a v b : ℕ) → b ≢ a → update m a v b ≡ m b
update_ne m a v b ne = ground arith

-- One byte more in front.
Copied-suc :
    (size dst src : ℕ) (m n : Mem)
    → (dst ≤ src) ⊎ (src + suc size ≤ dst)
    → Copied (dst + 1) (src + 1) size (update m dst (m src)) n
    → (i : ℕ) → i < suc size
    → n (dst + i) ≡ m (src + i)
Copied-suc size dst src m n apart rest zero h =
    let here : n dst ≡ m src = rest.outside dst (inl (omega arith)) ∙ update_self m dst (m src) in
    let d : dst + 0 ≡ dst = omega arith in
    let s : src + 0 ≡ src = omega arith in ap n d ∙ here ∙ ap m (sym s)
Copied-suc size dst src m n apart rest (suc j) h =
    let d : dst + suc j ≡ dst + 1 + j = omega arith in
    let s : src + 1 + j ≡ src + suc j = omega arith in
    ap n d
    ∙ rest.inside j (omega arith)
    ∙ update_ne m dst (m src) (src + 1 + j) (omega arith)
    ∙ ap m s

-- Forwards: no byte is written before it is read, where the destination is below the source or apart.
copy_up-Copied :
    (size dst src : ℕ) (m : Mem)
    → (dst ≤ src) ⊎ (src + size ≤ dst)
    → Copied dst src size m (copy_up size dst src m)
unfolding copy_up
copy_up-Copied zero dst src m apart = record {
  inside = λ i h. absurd (omega arith);
  outside = λ a h. refl;
}
copy_up-Copied (suc size) dst src m apart =
    let rest = copy_up-Copied size (dst + 1) (src + 1) (update m dst (m src)) (ground arith) in
    record {
      inside = λ i h. Copied-suc size dst src m _ apart rest i h;
      outside = λ a h. ground (arith, rest.outside a);
    }

copy_down-Copied :
    (size dst src : ℕ) (m : Mem) → (src ≤ dst) → Copied dst src size m (copy_down size dst src m)
unfolding copy_down
copy_down-Copied zero dst src m apart = record {
  inside = λ i h. absurd (omega arith);
  outside = λ a h. refl;
}
copy_down-Copied (suc size) dst src m apart =
    let rest = copy_down-Copied size dst src (update m (dst + size) (m (src + size))) apart in
    record {
      inside = λ i h. grind (arith, rest.inside i, rest.outside (dst + size));
      outside = λ a h. ground (arith, rest.outside a);
    }

-- memcpy () of a block from which the destination is apart, or below which it begins: it returns
-- `dst`, where the block's bytes stand now, and changes no others.
pub memcpy_lem :
    (dst src size : ℕ) (m : Mem)
    → is_block dst size ≡ true
    → is_block src size ≡ true
    → (dst ≤ src) ⊎ (src + size ≤ dst)
    → Returns (λ (p, n). (p ≡ dst) × Copied dst src size m n) (memcpy dst src size m)
unfolding memcpy
memcpy_lem dst src size m d s apart =
    assert-Returns (is_block dst size) _ d
      (assert-Returns (is_block src size) _ s (returns (refl, copy_up-Copied size dst src m apart)))

-- memmove (), wherever the two blocks lie: the destination holds the bytes that the source held, and
-- no others are changed. What it returns is the destination's start only where the source is not
-- above it; else it is the destination's end.
pub memmove_lem :
    (dst src size : ℕ) (m : Mem)
    → is_block dst size ≡ true
    → is_block src size ≡ true
    → Returns
        (λ (p, n). (p ≡ (if ltb dst src then dst + size else dst)) × Copied dst src size m n)
        (memmove dst src size m)
unfolding memmove
memmove_lem dst src size m d s = assert-Returns (is_block dst size) _ d (
    assert-Returns (is_block src size) _ s (elim (Bool-cases (ltb dst src)) [
      | inl below ↦ rw below (returns (refl, copy_up-Copied size dst src m (inl (ground arith))))
      | inr above ↦ rw above (returns (refl, copy_down-Copied size dst src m (ground arith)))
    ]))
