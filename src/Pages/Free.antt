-- ===== src/Pages/Free.antt =====
-- threads/palloc.c: pages that are given back.
use juntos.Prelude.{
  ℕ, ◌+◌, ◌*◌, ◌%◌, ◌^◌, ◌≤◌, ◌<◌, ◌≡◌, refl, sym, ap, Bool, true, false, not, ◌||◌, ◌>>=◌, Option,
  none, some, ◌==◌, arith, Returns, returns, bind-Returns, call-Returns, call_any, bind_any,
  bind-none, assert_any, else_any, assert-none, assert-Returns, subst,
}
use juntos.Strings.Block.{Mem, null, is_block}
use juntos.Strings.Fill.{Filled, memset_lem}
use juntos.Bitmap.Defs.{Bitmap, bitmap_all}
use juntos.Bitmap.Range.{RangeSetTo, bitmap_set_multiple_lem}
use juntos.Bitmap.Scan.{AllAre, SomeIs, Answers, yes, no, bitmap_contains_lem}
use juntos.Pages.Defs.{
  Pool, Palloc, pg_size, pg_ofs, pool_of, set_pool, owner, give_back, palloc_free_multiple,
}
use juntos.Pages.Get.{IsPool, with_map, acquire-eq}

-- The two pools, the user's above the kernel's.
pub record IsPalloc (s : Palloc) : Type 0 where
  pub kernel : IsPool s.kernel_pool
  pub user : IsPool s.user_pool
  pub apart : s.kernel_pool.base + 2 ^ 12 * s.kernel_pool.used_map.bit_cnt ≤ s.user_pool.base

pub IsPalloc-IsPool : (s : Palloc) (user : Bool) → IsPalloc s → IsPool (pool_of user s)
IsPalloc-IsPool s true is = is.user
IsPalloc-IsPool s false is = is.kernel

-- The page `idx` of a pool.
abbrev pub page : Pool → (idx : ℕ) → ℕ
page p idx = p.base + pg_size * idx

owner-eq :
    (s : Palloc) (user : Bool) (idx : ℕ)
    → IsPalloc s
    → idx < (pool_of user s).used_map.bit_cnt
    → owner s (page (pool_of user s) idx) ≡ some user
unfolding owner
owner-eq s true idx is h = ground (arith, is.kernel.aligned, is.user.aligned, is.apart)
owner-eq s false idx is h = ground (arith, is.kernel.aligned)

-- bitmap_all () where all the bits are set, and where one is not.
all-answer :
    (b : Bitmap) (start cnt : ℕ) (found : Bool)
    → AllAre b start cnt true
    → Answers b start cnt false found
    → found ≡ false
all-answer b start cnt _ all (yes (i, l, u, is)) = absurd (ground (arith, all i l u))
all-answer b start cnt _ all (no _) = refl

one_free-answer :
    (b : Bitmap) (start cnt : ℕ) (found : Bool)
    → SomeIs b start cnt false
    → Answers b start cnt false found
    → found ≡ true
one_free-answer b start cnt _ free (yes _) = refl
one_free-answer b start cnt _ (i, l, u, is) (no all) = absurd (ground (arith, all i l u))

bitmap_all-eq :
    (b : Bitmap) (start cnt : ℕ)
    → b.bit_cnt < 2 ^ 64
    → start + cnt ≤ b.bit_cnt
    → AllAre b start cnt true
    → Returns (λ r. r ≡ true) (bitmap_all b start cnt)
unfolding bitmap_all
bitmap_all-eq b start cnt small h all =
    call-Returns _ (bitmap_contains_lem b start cnt false small h)
      λ found answer. returns (ap not (all-answer b start cnt found all answer))

bitmap_all-one_free :
    (b : Bitmap) (start cnt : ℕ)
    → b.bit_cnt < 2 ^ 64
    → start + cnt ≤ b.bit_cnt
    → SomeIs b start cnt false
    → Returns (λ r. r ≡ false) (bitmap_all b start cnt)
unfolding bitmap_all
bitmap_all-one_free b start cnt small h free =
    call-Returns _ (bitmap_contains_lem b start cnt false small h)
      λ found answer. returns (ap not (one_free-answer b start cnt found free answer))

-- The pool with the pages free again.
pub record GivenBack (p : Pool) (idx page_cnt : ℕ) (p' : Pool) : Type 0 where
  pub map : Bitmap
  pub set : RangeSetTo idx page_cnt false p.used_map map
  pub pool : p' ≡ with_map p map

give_back-Returns :
    (p : Pool) (idx page_cnt : ℕ)
    → IsPool p
    → idx + page_cnt ≤ p.used_map.bit_cnt
    → AllAre p.used_map idx page_cnt true
    → Returns (GivenBack p idx page_cnt) (give_back p idx page_cnt)
unfolding give_back
give_back-Returns p idx page_cnt is h all =
    let small : p.used_map.bit_cnt < 2 ^ 64 = omega (arith, is.high) in
    bind-Returns _ (record p { locked = true }) (acquire-eq p is.free)
      (call-Returns _ (bitmap_all-eq p.used_map idx page_cnt small h all) λ used e.
        assert-Returns used _ e (
          call-Returns _ (bitmap_set_multiple_lem p.used_map idx page_cnt false is.words small h)
            λ map set. returns (record { map = map; set = set; pool = refl })))

give_back-none :
    (p : Pool) (idx page_cnt : ℕ)
    → IsPool p
    → idx + page_cnt ≤ p.used_map.bit_cnt
    → SomeIs p.used_map idx page_cnt false
    → give_back p idx page_cnt ≡ none
unfolding give_back
give_back-none p idx page_cnt is h free =
    bind_any (λ o. o ≡ none) _ (record p { locked = true }) (acquire-eq p is.free)
      (call_any (λ o. o ≡ none) _
        (bitmap_all-one_free p.used_map idx page_cnt (omega (arith, is.high)) h free)
        λ used e. assert-none used _ e)

-- What palloc_free_multiple () of the pages of a pool leaves: they are free and hold 0xcc.
pub data Freed (user : Bool) (idx page_cnt : ℕ) (s : Palloc) : Palloc → Type 0 where
  freed :
      (map : Bitmap) (mem : Mem)
      → RangeSetTo idx page_cnt false (pool_of user s).used_map map
      → Filled (page (pool_of user s) idx) 204 (pg_size * page_cnt) s.mem mem
      → Freed user idx page_cnt s
          (set_pool user (with_map (pool_of user s) map) (record s { mem = mem }))

-- The call, from the place where the pool is known.
module _ (G : Option Palloc → Type 0) (s : Palloc) (user : Bool) (idx page_cnt : ℕ) where
  put : Mem → Pool → Option Palloc
  put mem p' = some (set_pool user p' (record s { mem = mem }))

  free_steps :
      IsPalloc s
      → 0 < page_cnt
      → idx + page_cnt ≤ (pool_of user s).used_map.bit_cnt
      → ((mem : Mem)
          → Filled (page (pool_of user s) idx) 204 (pg_size * page_cnt) s.mem mem
          → G (do
            p' ← give_back (pool_of user s) idx page_cnt
            some (set_pool user p' (record s { mem = mem }))))
      → G (palloc_free_multiple (page (pool_of user s) idx) page_cnt s)
  unfolding palloc_free_multiple put
  free_steps is some_pages h k =
      let p = pool_of user s in
      let ok = IsPalloc-IsPool s user is in
      let at = page p idx in
      let whole : pg_size * page_cnt % 2 ^ 64 ≡ pg_size * page_cnt = omega (arith, ok.high) in
      let block : is_block at (pg_size * page_cnt % 2 ^ 64) ≡ true = ground (arith, ok.low) in
      assert_any G (pg_ofs at == 0) _ (ground (arith, ok.aligned)) (
        else_any G (at == null || page_cnt == 0) _ _ (ground (arith, ok.low)) (
          bind_any G _ user (owner-eq s user idx is (omega arith)) (
            call_any G _ (memset_lem at 204 (pg_size * page_cnt % 2 ^ 64) s.mem block)
              λ (_, mem) (_, filled).
                subst (λ i. G (give_back p i page_cnt >>= put mem)) (omega (arith, ok.aligned))
                  (k mem (subst (λ n. Filled at 204 n s.mem mem) whole filled)))))

-- palloc_free_multiple () of pages of a pool that are all in use makes them free and fills them with
-- 0xcc; no other page is changed, nor the other pool.
pub palloc_free_multiple_lem :
    (s : Palloc) (user : Bool) (idx page_cnt : ℕ)
    → IsPalloc s
    → 0 < page_cnt
    → idx + page_cnt ≤ (pool_of user s).used_map.bit_cnt
    → AllAre (pool_of user s).used_map idx page_cnt true
    → Returns
        (Freed user idx page_cnt s)
        (palloc_free_multiple (page (pool_of user s) idx) page_cnt s)
unfolding put
palloc_free_multiple_lem s user idx page_cnt is some_pages h all =
    free_steps (Returns (Freed user idx page_cnt s)) s user idx page_cnt is some_pages h
      λ mem filled.
        call-Returns _
          (give_back-Returns (pool_of user s) idx page_cnt (IsPalloc-IsPool s user is) h all)
          λ p' back. returns (
            subst (λ q. Freed user idx page_cnt s (set_pool user q (record s { mem = mem })))
              (sym back.pool) (freed back.map mem back.set filled))

-- palloc_free_multiple () of pages of a pool of which one is free already is a kernel panic.
pub palloc_free_multiple-free :
    (s : Palloc) (user : Bool) (idx page_cnt : ℕ)
    → IsPalloc s
    → 0 < page_cnt
    → idx + page_cnt ≤ (pool_of user s).used_map.bit_cnt
    → SomeIs (pool_of user s).used_map idx page_cnt false
    → palloc_free_multiple (page (pool_of user s) idx) page_cnt s ≡ none
unfolding put
palloc_free_multiple-free s user idx page_cnt is some_pages h free =
    free_steps (λ o. o ≡ none) s user idx page_cnt is some_pages h
      λ mem filled.
        bind-none _
          (give_back-none (pool_of user s) idx page_cnt (IsPalloc-IsPool s user is) h free)
