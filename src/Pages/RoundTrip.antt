-- ===== src/Pages/RoundTrip.antt =====
-- threads/palloc.c: pages that are obtained and given back.
use juntos.Prelude.{
  ℕ, ◌+◌, ◌≤◌, ◌<◌, ◌≡◌, refl, ◌∙◌, Bool, true, false, not, Option, some, ◌>>=◌, arith, Returns,
  Returns-of_eq, Returns-mono,
}
use juntos.Strings.Block.{Mem, null}
use juntos.Bitmap.Defs.{Bitmap}
use juntos.Bitmap.Single.{bit, HasWords}
use juntos.Bitmap.Range.{RangeSetTo}
use juntos.Bitmap.Scan.{AllAre}
use juntos.Pages.Defs.{
  Palloc, pal_assert, pal_user, has_flag, pool_of, set_pool, palloc_get_multiple,
  palloc_free_multiple,
}
use juntos.Pages.Get.{
  with_map, with_map-IsPool, Got, taken, refused, panic, palloc_get_multiple_lem,
}
use juntos.Pages.Free.{IsPalloc, IsPalloc-IsPool, page, Freed, freed, palloc_free_multiple_lem}

-- The pools as they were: a page of the pool is free exactly where it was before, and the other pool
-- is the same.
pub record SamePools (user : Bool) (s s' : Palloc) : Type 0 where
  pub pages : (i : ℕ) → bit (pool_of user s').used_map i ≡ bit (pool_of user s).used_map i
  pub base : (pool_of user s').base ≡ (pool_of user s).base
  pub other : pool_of (not user) s' ≡ pool_of (not user) s
  pub palloc : IsPalloc s'

-- Another bitmap for one of the pools.
set_pool-IsPalloc :
    (user : Bool) (s : Palloc) (map : Bitmap) (mem : Mem)
    → IsPalloc s
    → HasWords map
    → map.bit_cnt ≡ (pool_of user s).used_map.bit_cnt
    → IsPalloc (set_pool user (with_map (pool_of user s) map) (record s { mem = mem }))
set_pool-IsPalloc true s map mem is w e = record {
  kernel = is.kernel;
  user = with_map-IsPool s.user_pool map is.user w e;
  apart = is.apart;
}
set_pool-IsPalloc false s map mem is w e = record {
  kernel = with_map-IsPool s.kernel_pool map is.kernel w e;
  user = is.user;
  apart = omega (arith, is.apart, e);
}

set_pool-SamePools :
    (user : Bool) (s : Palloc) (map : Bitmap) (mem : Mem)
    → IsPalloc s
    → HasWords map
    → map.bit_cnt ≡ (pool_of user s).used_map.bit_cnt
    → ((i : ℕ) → bit map i ≡ bit (pool_of user s).used_map i)
    → SamePools user s (set_pool user (with_map (pool_of user s) map) (record s { mem = mem }))
set_pool-SamePools true s map mem is w e same = record {
  pages = same;
  base = refl;
  other = refl;
  palloc = set_pool-IsPalloc true s map mem is w e;
}
set_pool-SamePools false s map mem is w e same = record {
  pages = same;
  base = refl;
  other = refl;
  palloc = set_pool-IsPalloc false s map mem is w e;
}

again :
    (b : Bitmap) (idx cnt : ℕ) (b1 b2 : Bitmap)
    → AllAre b idx cnt false
    → RangeSetTo idx cnt true b b1
    → RangeSetTo idx cnt false b1 b2
    → (i : ℕ) → bit b2 i ≡ bit b i
again b idx cnt b1 b2 free set back i = ground (arith, set.bits i, back.bits i, free i)

taken-all :
    (b : Bitmap) (idx cnt : ℕ) (b1 : Bitmap) → RangeSetTo idx cnt true b b1 → AllAre b1 idx cnt true
taken-all b idx cnt b1 set i l u = ground (arith, set.bits i)

back-SamePools :
    (user : Bool) (s : Palloc) (idx page_cnt : ℕ) (map : Bitmap) (mem : Mem) (s2 : Palloc)
    → IsPalloc s
    → AllAre (pool_of user s).used_map idx page_cnt false
    → RangeSetTo idx page_cnt true (pool_of user s).used_map map
    → Freed user idx page_cnt
        (set_pool user (with_map (pool_of user s) map) (record s { mem = mem }))
        s2
    → SamePools user s s2
back-SamePools true s idx page_cnt map mem _ is free set (freed map2 mem2 back filled) =
    set_pool-SamePools true s map2 mem2 is back.words (back.size ∙ set.size)
      (again s.user_pool.used_map idx page_cnt map map2 free set back)
back-SamePools false s idx page_cnt map mem _ is free set (freed map2 mem2 back filled) =
    set_pool-SamePools false s map2 mem2 is back.words (back.size ∙ set.size)
      (again s.kernel_pool.used_map idx page_cnt map map2 free set back)

free_taken :
    (user : Bool) (s : Palloc) (idx page_cnt : ℕ) (map : Bitmap) (mem : Mem)
    → IsPalloc s
    → 0 < page_cnt
    → idx + page_cnt ≤ (pool_of user s).used_map.bit_cnt
    → AllAre (pool_of user s).used_map idx page_cnt false
    → RangeSetTo idx page_cnt true (pool_of user s).used_map map
    → Returns (SamePools user s) (
        palloc_free_multiple
          (page (pool_of user s) idx)
          page_cnt
          (set_pool user (with_map (pool_of user s) map) (record s { mem = mem })))
free_taken true s idx page_cnt map mem is some_pages h free set =
    Returns-mono
      (palloc_free_multiple_lem (set_pool true (with_map s.user_pool map) (record s { mem = mem }))
        true idx page_cnt (set_pool-IsPalloc true s map mem is set.words set.size) some_pages
        (omega (arith, set.size)) (taken-all s.user_pool.used_map idx page_cnt map set))
      λ s2. back-SamePools true s idx page_cnt map mem s2 is free set
free_taken false s idx page_cnt map mem is some_pages h free set =
    Returns-mono
      (palloc_free_multiple_lem
        (set_pool false (with_map s.kernel_pool map) (record s { mem = mem })) false idx page_cnt
        (set_pool-IsPalloc false s map mem is set.words set.size) some_pages
        (omega (arith, set.size)) (taken-all s.kernel_pool.used_map idx page_cnt map set))
      λ s2. back-SamePools false s idx page_cnt map mem s2 is free set

free-null : (page_cnt : ℕ) (s : Palloc) → palloc_free_multiple null page_cnt s ≡ some s
unfolding palloc_free_multiple
free-null page_cnt s = refl

Got-SamePools :
    (flags page_cnt : ℕ) (user : Bool) (s : Palloc) (o : Option (ℕ × Palloc))
    → IsPalloc s
    → 0 < page_cnt
    → has_flag flags pal_assert ≡ false
    → Got flags page_cnt user s o
    → Returns (SamePools user s) (o >>= λ (pages, s1). palloc_free_multiple pages page_cnt s1)
Got-SamePools flags page_cnt user s _ is some_pages e (taken idx map mem t) =
    free_taken user s idx page_cnt map mem is some_pages t.inside t.were_free t.used_map
Got-SamePools flags page_cnt user s _ is some_pages e (refused all _) =
    let p = pool_of user s in
    let ok = IsPalloc-IsPool s user is in
    Returns-of_eq (free-null page_cnt (set_pool user (with_map p p.used_map) s))
      (set_pool-SamePools user s p.used_map s.mem is ok.words refl λ i. refl)
Got-SamePools flags page_cnt user s _ is some_pages e (panic all e') =
    absurd (ground (arith, e, e'))

-- palloc_get_multiple () without PAL_ASSERT and palloc_free_multiple () of what it gave, NULL
-- included, leave the same pages free as before, in both pools.
pub get-free_lem :
    (flags page_cnt : ℕ) (s : Palloc)
    → IsPalloc s
    → 0 < page_cnt
    → has_flag flags pal_assert ≡ false
    → Returns (SamePools (has_flag flags pal_user) s) (
        palloc_get_multiple flags page_cnt s >>= λ (pages, s1).
        palloc_free_multiple pages page_cnt s1)
get-free_lem flags page_cnt s is some_pages e =
    let user = has_flag flags pal_user in
    Got-SamePools flags page_cnt user s (palloc_get_multiple flags page_cnt s) is some_pages e
      (palloc_get_multiple_lem flags page_cnt s (IsPalloc-IsPool s user is))
