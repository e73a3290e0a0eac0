-- ===== src/Pages/Get.antt =====
-- threads/palloc.c: pages that are obtained.
use juntos.Prelude.{
  ℕ, ◌+◌, ◌-◌, ◌*◌, ◌%◌, ◌^◌, ◌≤◌, ◌<◌, ◌≡◌, refl, ◌∙◌, ap, Bool, true, false, not, Option, none,
  some, ◌==◌, if◌then◌else◌, assert, ◌>>◌, ◌>>=◌, arith, Returns, returns, bind-Returns,
  call-Returns, call_any, subst, sym, Returns-mono, Bool-cases, inl, inr,
}
use juntos.Strings.Block.{Mem, null}
use juntos.Strings.Fill.{Filled, memset_lem}
use juntos.Bitmap.Defs.{Bitmap, bitmap_error}
use juntos.Bitmap.Single.{HasWords}
use juntos.Bitmap.Range.{RangeSetTo}
use juntos.Bitmap.Scan.{
  AllAre, SomeIs, Scanned, group, nothing, Flipped, turned, kept, bitmap_scan_and_flip_lem,
}
use juntos.Pages.Defs.{
  Pool, Palloc, pg_size, pal_assert, pal_zero, pal_user, has_flag, pool_of, set_pool, take_pages,
  pool_acquire, clear_pages, page_at, palloc_get_multiple,
}

-- A pool between two calls: whole pages of memory that end below 2 ^ 64.
pub record IsPool (p : Pool) : Type 0 where
  pub free : p.locked ≡ false
  pub words : HasWords p.used_map
  pub aligned : p.base % 2 ^ 12 ≡ 0
  pub low : 0 < p.base
  pub high : p.base + 2 ^ 12 * p.used_map.bit_cnt < 2 ^ 64

-- The pool behind a call: its lock is free, and its bitmap is `map`.
abbrev pub with_map : Pool → Bitmap → Pool
with_map p map = record p { locked = false; used_map = map }

pub with_map-IsPool :
    (p : Pool) (map : Bitmap)
    → IsPool p
    → HasWords map
    → map.bit_cnt ≡ p.used_map.bit_cnt
    → IsPool (with_map p map)
with_map-IsPool p map is words size = record {
  free = refl;
  words = words;
  aligned = is.aligned;
  low = is.low;
  high = omega (arith, is.high, size);
}

-- The outcome of a search of the pool for `page_cnt` pages that are free.
pub data Searched (p : Pool) (page_cnt : ℕ) : ℕ × Pool → Type 0 where
  found :
      (page_idx : ℕ) (map : Bitmap)
      → page_idx + page_cnt ≤ p.used_map.bit_cnt
      → AllAre p.used_map page_idx page_cnt false
      → RangeSetTo page_idx page_cnt true p.used_map map
      → Searched p page_cnt (page_idx, with_map p map)
  full :
      ((i : ℕ) → i + page_cnt ≤ p.used_map.bit_cnt → SomeIs p.used_map i page_cnt true)
      → Searched p page_cnt (bitmap_error, with_map p p.used_map)

all_found :
    (b : Bitmap) (page_cnt idx : ℕ)
    → idx + page_cnt ≤ b.bit_cnt
    → b.bit_cnt < 2 ^ 64 - 1
    → Scanned b 0 page_cnt false idx
    → AllAre b idx page_cnt false
all_found b page_cnt _ u small (group idx l _ all before) = all
all_found b page_cnt _ u small (nothing never) = absurd (omega arith)

none_free :
    (b : Bitmap) (page_cnt idx : ℕ)
    → idx ≡ bitmap_error
    → b.bit_cnt < 2 ^ 64 - 1
    → Scanned b 0 page_cnt false idx
    → (i : ℕ) → i + page_cnt ≤ b.bit_cnt
    → SomeIs b i page_cnt true
none_free b page_cnt _ e small (group idx l u all before) = absurd (omega arith)
none_free b page_cnt _ e small (nothing never) = λ i h. never i (omega arith) h

flipped-Returns :
    (p : Pool) (page_cnt idx : ℕ) (map : Bitmap)
    → IsPool p
    → Flipped p.used_map 0 page_cnt false (idx, map)
    → Searched p page_cnt (idx, with_map p map)
flipped-Returns p page_cnt _ _ is (turned idx map scanned u set) =
    found idx map u (all_found p.used_map page_cnt idx u (omega (arith, is.high, is.low)) scanned)
      set
flipped-Returns p page_cnt _ _ is (kept scanned) =
    full (none_free p.used_map page_cnt bitmap_error refl (omega (arith, is.high, is.low)) scanned)

pub acquire-eq : (p : Pool) → p.locked ≡ false → pool_acquire p ≡ some (record p { locked = true })
acquire-eq p e = ap (λ l. do assert (not l); some (record p { locked = true })) e

pub take_pages-Returns :
    (p : Pool) (page_cnt : ℕ) → IsPool p → Returns (Searched p page_cnt) (take_pages p page_cnt)
unfolding take_pages
take_pages-Returns p page_cnt is =
    bind-Returns _ (record p { locked = true }) (acquire-eq p is.free)
      (call-Returns _
        (bitmap_scan_and_flip_lem p.used_map 0 page_cnt false is.words
          (omega (arith, is.high, is.low)) (omega arith))
        λ (idx, map) flipped. returns (flipped-Returns p page_cnt idx map is flipped))

-- The pages hold zeros where PAL_ZERO is set, and what they held before else; the rest of the memory
-- is as it was.
abbrev pub Cleared : (flags pages page_cnt : ℕ) → (m n : Mem) → Type 0
Cleared flags pages page_cnt m n =
    if has_flag flags pal_zero then Filled pages 0 (pg_size * page_cnt) m n else (n ≡ m)

clear_pages-Returns :
    (flags pages page_cnt : ℕ) (s : Palloc)
    → 0 < pages
    → pg_size * page_cnt < 2 ^ 64
    → Returns
        (λ s'. (s' ≡ record s { mem = s'.mem }) × Cleared flags pages page_cnt s.mem s'.mem)
        (clear_pages flags pages page_cnt s)
unfolding clear_pages
clear_pages-Returns flags pages page_cnt s h small = elim (Bool-cases (has_flag flags pal_zero)) [
  | inl e ↦
      let whole : pg_size * page_cnt % 2 ^ 64 ≡ pg_size * page_cnt = omega arith in
      rw (e, whole)
        (call-Returns _ (memset_lem pages 0 (pg_size * page_cnt) s.mem (ground arith))
          λ (p, n) (_, filled). returns (refl, filled))
  | inr e ↦ rw e (returns (refl, refl))
]

-- `page_cnt` pages of a pool that were free are taken, and no others.
pub record Taken (flags page_cnt : ℕ) (p : Pool) (idx : ℕ) (map : Bitmap) (m n : Mem) : Type 0 where
  pub inside : idx + page_cnt ≤ p.used_map.bit_cnt
  pub were_free : AllAre p.used_map idx page_cnt false
  pub used_map : RangeSetTo idx page_cnt true p.used_map map
  pub mem : Cleared flags (p.base + pg_size * idx) page_cnt m n

-- No run of `page_cnt` pages of the pool is free.
abbrev pub IsFull : (page_cnt : ℕ) → Pool → Type 0
IsFull page_cnt p = (i : ℕ) → i + page_cnt ≤ p.used_map.bit_cnt → SomeIs p.used_map i page_cnt true

-- What palloc_get_multiple () does.
pub data Got (flags page_cnt : ℕ) (user : Bool) (s : Palloc) : Option (ℕ × Palloc) → Type 0 where
  taken :
      (idx : ℕ) (map : Bitmap) (mem : Mem)
      → Taken flags page_cnt (pool_of user s) idx map s.mem mem
      → Got flags page_cnt user s (
          some (
            (pool_of user s).base + pg_size * idx,
            set_pool user (with_map (pool_of user s) map) (record s { mem = mem }),
          ))
  refused :
      IsFull page_cnt (pool_of user s)
      → has_flag flags pal_assert ≡ false
      → Got flags page_cnt user s
          (some (null, set_pool user (with_map (pool_of user s) (pool_of user s).used_map) s))
  panic :
      IsFull page_cnt (pool_of user s)
      → has_flag flags pal_assert ≡ true
      → Got flags page_cnt user s none

pub page_at-eq :
    (p : Pool) (idx : ℕ)
    → IsPool p
    → idx ≤ p.used_map.bit_cnt
    → page_at p idx ≡ p.base + pg_size * idx
page_at-eq p idx is h = omega (arith, is.high)

set_mem-eq :
    (user : Bool) (p : Pool) (s : Palloc) (mem : Mem)
    → record (set_pool user p s) { mem = mem } ≡ set_pool user p (record s { mem = mem })
set_mem-eq true p s mem = refl
set_mem-eq false p s mem = refl

set_pool-mem : (user : Bool) (p : Pool) (s : Palloc) → (set_pool user p s).mem ≡ s.mem
set_pool-mem true p s = refl
set_pool-mem false p s = refl

found-Got :
    (flags page_cnt idx : ℕ) (map : Bitmap) (user : Bool) (s : Palloc)
    → IsPool (pool_of user s)
    → idx + page_cnt ≤ (pool_of user s).used_map.bit_cnt
    → AllAre (pool_of user s).used_map idx page_cnt false
    → RangeSetTo idx page_cnt true (pool_of user s).used_map map
    → Returns
        (λ s'. Got flags page_cnt user s (some ((pool_of user s).base + pg_size * idx, s')))
        (clear_pages flags
          ((pool_of user s).base + pg_size * idx)
          page_cnt
          (set_pool user (with_map (pool_of user s) map) s))
found-Got flags page_cnt idx map user s is inside free set =
    let old = set_pool user (with_map (pool_of user s) map) s in
    let at = (pool_of user s).base + pg_size * idx in
    Returns-mono
      (clear_pages-Returns flags at page_cnt old (omega (arith, is.low))
        (omega (arith, is.high, is.low)))
      λ s' (e, cleared).
        subst (λ t. Got flags page_cnt user s (some (at, t))) (sym (e ∙ set_mem-eq user _ s s'.mem))
          (taken idx map s'.mem (record {
            inside = inside;
            were_free = free;
            used_map = set;
            mem = subst (λ m. Cleared flags at page_cnt m s'.mem) (set_pool-mem user _ s) cleared;
          }))

-- palloc_get_multiple () after the search.
after : (flags page_cnt : ℕ) (user : Bool) → Palloc → ℕ × Pool → Option (ℕ × Palloc)
after flags page_cnt user s (idx, p) =
    let pages = if idx == bitmap_error then null else page_at p idx in
    if pages == null
    then (do assert (not (has_flag flags pal_assert)); some (null, set_pool user p s))
    else (do s'' ← clear_pages flags pages page_cnt (set_pool user p s); some (pages, s''))

after-Got :
    (flags page_cnt : ℕ) (user : Bool) (s : Palloc) (r : ℕ × Pool)
    → IsPool (pool_of user s)
    → Searched (pool_of user s) page_cnt r
    → Got flags page_cnt user s (after flags page_cnt user s r)
unfolding after
after-Got flags page_cnt user s _ is (full all) = elim (Bool-cases (has_flag flags pal_assert)) [
  | inl e ↦ rw e (panic all e)
  | inr e ↦ rw e (refused all e)
]
after-Got flags page_cnt user s _ is (found idx map inside free set) =
    let p = pool_of user s in
    let q = with_map p map in
    let valid : (idx == bitmap_error) ≡ false = ground (arith, is.high, is.low) in
    let at : page_at q idx ≡ p.base + pg_size * idx = omega (arith, is.high) in
    let set_address : (p.base + pg_size * idx == null) ≡ false = ground (arith, is.low) in
    rw (valid, at, set_address)
      (call_any (Got flags page_cnt user s) _
        (found-Got flags page_cnt idx map user s is inside free set) λ s' got. got)

-- palloc_get_multiple (), from a pool of whole pages whose lock is free, takes `page_cnt` pages next
-- to each other that were free, cleared where PAL_ZERO is set, and changes no other page, nor the
-- other pool. Where each run of so many pages has a used one, it gives NULL and the pools stay as
-- they were, or it panics, where PAL_ASSERT is set.
pub palloc_get_multiple_lem :
    (flags page_cnt : ℕ) (s : Palloc)
    → IsPool (pool_of (has_flag flags pal_user) s)
    → Got flags page_cnt (has_flag flags pal_user) s (palloc_get_multiple flags page_cnt s)
unfolding palloc_get_multiple after
palloc_get_multiple_lem flags page_cnt s is =
    let user = has_flag flags pal_user in
    call_any (Got flags page_cnt user s) (after flags page_cnt user s)
      (take_pages-Returns (pool_of user s) page_cnt is)
      λ r searched. after-Got flags page_cnt user s r is searched
