-- ===== src/Pages/Defs.antt =====
-- threads/palloc.c and include/threads/vaddr.h: the two pools of pages over their bitmaps, and the
-- memory that the pages are. none is a failed ASSERT, a PANIC, or a lock that is not free.
use Prim.Native.Nat.{bit_and}
use juntos.Prelude.{
  ℕ, ◌+◌, ◌-◌, ◌*◌, ◌/◌, ◌%◌, ◌^◌, Bool, true, false, not, ◌&&◌, ◌||◌, Option, none, some, ◌==◌,
  ltb, leb, if◌then◌else◌, assert, ◌>>◌, ◌>>=◌,
}
use juntos.Bitmap.Defs.{
  Bitmap, bitmap_size, bitmap_error, bitmap_all, bitmap_set_multiple, bitmap_scan_and_flip,
}
use juntos.Strings.Block.{Mem, null, memset}

abbrev pub pg_size : ℕ
pg_size = 2 ^ 12

-- va & PGMASK
abbrev pub pg_ofs : ℕ → ℕ
pg_ofs va = va % 2 ^ 12

-- va >> PGBITS
abbrev pub pg_no : ℕ → ℕ
pg_no va = va / 2 ^ 12

-- On 64 bits; & ~PGMASK takes the offset off.
abbrev pub pg_round_up : ℕ → ℕ
pg_round_up va = let sum = (va + pg_size - 1) % 2 ^ 64 in sum - pg_ofs sum

-- `locked` says whether the pool's lock is held.
pub record Pool : Type 0 where
  pub locked : Bool
  pub used_map : Bitmap
  pub base : ℕ

-- The memory of the pages, and the pools.
pub record Palloc : Type 0 where
  pub kernel_pool : Pool
  pub user_pool : Pool
  pub mem : Mem

-- The enumerators of enum palloc_flags.
abbrev pub pal_assert : ℕ
pal_assert = 1

abbrev pub pal_zero : ℕ
pal_zero = 2

abbrev pub pal_user : ℕ
pal_user = 4

abbrev pub has_flag : (flags flag : ℕ) → Bool
has_flag flags flag = not (bit_and flags flag == 0)

abbrev pub pool_acquire : Pool → Option Pool
pool_acquire p = do assert (not p.locked); some (record p { locked = true })

abbrev pub pool_release : Pool → Option Pool
pool_release p = do assert p.locked; some (record p { locked = false })

-- The pool that a flag or an address chooses: the user pool, or else the kernel's.
abbrev pub pool_of : (user : Bool) → Palloc → Pool
pool_of true s = s.user_pool
pool_of false s = s.kernel_pool

abbrev pub set_pool : (user : Bool) → Pool → Palloc → Palloc
set_pool true p s = record s { user_pool = p }
set_pool false p s = record s { kernel_pool = p }

abbrev pub page_from_pool : Pool → (page : ℕ) → Bool
page_from_pool p page =
    let start_page = pg_no p.base in
    leb start_page (pg_no page) && ltb (pg_no page) (start_page + bitmap_size p.used_map)

-- Pointer arithmetic on 64 bits
abbrev pub page_at : Pool → (page_idx : ℕ) → ℕ
page_at p page_idx = (p.base + pg_size * page_idx % 2 ^ 64) % 2 ^ 64

-- lock_acquire (), the scan, and lock_release ()
unfoldable pub take_pages : Pool → (page_cnt : ℕ) → Option (ℕ × Pool)
unfolding bitmap_scan_and_flip
take_pages p page_cnt = do
  p1 ← pool_acquire p
  (page_idx, used_map) ← bitmap_scan_and_flip p1.used_map 0 page_cnt false
  p2 ← pool_release (record p1 { used_map = used_map })
  some (page_idx, p2)

unfoldable pub clear_pages : (flags pages page_cnt : ℕ) → Palloc → Option Palloc
unfolding memset
clear_pages flags pages page_cnt s =
    if has_flag flags pal_zero
    then (do
      (_, mem) ← memset pages 0 (pg_size * page_cnt % 2 ^ 64) s.mem
      some (record s { mem = mem }))
    else some s

unfoldable pub palloc_get_multiple : (flags page_cnt : ℕ) → Palloc → Option (ℕ × Palloc)
unfolding take_pages clear_pages
palloc_get_multiple flags page_cnt s = do
  let user = has_flag flags pal_user
  (page_idx, p) ← take_pages (pool_of user s) page_cnt
  let pages = if page_idx == bitmap_error then null else page_at p page_idx
  let s' = set_pool user p s
  (if pages == null
      then (do assert (not (has_flag flags pal_assert)); some (null, s'))
      else (do s'' ← clear_pages flags pages page_cnt s'; some (pages, s'')))

unfoldable pub palloc_get_page : (flags : ℕ) → Palloc → Option (ℕ × Palloc)
unfolding palloc_get_multiple
palloc_get_page flags s = palloc_get_multiple flags 1 s

-- NOT_REACHED () where neither pool has the page
unfoldable pub owner : Palloc → (pages : ℕ) → Option Bool
owner s pages =
    if page_from_pool s.kernel_pool pages
    then some false
    else if page_from_pool s.user_pool pages
    then some true
    else none

unfoldable pub give_back : Pool → (page_idx page_cnt : ℕ) → Option Pool
unfolding bitmap_all bitmap_set_multiple
give_back p page_idx page_cnt = do
  p1 ← pool_acquire p
  used ← bitmap_all p1.used_map page_idx page_cnt
  assert used
  used_map ← bitmap_set_multiple p1.used_map page_idx page_cnt false
  pool_release (record p1 { used_map = used_map })

unfoldable pub palloc_free_multiple : (pages page_cnt : ℕ) → Palloc → Option Palloc
unfolding owner give_back memset
palloc_free_multiple pages page_cnt s = do
  assert (pg_ofs pages == 0)
  (if pages == null || page_cnt == 0 then some s else (do
    user ← owner s pages
    (_, mem) ← memset pages 204 (pg_size * page_cnt % 2 ^ 64) s.mem
    let p = pool_of user s
    p' ← give_back p (pg_no pages - pg_no p.base) page_cnt
    some (set_pool user p' (record s { mem = mem }))))

unfoldable pub palloc_free_page : (page : ℕ) → Palloc → Option Palloc
unfolding palloc_free_multiple
palloc_free_page page s = palloc_free_multiple page 1 s
