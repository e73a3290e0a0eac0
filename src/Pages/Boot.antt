-- ===== src/Pages/Boot.antt =====
-- threads/palloc.c: the pools that palloc_init () makes of the memory map. `words` is what stands in
-- memory: the elements from an address on. Sums and differences are on 64 bits.
use juntos.Prelude.{
  ℕ, zero, suc, ◌+◌, ◌-◌, ◌*◌, ◌/◌, ◌%◌, ◌^◌, Bool, true, false, not, ◌&&◌, ◌||◌, Option, none,
  some, ◌==◌, ltb, leb, if◌then◌else◌, assert, ◌>>◌, ◌>>=◌, List, [], ◌∷◌,
}
use juntos.Bitmap.Defs.{
  bitmap_size, bitmap_buf_size, bitmap_create_in_buf, bitmap_set_all, bitmap_set_multiple,
}
use juntos.Strings.Block.{Mem}
use juntos.Pages.Defs.{Pool, Palloc, pg_size, pg_no, pg_round_up, pool_of, set_pool, owner}

pub record E820Entry : Type 0 where
  pub mem_lo : ℕ
  pub mem_hi : ℕ
  pub len_lo : ℕ
  pub len_hi : ℕ
  pub kind : ℕ

pub record Area : Type 0 where
  pub start : ℕ
  pub end : ℕ
  pub size : ℕ

abbrev pub append_hilo : (hi lo : ℕ) → ℕ
append_hilo hi lo = hi * 2 ^ 32 + lo

abbrev pub entry_start : E820Entry → ℕ
entry_start e = append_hilo e.mem_hi e.mem_lo

abbrev pub entry_size : E820Entry → ℕ
entry_size e = append_hilo e.len_hi e.len_lo

abbrev pub base_mem_threshold : ℕ
base_mem_threshold = 2 ^ 20

abbrev pub kern_base : ℕ
kern_base = 549822922752

abbrev pub ptov : ℕ → ℕ
ptov paddr = (paddr + kern_base) % 2 ^ 64

abbrev pub minus64 : ℕ → ℕ → ℕ
minus64 a b = (a + 2 ^ 64 - b) % 2 ^ 64

unfoldable pub extend_area : (start size : ℕ) → Area → Area
extend_area start size area =
    let end = (start + size) % 2 ^ 64 in
    if area.size == 0 then record { start = start; end = end; size = size } else record {
      start = if ltb start area.start then start else area.start;
      end = if ltb area.end end then end else area.end;
      size = (area.size + size) % 2 ^ 64;
    }

-- base_mem and ext_mem; the test of the type holds of every entry.
unfoldable pub resolve_entry : E820Entry → Area × Area → Area × Area
unfolding extend_area
resolve_entry e (base_mem, ext_mem) =
    if ltb (entry_start e) base_mem_threshold
    then (extend_area (entry_start e) (entry_size e) base_mem, ext_mem)
    else (base_mem, extend_area (entry_start e) (entry_size e) ext_mem)

unfoldable pub resolve_area_info : List E820Entry → Area × Area → Area × Area
unfolding resolve_entry
resolve_area_info [] areas = areas
resolve_area_info (e ∷ entries) areas = resolve_area_info entries (resolve_entry e areas)

-- The pool, and the new bm_base.
unfoldable pub init_pool : (words : ℕ → ℕ → ℕ) → (bm_base start end : ℕ) → Option (Pool × ℕ)
unfolding bitmap_create_in_buf bitmap_set_all
init_pool words bm_base start end = do
  let pgcnt = minus64 end start / pg_size
  let bm_pages = (bitmap_buf_size pgcnt + pg_size - 1) / pg_size * pg_size
  clear ← bitmap_create_in_buf pgcnt bm_pages (words bm_base)
  used ← bitmap_set_all clear true
  some (record { locked = false; used_map = used; base = start }, bm_base + bm_pages)

pub data Region : Type 0 where
  kern_start : Region
  kern : Region
  user_start : Region
  user : Region

-- The local variables of the loop of populate_pools () and the kernel pool, where it is made.
pub record Claim : Type 0 where
  pub state : Region
  pub rem : ℕ
  pub region_start : ℕ
  pub end : ℕ
  pub free_start : ℕ
  pub kernel_pool : Option Pool

abbrev pub is_usable : E820Entry → Bool
is_usable e = e.kind == 2 || e.kind == 1

-- case KERN
unfoldable pub claim_kern :
    (words : ℕ → ℕ → ℕ) → (user_pages start size_in_pg : ℕ) → Claim → Option Claim
unfolding init_pool
claim_kern words user_pages start size_in_pg c =
    if ltb size_in_pg c.rem then some (record c { rem = c.rem - size_in_pg }) else (do
      let split = (start + c.rem * pg_size) % 2 ^ 64
      (pool, free_start) ← init_pool words c.free_start c.region_start split
      let c' = record c { free_start = free_start; kernel_pool = some pool }
      some (
          if c.rem == size_in_pg
          then record c' { rem = user_pages; state = user_start }
          else record c' {
            region_start = split;
            rem = (minus64 user_pages size_in_pg + c.rem) % 2 ^ 64;
            state = user;
          }))

-- case USER: `size` is in bytes.
unfoldable pub claim_user : (size size_in_pg : ℕ) → Claim → Option Claim
claim_user size size_in_pg c =
    if ltb size_in_pg c.rem
    then some (record c { rem = c.rem - size_in_pg })
    else (do assert (c.rem == size); some c)

unfoldable pub claim_entry :
    (words : ℕ → ℕ → ℕ) → (user_pages : ℕ) → E820Entry → Claim → Option Claim
unfolding claim_kern claim_user
claim_entry words user_pages e c =
    let start = ptov (entry_start e) in
    let size = entry_size e in
    let c1 = record c { end = (start + size) % 2 ^ 64 } in
    if is_usable e
    then elim c1.state [
      | kern_start ↦
          claim_kern words user_pages start (size / pg_size)
            (record c1 { region_start = start; state = kern })
      | kern ↦ claim_kern words user_pages start (size / pg_size) c1
      | user_start ↦ some (record c1 { region_start = start; state = user })
      | user ↦ claim_user size (size / pg_size) c1
    ]
    else some c

unfoldable pub claim_entries :
    (words : ℕ → ℕ → ℕ) → (user_pages : ℕ) → List E820Entry → Claim → Option Claim
unfolding claim_entry
claim_entries words user_pages [] c = some c
claim_entries words user_pages (e ∷ entries) c = do
  c' ← claim_entry words user_pages e c
  claim_entries words user_pages entries c'

-- From `split` on: the pages from `start` to `end` are marked as free, in `rounds` pools at most.
unfoldable pub free_range : (rounds start end : ℕ) → Palloc → Option Palloc
unfolding owner bitmap_set_multiple
free_range zero start end s = none
free_range (suc rounds) start end s = do
  in_user ← owner s start
  let p = pool_of in_user s
  let pool_end = (p.base + bitmap_size p.used_map * pg_size) % 2 ^ 64
  let stop = if ltb pool_end end then pool_end else end
  used_map ←
      bitmap_set_multiple p.used_map (pg_no start - pg_no p.base) (minus64 stop start / pg_size)
        false
  let s' = set_pool in_user (record p { used_map = used_map }) s
  (if ltb pool_end end then free_range rounds pool_end end s' else some s')

-- Three rounds are enough: behind the end of the user pool, there is no pool.
unfoldable pub free_entries : (usable_bound : ℕ) → List E820Entry → Palloc → Option Palloc
unfolding free_range
free_entries usable_bound [] s = some s
free_entries usable_bound (e ∷ entries) s =
    let start = ptov (entry_start e) in
    let end = (start + entry_size e) % 2 ^ 64 in
    let from = pg_round_up (if leb usable_bound start then start else usable_bound) in
    if is_usable e && not (ltb end usable_bound)
    then (do s' ← free_range 3 from end s; free_entries usable_bound entries s')
    else free_entries usable_bound entries s

-- `kernel_end` is the address of _end. Where no kernel pool has been made, the code goes on with a null
-- pointer for its bitmap; here that is none.
unfoldable pub populate_pools :
    (words : ℕ → ℕ → ℕ)
    → (kernel_end user_page_limit : ℕ) → List E820Entry
    → Mem
    → Area × Area
    → Option Palloc
unfolding claim_entries init_pool free_entries
populate_pools words kernel_end user_page_limit entries mem (base_mem, ext_mem) = do
  let total_pages = (base_mem.size + ext_mem.size) % 2 ^ 64 / pg_size
  let user_pages =
      if ltb user_page_limit (total_pages / 2) then user_page_limit else total_pages / 2
  c ← claim_entries words user_pages entries (record {
    state = kern_start;
    rem = total_pages - user_pages;
    region_start = 0;
    end = 0;
    free_start = pg_round_up kernel_end;
    kernel_pool = none;
  })
  (user_pool, usable_bound) ← init_pool words c.free_start c.region_start c.end
  kernel_pool ← c.kernel_pool
  free_entries usable_bound entries
      (record { kernel_pool = kernel_pool; user_pool = user_pool; mem = mem })

abbrev pub no_area : Area
no_area = record { start = 0; end = 0; size = 0 }

-- The pools, and the end of the memory, which is returned.
unfoldable pub palloc_init :
    (words : ℕ → ℕ → ℕ)
    → (kernel_end user_page_limit : ℕ) → List E820Entry
    → Mem
    → Option (ℕ × Palloc)
unfolding resolve_area_info populate_pools
palloc_init words kernel_end user_page_limit entries mem = do
  let areas = resolve_area_info entries (no_area, no_area)
  s ← populate_pools words kernel_end user_page_limit entries mem areas
  some (areas.1.end, s)
