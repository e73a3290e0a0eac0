-- ===== src/Pages/Init.antt =====
-- threads/palloc.c: the pools as they are made.
use juntos.Prelude.{
  ℕ, ◌+◌, ◌-◌, ◌*◌, ◌/◌, ◌%◌, ◌^◌, ◌≤◌, ◌<◌, ◌≡◌, refl, true, arith, Returns, returns, call-Returns,
}
use juntos.Bitmap.Defs.{bitmap_buf_size, bitmap_set_all}
use juntos.Bitmap.Range.{bitmap_create_in_buf_lem, bitmap_set_multiple_lem}
use juntos.Bitmap.Scan.{AllAre}
use juntos.Pages.Defs.{Pool, pg_size}
use juntos.Pages.Get.{IsPool}
use juntos.Pages.Boot.{init_pool, minus64}

-- A pool of the whole pages between two addresses, with no page free, and the address behind the
-- bitmap, at a page's start again.
pub record Made (bm_base start end : ℕ) (p : Pool) (next : ℕ) : Type 0 where
  pub pool : IsPool p
  pub base : p.base ≡ start
  pub pages : p.used_map.bit_cnt ≡ (end - start) / 2 ^ 12
  pub used : AllAre p.used_map 0 p.used_map.bit_cnt true
  pub aligned : next % 2 ^ 12 ≡ bm_base % 2 ^ 12
  pub behind : bm_base + bitmap_buf_size p.used_map.bit_cnt ≤ next

-- init_pool () of a range of memory that starts at a page makes a pool of its whole pages, all of
-- them used for now, and moves bm_base over the pages that the bitmap takes.
pub init_pool_lem :
    (words : ℕ → ℕ → ℕ) (bm_base start end : ℕ)
    → ((i : ℕ) → words bm_base i < 2 ^ 64)
    → 0 < start
    → start % 2 ^ 12 ≡ 0
    → start ≤ end
    → end < 2 ^ 64
    → Returns (λ (p, next). Made bm_base start end p next) (init_pool words bm_base start end)
unfolding init_pool bitmap_set_all
init_pool_lem words bm_base start end w low aligned h small =
    let pgcnt = minus64 end start / pg_size in
    let bm_pages = (bitmap_buf_size pgcnt + pg_size - 1) / pg_size * pg_size in
    let count : pgcnt ≡ (end - start) / 2 ^ 12 = omega arith in
    call-Returns _
      (bitmap_create_in_buf_lem pgcnt bm_pages (words bm_base) w (omega arith) (omega arith))
      λ clear is.
        call-Returns _
          (bitmap_set_multiple_lem clear 0 clear.bit_cnt true is.words (omega (arith, is.size))
            (omega arith))
          λ used set. returns (record {
            pool = record {
              free = refl;
              words = set.words;
              aligned = aligned;
              low = low;
              high = omega (arith, set.size, is.size);
            };
            base = refl;
            pages = omega (arith, set.size, is.size);
            used = λ i l u. ground (arith, set.bits i, set.size);
            aligned = omega arith;
            behind = omega (arith, set.size, is.size);
          })
