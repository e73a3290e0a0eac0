-- ===== src/Pages/Tests.antt =====
-- threads/palloc.c: runs on small pools.
use juntos.Prelude.{◌≡◌, refl, ◌==◌, true, false, if◌then◌else◌, none, arith, Returns, ◌>>=◌}
use juntos.Pages.Defs.{Pool, Palloc, palloc_get_multiple, palloc_free_multiple, pal_zero, pal_user}
use juntos.Pages.Get.{IsPool, Got, palloc_get_multiple_lem}
use juntos.Pages.Free.{IsPalloc, palloc_free_multiple-free}
use juntos.Pages.RoundTrip.{SamePools, get-free_lem}
use juntos.Pages.Init.{Made, init_pool_lem}
use juntos.Pages.Boot.{init_pool}

-- Four pages of which the first is used, and two free ones.
abbrev first_used : Pool
first_used = record {
  locked = false;
  used_map = record { bit_cnt = 4; bits = λ i. if i == 0 then 1 else 0 };
  base = 4096;
}

abbrev two_free : Pool
two_free = record { locked = false; used_map = record { bit_cnt = 2; bits = λ i. 0 }; base = 40960 }

abbrev small : Palloc
small = record { kernel_pool = first_used; user_pool = two_free; mem = λ i. 7 }

first_used-IsPool : IsPool first_used
first_used-IsPool = record {
  free = refl;
  words = λ i. ground arith;
  aligned = refl;
  low = omega arith;
  high = omega arith;
}

two_free-IsPool : IsPool two_free
two_free-IsPool = record {
  free = refl;
  words = λ i. omega arith;
  aligned = refl;
  low = omega arith;
  high = omega arith;
}

small-IsPalloc : IsPalloc small
small-IsPalloc = record { kernel = first_used-IsPool; user = two_free-IsPool; apart = omega arith }

palloc_get_multiple_example : Got pal_zero 3 false small (palloc_get_multiple pal_zero 3 small)
palloc_get_multiple_example = palloc_get_multiple_lem pal_zero 3 small first_used-IsPool

get-free_example :
    Returns
      (SamePools true small)
      (palloc_get_multiple pal_user 2 small >>= λ (pages, s1). palloc_free_multiple pages 2 s1)
get-free_example = get-free_lem pal_user 2 small small-IsPalloc (omega arith) refl

-- The pages 0 and 1 of the kernel's pool; page 1 is free.
palloc_free_multiple-free_example : palloc_free_multiple 4096 2 small ≡ none
palloc_free_multiple-free_example =
    palloc_free_multiple-free small false 0 2 small-IsPalloc (omega arith) (omega arith)
      (1, omega arith, omega arith, refl)

init_pool_example :
    Returns (λ (p, next). Made 8192 65536 135000 p next) (init_pool (λ a i. 5) 8192 65536 135000)
init_pool_example =
    init_pool_lem (λ a i. 5) 8192 65536 135000 (λ i. omega arith) (omega arith) refl (omega arith)
      (omega arith)
