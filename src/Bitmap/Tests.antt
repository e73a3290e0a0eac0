-- ===== src/Bitmap/Tests.antt =====
-- lib/kernel/bitmap.c: runs on small bitmaps.
use juntos.Prelude.{
  ◌+◌, ◌≡◌, ◌^◌, refl, ◌==◌, true, false, if◌then◌else◌, some, none, arith, Returns,
}
use juntos.Bitmap.Defs.{Bitmap, bitmap_test, bitmap_scan, bitmap_scan_and_flip, bitmap_error}
use juntos.Bitmap.Single.{HasWords}
use juntos.Bitmap.Scan.{Flipped, bitmap_scan_and_flip_lem}

-- 70 bits; 0 and 63 are set.
abbrev two_set : Bitmap
two_set = record { bit_cnt = 70; bits = λ i. if i == 0 then 2 ^ 63 + 1 else 0 }

two_set-HasWords : HasWords two_set
two_set-HasWords i = ground arith

bitmap_test-last : bitmap_test two_set 63 ≡ some true
unfolding bitmap_test
bitmap_test-last = refl

bitmap_test-outside : bitmap_test two_set 70 ≡ none
unfolding bitmap_test
bitmap_test-outside = refl

bitmap_scan-group : bitmap_scan two_set 0 3 false ≡ some 1
unfolding bitmap_scan
bitmap_scan-group = refl

bitmap_scan-nothing : bitmap_scan two_set 60 7 false ≡ some bitmap_error
unfolding bitmap_scan
bitmap_scan-nothing = refl

-- A group of no bits stands at once at the place where the scan starts.
bitmap_scan-empty : bitmap_scan two_set 60 0 false ≡ some 60
unfolding bitmap_scan
bitmap_scan-empty = refl

bitmap_scan_and_flip_example :
    Returns (Flipped two_set 0 3 false) (bitmap_scan_and_flip two_set 0 3 false)
bitmap_scan_and_flip_example =
    bitmap_scan_and_flip_lem two_set 0 3 false two_set-HasWords (omega arith) (omega arith)
