-- ===== src/Bitmap/File.antt =====
-- lib/kernel/bitmap.c: bitmaps in files, of a kernel with FILESYS. What file_read_at () and
-- file_write_at () do is an argument: the off_t that they return, modulo 2 ^ 32, and the elements that
-- stand in memory behind the read.
use Prim.Native.Nat.{bit_and}
use juntos.Prelude.{
  ℕ, ◌-◌, ◌%◌, ◌^◌, ◌≤◌, ◌<◌, ◌≡◌, Bool, true, ◌==◌, ltb, if◌then◌else◌, update, arith,
}
use juntos.Prelude.Bits.{bit_and-le, bit_and-le_mask}
use juntos.Bitmap.Defs.{Bitmap, elem_bits, elem_cnt, byte_cnt}

abbrev pub last_mask : Bitmap → ℕ
last_mask b =
    let last_bits = b.bit_cnt % elem_bits in
    if last_bits == 0 then 2 ^ 64 - 1 else 2 ^ last_bits - 1

abbrev pub bitmap_file_size : Bitmap → ℕ
bitmap_file_size b = byte_cnt b.bit_cnt

unfoldable pub bitmap_read : (read : ℕ) → (elems : ℕ → ℕ) → Bitmap → Bool × Bitmap
bitmap_read read elems b =
    let last = elem_cnt b.bit_cnt - 1 in
    if ltb 0 b.bit_cnt
    then (
      read == byte_cnt b.bit_cnt % 2 ^ 32,
      record b { bits = update elems last (bit_and (elems last) (last_mask b)) },
    )
    else (true, b)

unfoldable pub bitmap_write : (written : ℕ) → Bitmap → Bool
bitmap_write written b = written == byte_cnt b.bit_cnt % 2 ^ 32

-- A bitmap that was read has the size that it had; its last element is at most the file's, with the
-- bits that are not in use off.
pub bitmap_read-last :
    (read : ℕ) (elems : ℕ → ℕ) (b : Bitmap)
    → 0 < b.bit_cnt
    → (let b' = (bitmap_read read elems b).1 in
        (b'.bit_cnt ≡ b.bit_cnt)
        × (b'.bits (elem_cnt b.bit_cnt - 1) ≤ last_mask b)
        × (b'.bits (elem_cnt b.bit_cnt - 1) ≤ elems (elem_cnt b.bit_cnt - 1)))
unfolding bitmap_read
bitmap_read-last read elems b h =
    let last = elem_cnt b.bit_cnt - 1 in
    ground (
      arith,
      bit_and-le_mask (elems last) (elems last) (last_mask b) (omega arith),
      bit_and-le (elems last) (elems last) (last_mask b) (omega arith),
    )
