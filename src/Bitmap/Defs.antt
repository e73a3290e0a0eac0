-- ===== src/Bitmap/Defs.antt =====
-- lib/kernel/bitmap.c: the operations, over the elements of b->bits by their index. No bitmap is a
-- null pointer. A for loop is recursion on the rounds that are left; none is a failed ASSERT.
use Prim.Native.Nat.{bit_and, bit_or, bit_xor}
use juntos.Prelude.{
  ℕ, zero, suc, ◌+◌, ◌-◌, ◌*◌, ◌/◌, ◌%◌, ◌^◌, Bool, true, false, not, ◌&&◌, Option, none, some,
  ◌==◌, ltb, leb, if◌then◌else◌, assert, ◌>>◌, ◌>>=◌, update,
}
use juntos.Prelude.Bits.{without}

pub record Bitmap : Type 0 where
  pub bit_cnt : ℕ
  pub bits : ℕ → ℕ

abbrev pub elem_bits : ℕ
elem_bits = 64

abbrev pub elem_idx : ℕ → ℕ
elem_idx bit_idx = bit_idx / elem_bits

abbrev pub bit_mask : ℕ → ℕ
bit_mask bit_idx = 2 ^ (bit_idx % elem_bits)

-- DIV_ROUND_UP on a size_t
abbrev pub elem_cnt : ℕ → ℕ
elem_cnt bit_cnt = (bit_cnt + elem_bits - 1) % 2 ^ 64 / elem_bits

abbrev pub byte_cnt : ℕ → ℕ
byte_cnt bit_cnt = 8 * elem_cnt bit_cnt

-- sizeof (struct bitmap) is 16.
abbrev pub bitmap_buf_size : ℕ → ℕ
bitmap_buf_size bit_cnt = 16 + byte_cnt bit_cnt

abbrev pub bitmap_size : Bitmap → ℕ
bitmap_size b = b.bit_cnt

unfoldable pub bitmap_mark : Bitmap → ℕ → Bitmap
bitmap_mark b bit_idx =
    let idx = elem_idx bit_idx in
    record b { bits = update b.bits idx (bit_or (b.bits idx) (bit_mask bit_idx)) }

-- ~mask, on 64 bits
unfoldable pub bitmap_reset : Bitmap → ℕ → Bitmap
bitmap_reset b bit_idx =
    let idx = elem_idx bit_idx in
    record b { bits = update b.bits idx (bit_and (b.bits idx) (without 64 (bit_idx % elem_bits))) }

unfoldable pub bitmap_flip : Bitmap → ℕ → Bitmap
bitmap_flip b bit_idx =
    let idx = elem_idx bit_idx in
    record b { bits = update b.bits idx (bit_xor (b.bits idx) (bit_mask bit_idx)) }

unfoldable pub bitmap_set : Bitmap → ℕ → Bool → Option Bitmap
unfolding bitmap_mark bitmap_reset
bitmap_set b idx value = do
  assert (ltb idx b.bit_cnt)
  some (if value then bitmap_mark b idx else bitmap_reset b idx)

unfoldable pub bitmap_test : Bitmap → ℕ → Option Bool
bitmap_test b idx = do
  assert (ltb idx b.bit_cnt)
  some (not (bit_and (b.bits (elem_idx idx)) (bit_mask idx) == 0))

-- The three ASSERTs on a range; the sum is a size_t.
abbrev pub in_range : Bitmap → (start cnt : ℕ) → Bool
in_range b start cnt = leb start b.bit_cnt && leb ((start + cnt) % 2 ^ 64) b.bit_cnt

-- `idx` is start + i.
unfoldable pub set_loop : (rounds : ℕ) → Bitmap → (idx : ℕ) → Bool → Option Bitmap
unfolding bitmap_set
set_loop zero b idx value = some b
set_loop (suc rounds) b idx value = do
  b' ← bitmap_set b idx value
  set_loop rounds b' (idx + 1) value

unfoldable pub bitmap_set_multiple : Bitmap → (start cnt : ℕ) → Bool → Option Bitmap
unfolding set_loop
bitmap_set_multiple b start cnt value = do assert (in_range b start cnt); set_loop cnt b start value

unfoldable pub bitmap_set_all : Bitmap → Bool → Option Bitmap
unfolding bitmap_set_multiple
bitmap_set_all b value = bitmap_set_multiple b 0 (bitmap_size b) value

abbrev pub same : Bool → Bool → Bool
same true b = b
same false b = not b

unfoldable pub count_loop : (rounds : ℕ) → Bitmap → (idx : ℕ) → Bool → (value_cnt : ℕ) → Option ℕ
unfolding bitmap_test
count_loop zero b idx value value_cnt = some value_cnt
count_loop (suc rounds) b idx value value_cnt = do
  bit ← bitmap_test b idx
  count_loop rounds b (idx + 1) value (if same bit value then value_cnt + 1 else value_cnt)

unfoldable pub bitmap_count : Bitmap → (start cnt : ℕ) → Bool → Option ℕ
unfolding count_loop
bitmap_count b start cnt value = do assert (in_range b start cnt); count_loop cnt b start value 0

unfoldable pub contains_loop : (rounds : ℕ) → Bitmap → (idx : ℕ) → Bool → Option Bool
unfolding bitmap_test
contains_loop zero b idx value = some false
contains_loop (suc rounds) b idx value = do
  bit ← bitmap_test b idx
  (if same bit value then some true else contains_loop rounds b (idx + 1) value)

unfoldable pub bitmap_contains : Bitmap → (start cnt : ℕ) → Bool → Option Bool
unfolding contains_loop
bitmap_contains b start cnt value = do
  assert (in_range b start cnt)
  contains_loop cnt b start value

unfoldable pub bitmap_any : Bitmap → (start cnt : ℕ) → Option Bool
unfolding bitmap_contains
bitmap_any b start cnt = bitmap_contains b start cnt true

unfoldable pub bitmap_none : Bitmap → (start cnt : ℕ) → Option Bool
unfolding bitmap_contains
bitmap_none b start cnt = do found ← bitmap_contains b start cnt true; some (not found)

unfoldable pub bitmap_all : Bitmap → (start cnt : ℕ) → Option Bool
unfolding bitmap_contains
bitmap_all b start cnt = do found ← bitmap_contains b start cnt false; some (not found)

abbrev pub bitmap_error : ℕ
bitmap_error = 2 ^ 64 - 1

-- The for of bitmap_scan (): `i` goes up to `last`, in `rounds` more rounds.
unfoldable pub scan_loop : (rounds : ℕ) → Bitmap → (i cnt : ℕ) → Bool → Option ℕ
unfolding bitmap_contains
scan_loop zero b i cnt value = some bitmap_error
scan_loop (suc rounds) b i cnt value = do
  found ← bitmap_contains b i cnt (not value)
  (if found then scan_loop rounds b (i + 1) cnt value else some i)

unfoldable pub bitmap_scan : Bitmap → (start cnt : ℕ) → Bool → Option ℕ
unfolding scan_loop
bitmap_scan b start cnt value = do
  assert (leb start b.bit_cnt)
  (if leb cnt b.bit_cnt
      then scan_loop (b.bit_cnt - cnt + 1 - start) b start cnt value
      else some bitmap_error)

unfoldable pub bitmap_scan_and_flip : Bitmap → (start cnt : ℕ) → Bool → Option (ℕ × Bitmap)
unfolding bitmap_scan bitmap_set_multiple
bitmap_scan_and_flip b start cnt value = do
  idx ← bitmap_scan b start cnt value
  (if idx == bitmap_error
      then some (idx, b)
      else (do b' ← bitmap_set_multiple b idx cnt (not value); some (idx, b')))

-- `block` is what the two calls of malloc () give: the elements as they find them, or a null pointer
-- in one of them. No elements are wanted for an empty bitmap.
unfoldable pub bitmap_create :
    (bit_cnt : ℕ) → (block : Option (Option (ℕ → ℕ))) → Option (Option Bitmap)
unfolding bitmap_set_all
bitmap_create bit_cnt none = some none
bitmap_create bit_cnt (some (some bits)) = do
  b ← bitmap_set_all (record { bit_cnt = bit_cnt; bits = bits }) false
  some (some b)
bitmap_create bit_cnt (some none) =
    if bit_cnt == 0 then some (some (record { bit_cnt = bit_cnt; bits = λ i. 0 })) else some none

-- `bits` is what stands in the block behind the struct.
unfoldable pub bitmap_create_in_buf : (bit_cnt block_size : ℕ) → (bits : ℕ → ℕ) → Option Bitmap
unfolding bitmap_set_all
bitmap_create_in_buf bit_cnt block_size bits = do
  assert (leb (bitmap_buf_size bit_cnt) block_size)
  bitmap_set_all (record { bit_cnt = bit_cnt; bits = bits }) false
