-- ===== src/Bitmap/Single.antt =====
-- lib/kernel/bitmap.c: one bit at a time.
use juntos.Prelude.{
  ℕ, ◌/◌, ◌%◌, ◌^◌, ◌<◌, ◌≡◌, refl, Bool, true, false, not, some, ◌==◌, ltb, if◌then◌else◌, arith,
  Returns, returns, assert-Returns,
}
use juntos.Prelude.Bits.{
  bit_set, without, bit_set-or, bit_set-xor, bit_set-without, bit_and-test, bit_or-lt, bit_xor-lt,
  bit_and-le, power-lt,
}
use juntos.Bitmap.Defs.{Bitmap, bitmap_mark, bitmap_reset, bitmap_flip, bitmap_set, bitmap_test}

-- The bitmap as an array of bits, which it is from outside.
abbrev pub bit : Bitmap → ℕ → Bool
bit b i = bit_set (b.bits (i / 64)) (i % 64)

-- Every element is an elem_type.
abbrev pub HasWords : Bitmap → Type 0
HasWords b = (i : ℕ) → b.bits i < 2 ^ 64

-- The bit `idx` is `value`, and the others are as they were.
pub record SetTo (idx : ℕ) (value : Bool) (b b' : Bitmap) : Type 0 where
  pub bits : (i : ℕ) → bit b' i ≡ (if i == idx then value else bit b i)
  pub size : b'.bit_cnt ≡ b.bit_cnt
  pub words : HasWords b'

mark-SetTo : (b : Bitmap) (idx : ℕ) → HasWords b → SetTo idx true b (bitmap_mark b idx)
unfolding bitmap_mark
mark-SetTo b idx w = record {
  bits = λ i. ground (arith, bit_set-or (idx % 64) (b.bits (idx / 64)) (i % 64));
  size = refl;
  words = λ i. ground (
    arith,
    w i,
    bit_or-lt 64 (b.bits (idx / 64)) (2 ^ (idx % 64)) (w (idx / 64))
        (power-lt (idx % 64) 64 (omega arith)),
  );
}

reset-SetTo : (b : Bitmap) (idx : ℕ) → HasWords b → SetTo idx false b (bitmap_reset b idx)
unfolding bitmap_reset
reset-SetTo b idx w = record {
  bits = λ i. ground (
    arith,
    bit_set-without 64 (idx % 64) (b.bits (idx / 64)) (i % 64) (omega arith) (w (idx / 64)),
  );
  size = refl;
  words = λ i. ground (
    arith,
    w i,
    w (idx / 64),
    bit_and-le (b.bits (idx / 64)) (b.bits (idx / 64)) (without 64 (idx % 64)),
  );
}

flip-SetTo : (b : Bitmap) (idx : ℕ) → HasWords b → SetTo idx (not (bit b idx)) b (bitmap_flip b idx)
unfolding bitmap_flip
flip-SetTo b idx w = record {
  bits = λ i. ground (arith, bit_set-xor (idx % 64) (b.bits (idx / 64)) (i % 64));
  size = refl;
  words = λ i. ground (
    arith,
    w i,
    bit_xor-lt 64 (b.bits (idx / 64)) (2 ^ (idx % 64)) (w (idx / 64))
        (power-lt (idx % 64) 64 (omega arith)),
  );
}

-- bitmap_flip () turns the one bit over.
pub bitmap_flip_lem :
    (b : Bitmap) (idx : ℕ) → HasWords b → SetTo idx (not (bit b idx)) b (bitmap_flip b idx)
bitmap_flip_lem = flip-SetTo

pub bitmap_set-Returns :
    (b : Bitmap) (idx : ℕ) (value : Bool)
    → HasWords b
    → idx < b.bit_cnt
    → Returns (SetTo idx value b) (bitmap_set b idx value)
unfolding bitmap_set
bitmap_set-Returns b idx true w h =
    assert-Returns (ltb idx b.bit_cnt) _ (ground arith) (returns (mark-SetTo b idx w))
bitmap_set-Returns b idx false w h =
    assert-Returns (ltb idx b.bit_cnt) _ (ground arith) (returns (reset-SetTo b idx w))

pub bitmap_test-eq : (b : Bitmap) (idx : ℕ) → idx < b.bit_cnt → bitmap_test b idx ≡ some (bit b idx)
unfolding bitmap_test
bitmap_test-eq b idx h = ground (arith, bit_and-test (idx % 64) (b.bits (idx / 64)))
