-- ===== src/Bitmap/Range.antt =====
-- lib/kernel/bitmap.c: a range of bits set at once, and the bitmaps that are created.
use juntos.Prelude.{
  ◌==◌, Option, some, none, Bool-cases, inl, inr, Returns-then, Returns-else, ℕ, zero, suc, ◌+◌,
  ◌^◌, ◌≤◌, ◌<◌, ◌≡◌, refl, Bool, true, false, ◌&&◌, ltb, leb, if◌then◌else◌, arith, Returns,
  returns, assert-Returns, call-Returns, Returns-mono,
}
use juntos.Bitmap.Defs.{
  Bitmap, in_range, set_loop, bitmap_set_multiple, bitmap_set_all, bitmap_create_in_buf,
  bitmap_buf_size, bitmap_create,
}
use juntos.Bitmap.Single.{bit, HasWords, SetTo, bitmap_set-Returns}

abbrev pub within : (start cnt i : ℕ) → Bool
within start cnt i = leb start i && ltb i (start + cnt)

-- The `cnt` bits from `start` on are `value`, and the others are as they were.
pub record RangeSetTo (start cnt : ℕ) (value : Bool) (b b' : Bitmap) : Type 0 where
  pub bits : (i : ℕ) → bit b' i ≡ (if within start cnt i then value else bit b i)
  pub size : b'.bit_cnt ≡ b.bit_cnt
  pub words : HasWords b'

none-RangeSetTo :
    (b : Bitmap) (start : ℕ) (value : Bool) → HasWords b → RangeSetTo start 0 value b b
none-RangeSetTo b start value w = record { bits = λ i. ground arith; size = refl; words = w }

one_more-RangeSetTo :
    (start cnt : ℕ) (value : Bool) (b mid b' : Bitmap)
    → SetTo start value b mid
    → RangeSetTo (start + 1) cnt value mid b'
    → RangeSetTo start (suc cnt) value b b'
one_more-RangeSetTo start cnt value b mid b' first others = record {
  bits = λ i. ground (arith, first.bits i, others.bits i);
  size = cc;
  words = others.words;
}

pub set_loop-Returns :
    (rounds : ℕ) (b : Bitmap) (start : ℕ) (value : Bool)
    → HasWords b
    → start + rounds ≤ b.bit_cnt
    → Returns (RangeSetTo start rounds value b) (set_loop rounds b start value)
unfolding set_loop
set_loop-Returns zero b start value w h = returns (none-RangeSetTo b start value w)
set_loop-Returns (suc rounds) b start value w h =
    call-Returns _ (bitmap_set-Returns b start value w (omega arith)) λ mid first.
      Returns-mono
        (set_loop-Returns rounds mid (start + 1) value first.words (omega (arith, first.size)))
        λ b' others. one_more-RangeSetTo start rounds value b mid b' first others

-- A range of a bitmap passes the ASSERTs.
pub in_range-true :
    (b : Bitmap) (start cnt : ℕ)
    → b.bit_cnt < 2 ^ 64
    → start + cnt ≤ b.bit_cnt
    → in_range b start cnt ≡ true
in_range-true b start cnt small h = ground arith

-- bitmap_set_multiple () on a range of the bitmap sets the bits of the range and no others.
pub bitmap_set_multiple_lem :
    (b : Bitmap) (start cnt : ℕ) (value : Bool)
    → HasWords b
    → b.bit_cnt < 2 ^ 64
    → start + cnt ≤ b.bit_cnt
    → Returns (RangeSetTo start cnt value b) (bitmap_set_multiple b start cnt value)
unfolding bitmap_set_multiple
bitmap_set_multiple_lem b start cnt value w small h =
    assert-Returns (in_range b start cnt) _ (in_range-true b start cnt small h)
      (set_loop-Returns cnt b start value w h)

-- All the bits of the bitmap are false.
pub record IsClear (cnt : ℕ) (b : Bitmap) : Type 0 where
  pub bits : (i : ℕ) → i < cnt → bit b i ≡ false
  pub size : b.bit_cnt ≡ cnt
  pub words : HasWords b

bitmap_set_all-IsClear :
    (cnt : ℕ) (old : ℕ → ℕ)
    → ((i : ℕ) → old i < 2 ^ 64)
    → cnt < 2 ^ 64
    → Returns (IsClear cnt) (bitmap_set_all (record { bit_cnt = cnt; bits = old }) false)
unfolding bitmap_set_all
bitmap_set_all-IsClear cnt old w small =
    Returns-mono
      (bitmap_set_multiple_lem (record { bit_cnt = cnt; bits = old }) 0 cnt false w small
        (omega arith))
      λ b' set. record {
        bits = λ i h. ground (arith, set.bits i);
        size = set.size;
        words = set.words;
      }

-- bitmap_create_in_buf () makes a bitmap of cleared bits, whatever stood in the block, where the
-- block has the bytes that bitmap_buf_size () asks for.
pub bitmap_create_in_buf_lem :
    (bit_cnt block_size : ℕ) (old : ℕ → ℕ)
    → ((i : ℕ) → old i < 2 ^ 64)
    → bit_cnt < 2 ^ 64
    → bitmap_buf_size bit_cnt ≤ block_size
    → Returns (IsClear bit_cnt) (bitmap_create_in_buf bit_cnt block_size old)
unfolding bitmap_create_in_buf
bitmap_create_in_buf_lem bit_cnt block_size old w small h =
    assert-Returns (leb (bitmap_buf_size bit_cnt) block_size) _ (ground arith)
      (bitmap_set_all-IsClear bit_cnt old w small)

-- What bitmap_create () gives: a bitmap of cleared bits, or a null pointer where memory is wanted and
-- there is none.
pub data Created (bit_cnt : ℕ) : Option (Option (ℕ → ℕ)) → Option Bitmap → Type 0 where
  made :
      {block : Option (Option (ℕ → ℕ))} (b : Bitmap)
      → IsClear bit_cnt b
      → Created bit_cnt block (some b)
  no_struct : Created bit_cnt none none
  no_bits : 0 < bit_cnt → Created bit_cnt (some none) none

pub bitmap_create-Created :
    (bit_cnt : ℕ) (old : ℕ → ℕ)
    → ((i : ℕ) → old i < 2 ^ 64)
    → bit_cnt < 2 ^ 64
    → (Returns (Created bit_cnt none) (bitmap_create bit_cnt none))
      × (Returns (Created bit_cnt (some none)) (bitmap_create bit_cnt (some none)))
      × (Returns (Created bit_cnt (some (some old))) (bitmap_create bit_cnt (some (some old))))
unfolding bitmap_create
bitmap_create-Created bit_cnt old w small = (
  returns no_struct,
  elim (Bool-cases (bit_cnt == 0)) [
    | inl e ↦ Returns-then _ _ e (
        returns (
          made _ (record {
            bits = λ i h. absurd (ground arith);
            size = refl;
            words = λ i. omega arith;
          })))
    | inr e ↦ Returns-else _ _ e (returns (no_bits (ground arith)))
  ],
  call-Returns _ (bitmap_set_all-IsClear bit_cnt old w small) λ b is. returns (made b is),
)
