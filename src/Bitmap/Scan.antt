-- ===== src/Bitmap/Scan.antt =====
-- lib/kernel/bitmap.c: what the searches find, and the bits that are counted.
use juntos.Prelude.{
  ℕ, zero, suc, ◌+◌, ◌-◌, ◌^◌, ◌≤◌, ◌<◌, ◌≡◌, refl, ◌∙◌, Bool, true, false, not, Option, some, ◌==◌,
  leb, if◌then◌else◌, arith, Returns, returns, ◌>>=◌, assert-Returns, bind-Returns, call-Returns,
  Returns-mono, Returns-then, Returns-else, Bool-cases, inl, inr,
}
use juntos.Bitmap.Defs.{
  Bitmap, in_range, same, count_loop, bitmap_count, contains_loop, bitmap_contains, bitmap_error,
  scan_loop, bitmap_scan, bitmap_scan_and_flip, bitmap_set_multiple,
}
use juntos.Bitmap.Single.{bit, HasWords, bitmap_test-eq}
use juntos.Bitmap.Range.{RangeSetTo, in_range-true, bitmap_set_multiple_lem}

-- How many of the `cnt` bits from `start` on are `value`.
abbrev pub tally : Bitmap → (start cnt : ℕ) → Bool → ℕ
tally b start zero value = 0
tally b start (suc cnt) value =
    (if same (bit b start) value then 1 else 0) + tally b (start + 1) cnt value

-- All the `cnt` bits from `start` on are `value`.
abbrev pub AllAre : Bitmap → (start cnt : ℕ) → Bool → Type 0
AllAre b start cnt value = (i : ℕ) → start ≤ i → i < start + cnt → bit b i ≡ value

-- One of them is `value`.
abbrev pub SomeIs : Bitmap → (start cnt : ℕ) → Bool → Type 0
SomeIs b start cnt value = (i : ℕ) × (start ≤ i) × (i < start + cnt) × (bit b i ≡ value)

-- The Boolean answers whether one of the bits is `value`.
pub data Answers (b : Bitmap) (start cnt : ℕ) (value : Bool) : Bool → Type 0 where
  yes : SomeIs b start cnt value → Answers b start cnt value true
  no : AllAre b start cnt (not value) → Answers b start cnt value false

count_loop-eq :
    (rounds : ℕ) (b : Bitmap) (start : ℕ) (value : Bool) (value_cnt : ℕ)
    → start + rounds ≤ b.bit_cnt
    → count_loop rounds b start value value_cnt ≡ some (value_cnt + tally b start rounds value)
unfolding count_loop
count_loop-eq zero b start value value_cnt h = ground arith
count_loop-eq (suc rounds) b start value value_cnt h = rw (bitmap_test-eq b start (omega arith)) (
    ground (
      arith,
      count_loop-eq rounds b (start + 1) value
          (if same (bit b start) value then value_cnt + 1 else value_cnt) (omega arith),
    ))

-- bitmap_count () on a range of the bitmap counts the bits of the range that are `value`.
pub bitmap_count_lem :
    (b : Bitmap) (start cnt : ℕ) (value : Bool)
    → b.bit_cnt < 2 ^ 64
    → start + cnt ≤ b.bit_cnt
    → bitmap_count b start cnt value ≡ some (tally b start cnt value)
unfolding bitmap_count
bitmap_count_lem b start cnt value small h =
    rw (in_range-true b start cnt small h) (ground (arith, count_loop-eq cnt b start value 0 h))

same-true : (a b : Bool) → same a b ≡ true → a ≡ b
same-true true b h = ground arith
same-true false b h = ground arith

same-false : (a b : Bool) → same a b ≡ false → a ≡ not b
same-false true b h = ground arith
same-false false b h = ground arith

one_more-Answers :
    (b : Bitmap) (start cnt : ℕ) (value found : Bool)
    → bit b start ≡ not value
    → Answers b (start + 1) cnt value found
    → Answers b start (suc cnt) value found
one_more-Answers b start cnt value _ e (yes (i, l, u, is)) = yes (i, omega arith, omega arith, is)
one_more-Answers b start cnt value _ e (no all) = no λ i l u. elim (Bool-cases (i == start)) [
  | inl at ↦ ground (arith, e)
  | inr other ↦ all i (ground arith) (omega arith)
]

contains_loop-Returns :
    (rounds : ℕ) (b : Bitmap) (start : ℕ) (value : Bool)
    → start + rounds ≤ b.bit_cnt
    → Returns (Answers b start rounds value) (contains_loop rounds b start value)
unfolding contains_loop
contains_loop-Returns zero b start value h = returns (no λ i l u. absurd (omega arith))
contains_loop-Returns (suc rounds) b start value h =
    bind-Returns _ (bit b start) (bitmap_test-eq b start (omega arith))
      elim (Bool-cases (same (bit b start) value)) [
        | inl e ↦
            Returns-then _ _ e
              (returns (yes (start, omega arith, omega arith, same-true (bit b start) value e)))
        | inr e ↦ Returns-else _ _ e (
            Returns-mono (contains_loop-Returns rounds b (start + 1) value (omega arith)) λ found.
              one_more-Answers b start rounds value found (same-false (bit b start) value e))
      ]

-- bitmap_contains () on a range of the bitmap answers whether one of its bits is `value`.
pub bitmap_contains_lem :
    (b : Bitmap) (start cnt : ℕ) (value : Bool)
    → b.bit_cnt < 2 ^ 64
    → start + cnt ≤ b.bit_cnt
    → Returns (Answers b start cnt value) (bitmap_contains b start cnt value)
unfolding bitmap_contains
bitmap_contains_lem b start cnt value small h =
    assert-Returns (in_range b start cnt) _ (in_range-true b start cnt small h)
      (contains_loop-Returns cnt b start value h)

-- What a scan for `cnt` bits that are `value` gives: the first place at or after `start` where they
-- stand, or that there is none.
pub data Scanned (b : Bitmap) (start cnt : ℕ) (value : Bool) : ℕ → Type 0 where
  group :
      (idx : ℕ)
      → start ≤ idx
      → idx + cnt ≤ b.bit_cnt
      → AllAre b idx cnt value
      → ((i : ℕ) → start ≤ i → i < idx → SomeIs b i cnt (not value))
      → Scanned b start cnt value idx
  nothing :
      ((i : ℕ) → start ≤ i → i + cnt ≤ b.bit_cnt → SomeIs b i cnt (not value))
      → Scanned b start cnt value bitmap_error

one_more-Scanned :
    (b : Bitmap) (i cnt : ℕ) (value : Bool) (idx : ℕ)
    → SomeIs b i cnt (not value)
    → Scanned b (i + 1) cnt value idx
    → Scanned b i cnt value idx
one_more-Scanned b i cnt value _ here (group idx l u all before) =
    group idx (omega arith) u all λ j lj uj. elim (Bool-cases (j == i)) [
      | inl e ↦ let at : j ≡ i = ground arith in rw at here
      | inr e ↦ before j (ground arith) uj
    ]
one_more-Scanned b i cnt value _ here (nothing never) = nothing λ j lj uj.
    elim (Bool-cases (j == i)) [
      | inl e ↦ let at : j ≡ i = ground arith in rw at here
      | inr e ↦ never j (ground arith) uj
    ]

not-not-eq : (b : Bool) → not (not b) ≡ b
not-not-eq true = refl
not-not-eq false = refl

scan_step-Returns :
    (b : Bitmap) (i cnt : ℕ) (value found : Bool) (others : Option ℕ)
    → i + cnt ≤ b.bit_cnt
    → Answers b i cnt (not value) found
    → Returns (Scanned b (i + 1) cnt value) others
    → Returns (Scanned b i cnt value) (if found then others else some i)
scan_step-Returns b i cnt value _ others h (yes here) r =
    Returns-mono r λ idx. one_more-Scanned b i cnt value idx here
scan_step-Returns b i cnt value _ others h (no all) r = returns (
    group i (omega arith) h (λ j lj uj. all j lj uj ∙ not-not-eq value)
      λ j lj uj. absurd (omega arith))

scan_loop-Returns :
    (rounds : ℕ) (b : Bitmap) (i cnt : ℕ) (value : Bool)
    → b.bit_cnt < 2 ^ 64
    → cnt ≤ b.bit_cnt
    → rounds ≡ b.bit_cnt - cnt + 1 - i
    → Returns (Scanned b i cnt value) (scan_loop rounds b i cnt value)
unfolding scan_loop
scan_loop-Returns zero b i cnt value small h e = returns (nothing λ j lj uj. absurd (omega arith))
scan_loop-Returns (suc rounds) b i cnt value small h e =
    call-Returns _ (bitmap_contains_lem b i cnt (not value) small (omega arith)) λ found answer.
      scan_step-Returns b i cnt value found _ (omega arith) answer
        (scan_loop-Returns rounds b (i + 1) cnt value small h (omega arith))

-- bitmap_scan () from a place in the bitmap finds the first group of `cnt` bits that are `value`, or
-- gives BITMAP_ERROR where there is no such group, also when the bitmap is shorter than `cnt`.
pub bitmap_scan_lem :
    (b : Bitmap) (start cnt : ℕ) (value : Bool)
    → b.bit_cnt < 2 ^ 64
    → start ≤ b.bit_cnt
    → Returns (Scanned b start cnt value) (bitmap_scan b start cnt value)
unfolding bitmap_scan
bitmap_scan_lem b start cnt value small h =
    assert-Returns (leb start b.bit_cnt) _ (ground arith) elim (Bool-cases (leb cnt b.bit_cnt)) [
      | inl e ↦ Returns-then _ _ e (
          scan_loop-Returns (b.bit_cnt - cnt + 1 - start) b start cnt value small (ground arith)
            refl)
      | inr e ↦ Returns-else _ _ e (returns (nothing λ j lj uj. absurd (ground arith)))
    ]

-- The group that the scan gives is turned over, and nothing else is touched.
pub data Flipped (b : Bitmap) (start cnt : ℕ) (value : Bool) : ℕ × Bitmap → Type 0 where
  turned :
      (idx : ℕ) (b' : Bitmap)
      → Scanned b start cnt value idx
      → idx + cnt ≤ b.bit_cnt
      → RangeSetTo idx cnt (not value) b b'
      → Flipped b start cnt value (idx, b')
  kept : Scanned b start cnt value bitmap_error → Flipped b start cnt value (bitmap_error, b)

flip_found-Returns :
    (b : Bitmap) (start cnt : ℕ) (value : Bool) (idx : ℕ)
    → HasWords b
    → b.bit_cnt < 2 ^ 64 - 1
    → Scanned b start cnt value idx
    → Returns (Flipped b start cnt value) (
        if idx == bitmap_error
        then some (idx, b)
        else (do b' ← bitmap_set_multiple b idx cnt (not value); some (idx, b')))
flip_found-Returns b start cnt value _ w small (group idx l u all before) =
    Returns-else {b = idx == bitmap_error} _ _ (ground arith) (
      call-Returns _ (bitmap_set_multiple_lem b idx cnt (not value) w (omega arith) u)
        λ b' set. returns (turned idx b' (group idx l u all before) u set))
flip_found-Returns b start cnt value _ w small (nothing never) = returns (kept (nothing never))

-- bitmap_scan_and_flip () turns the bits of the group that it finds over and no others, and leaves
-- the bitmap as it is where there is no such group. The bitmap is shorter than BITMAP_ERROR.
pub bitmap_scan_and_flip_lem :
    (b : Bitmap) (start cnt : ℕ) (value : Bool)
    → HasWords b
    → b.bit_cnt < 2 ^ 64 - 1
    → start ≤ b.bit_cnt
    → Returns (Flipped b start cnt value) (bitmap_scan_and_flip b start cnt value)
unfolding bitmap_scan_and_flip
bitmap_scan_and_flip_lem b start cnt value w small h =
    call-Returns _ (bitmap_scan_lem b start cnt value (omega arith) h)
      λ idx found. flip_found-Returns b start cnt value idx w small found
