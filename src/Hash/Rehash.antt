-- ===== src/Hash/Rehash.antt =====
-- lib/kernel/hash.c: the table behind rehash ().
use juntos.Prelude.{
  ℕ, ◌<◌, ◌≡◌, refl, sym, ◌∙◌, Bool, true, false, ◌==◌, if◌then◌else◌, [], count, arith, Bool-cases,
  inl, inr,
}
use juntos.Hash.Defs.{Hash, find_bucket, equal, move_buckets, best_bucket_cnt, rehash}
use juntos.Hash.Table.{holds, IsTable, SameElements, find_bucket-lt, best_bucket_cnt-positive}
use juntos.Hash.Move.{
  Keeps, move_buckets-Keeps, copies, move_buckets-count, copies-placed, total-move_buckets,
  total-none,
}

-- The new array, with nothing in it yet, and with the elements.
abbrev emptied : Hash → (new_bucket_cnt : ℕ) → Hash
emptied h new_bucket_cnt = record h { bucket_cnt = new_bucket_cnt; buckets = λ i. [] }

abbrev moved : Hash → (new_bucket_cnt : ℕ) → Hash
moved h new_bucket_cnt = move_buckets h.bucket_cnt 0 h.buckets (emptied h new_bucket_cnt)

module _ (h : Hash) (n : ℕ) (is : IsTable h) where
  moved-Keeps : Keeps (emptied h n) (moved h n)
  moved-Keeps = move_buckets-Keeps h.bucket_cnt 0 h.buckets (emptied h n)

  moved-bucket : (t : ℕ) → find_bucket (moved h n) t ≡ find_bucket (emptied h n) t
  moved-bucket t = rw (moved-Keeps.hash, moved-Keeps.bucket_cnt) refl

  pub all_copies : (t : ℕ) → copies t h.buckets h.bucket_cnt 0 ≡ holds h t
  all_copies t = ground (
    arith,
    copies-placed t h.buckets (find_bucket h t) h.bucket_cnt 0 (λ i. is.placed i t),
    find_bucket-lt h t is.some_buckets,
  )

  moved-count :
      (t i : ℕ)
      → count t ((moved h n).buckets i)
        ≡ (if i == find_bucket (emptied h n) t then holds h t else 0)
  moved-count t i =
      ground (arith, move_buckets-count h.bucket_cnt 0 h.buckets (emptied h n) t i, all_copies t)

  moved-holds : (t : ℕ) → holds (moved h n) t ≡ holds h t
  moved-holds t = ground (arith, moved-count t (find_bucket (moved h n) t), moved-bucket t)

  moved-SameElements : SameElements h (moved h n)
  moved-SameElements = record {
    hash = moved-Keeps.hash;
    less = moved-Keeps.less;
    elements = moved-holds;
  }

  moved-equal : (a b : ℕ) → equal (moved h n) a b ≡ equal h a b
  moved-equal a b = rw moved-Keeps.less refl

  moved-IsTable : 0 < n → IsTable (moved h n)
  moved-IsTable some_buckets = record {
    some_buckets = omega (arith, moved-Keeps.bucket_cnt);
    placed = λ i e l. ground (arith, moved-count e i, moved-bucket e);
    once = λ e. omega (arith, moved-holds e, is.once e);
    distinct = λ a b la lb e.
        is.distinct a b (omega (arith, moved-holds a)) (omega (arith, moved-holds b))
          (sym (moved-equal a b) ∙ e);
    counted = rw moved-Keeps.bucket_cnt (
        omega (
          arith,
          moved-Keeps.elem_cnt,
          is.counted,
          total-move_buckets h.bucket_cnt 0 h.buckets (emptied h n) n refl some_buckets,
          total-none n 0,
        ));
    small = omega (arith, moved-Keeps.elem_cnt, is.small);
  }

pub SameElements-refl : (h : Hash) → SameElements h h
SameElements-refl h = record { hash = refl; less = refl; elements = λ e. refl }

-- rehash () leaves the elements of a table, and a table, whether or not there is memory.
pub rehash_lem :
    (room : Bool) (h : Hash) → IsTable h → SameElements h (rehash room h) × IsTable (rehash room h)
unfolding rehash
rehash_lem true h is = elim (Bool-cases (best_bucket_cnt h.elem_cnt == h.bucket_cnt)) [
  | inl e ↦ rw e (SameElements-refl h, is)
  | inr e ↦
      let n = best_bucket_cnt h.elem_cnt in
      rw e (moved-SameElements h n is, moved-IsTable h n is (best_bucket_cnt-positive h.elem_cnt))
]
rehash_lem false h is = elim (Bool-cases (best_bucket_cnt h.elem_cnt == h.bucket_cnt)) [
  | inl e ↦ rw e (SameElements-refl h, is)
  | inr e ↦ rw e (SameElements-refl h, is)
]
