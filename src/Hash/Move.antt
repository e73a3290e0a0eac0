-- ===== src/Hash/Move.antt =====
-- lib/kernel/hash.c: the elements that rehash () moves.
use juntos.Prelude.{
  ℕ, zero, suc, ◌+◌, ◌<◌, ◌≡◌, refl, ap, ◌∙◌, ◌&&◌, ◌==◌, ltb, leb, if◌then◌else◌, List, [], ◌∷◌,
  update, count, one_if, length, arith, Bool-cases, inl, inr,
}
use juntos.Hash.Defs.{Hash, find_bucket, move_bucket, move_buckets}
use juntos.Hash.Table.{total, find_bucket-lt}

-- One element pushed to the front of its bucket.
abbrev pub pushed : Hash → (e : ℕ) → Hash
pushed h e = record h {
  buckets = update h.buckets (find_bucket h e) (e ∷ h.buckets (find_bucket h e));
}

-- What a move keeps.
pub record Keeps (h h' : Hash) : Type 0 where
  pub elem_cnt : h'.elem_cnt ≡ h.elem_cnt
  pub bucket_cnt : h'.bucket_cnt ≡ h.bucket_cnt
  pub hash : h'.hash ≡ h.hash
  pub less : h'.less ≡ h.less

move_bucket-Keeps : (h : Hash) (xs : List ℕ) → Keeps h (move_bucket h xs)
unfolding move_bucket
move_bucket-Keeps h [] = record { elem_cnt = refl; bucket_cnt = refl; hash = refl; less = refl }
move_bucket-Keeps h (e ∷ xs) =
    let k = move_bucket-Keeps (pushed h e) xs in
    record { elem_cnt = k.elem_cnt; bucket_cnt = k.bucket_cnt; hash = k.hash; less = k.less }

find_bucket-Keeps : (h h' : Hash) (t : ℕ) → Keeps h h' → find_bucket h' t ≡ find_bucket h t
find_bucket-Keeps h h' t k = rw (k.hash, k.bucket_cnt) refl

pub move_buckets-Keeps :
    (rounds i : ℕ) (old : ℕ → List ℕ) (h : Hash) → Keeps h (move_buckets rounds i old h)
unfolding move_buckets
move_buckets-Keeps zero i old h = record {
  elem_cnt = refl;
  bucket_cnt = refl;
  hash = refl;
  less = refl;
}
move_buckets-Keeps (suc rounds) i old h =
    let a = move_bucket-Keeps h (old i) in
    let b = move_buckets-Keeps rounds (i + 1) old (move_bucket h (old i)) in
    record {
      elem_cnt = b.elem_cnt ∙ a.elem_cnt;
      bucket_cnt = b.bucket_cnt ∙ a.bucket_cnt;
      hash = b.hash ∙ a.hash;
      less = b.less ∙ a.less;
    }

same_bucket : (h : Hash) (e t : ℕ) → e ≡ t → find_bucket h e ≡ find_bucket h t
same_bucket h e t = ap (find_bucket h)

pub push-count :
    (h : Hash) (e t i : ℕ)
    → count t ((pushed h e).buckets i)
      ≡ count t (h.buckets i) + (if i == find_bucket h t then one_if t e else 0)
push-count h e t i = elim (Bool-cases (e == t)) [
  | inl same ↦ let eq : e ≡ t = ground arith in ground (arith, same_bucket h e t eq)
  | inr other ↦ ground arith
]

move_bucket-count :
    (h : Hash) (xs : List ℕ) (t i : ℕ)
    → count t ((move_bucket h xs).buckets i)
      ≡ count t (h.buckets i) + (if i == find_bucket h t then count t xs else 0)
unfolding move_bucket
move_bucket-count h [] t i = ground arith
move_bucket-count h (e ∷ xs) t i =
    ground (arith, move_bucket-count (pushed h e) xs t i, push-count h e t i)

-- How often an element stands in `rounds` buckets, from bucket `k` on.
abbrev pub copies : (t : ℕ) → (ℕ → List ℕ) → (rounds k : ℕ) → ℕ
copies t old zero k = 0
copies t old (suc rounds) k = count t (old k) + copies t old rounds (k + 1)

pub move_buckets-count :
    (rounds k : ℕ) (old : ℕ → List ℕ) (h : Hash) (t i : ℕ)
    → count t ((move_buckets rounds k old h).buckets i)
      ≡ count t (h.buckets i) + (if i == find_bucket h t then copies t old rounds k else 0)
unfolding move_buckets
move_buckets-count zero k old h t i = ground arith
move_buckets-count (suc rounds) k old h t i = ground (
  arith,
  move_buckets-count rounds (k + 1) old (move_bucket h (old k)) t i,
  move_bucket-count h (old k) t i,
  find_bucket-Keeps h (move_bucket h (old k)) t (move_bucket-Keeps h (old k)),
)

pub copies-placed :
    (t : ℕ) (old : ℕ → List ℕ) (p rounds k : ℕ)
    → ((i : ℕ) → 0 < count t (old i) → i ≡ p)
    → copies t old rounds k ≡ (if leb k p && ltb p (k + rounds) then count t (old p) else 0)
copies-placed t old p zero k only = ground arith
copies-placed t old p (suc rounds) k only = elim (Bool-cases (k == p)) [
  | inl at ↦
      let eq : k ≡ p = ground arith in
      ground (arith, copies-placed t old p rounds (k + 1) only, ap (λ i. count t (old i)) eq)
  | inr other ↦ ground (arith, copies-placed t old p rounds (k + 1) only, only k)
]

-- The elements in all the buckets.
pub total-push :
    (bs : ℕ → List ℕ) (e p n k : ℕ)
    → total (update bs p (e ∷ bs p)) n k
      ≡ total bs n k + (if leb k p && ltb p (k + n) then 1 else 0)
total-push bs e p zero k = ground arith
total-push bs e p (suc n) k = elim (Bool-cases (k == p)) [
  | inl at ↦
      let eq : k ≡ p = ground arith in
      ground (arith, total-push bs e p n (k + 1), ap (λ i. length (bs i)) eq)
  | inr other ↦ ground (arith, total-push bs e p n (k + 1))
]

total-move_bucket :
    (h : Hash) (xs : List ℕ) (n : ℕ)
    → h.bucket_cnt ≡ n
    → 0 < n
    → total (move_bucket h xs).buckets n 0 ≡ total h.buckets n 0 + length xs
unfolding move_bucket
total-move_bucket h [] n e some_buckets = omega arith
total-move_bucket h (x ∷ xs) n e some_buckets = ground (
  arith,
  total-move_bucket (pushed h x) xs n e some_buckets,
  total-push h.buckets x (find_bucket h x) n 0,
  find_bucket-lt h x (omega arith),
)

pub total-move_buckets :
    (rounds k : ℕ) (old : ℕ → List ℕ) (h : Hash) (n : ℕ)
    → h.bucket_cnt ≡ n
    → 0 < n
    → total (move_buckets rounds k old h).buckets n 0 ≡ total h.buckets n 0 + total old rounds k
unfolding move_buckets
total-move_buckets zero k old h n e some_buckets = omega arith
total-move_buckets (suc rounds) k old h n e some_buckets =
    let h1 = move_bucket h (old k) in
    omega (
      arith,
      total-move_buckets rounds (k + 1) old h1 n ((move_bucket-Keeps h (old k)).bucket_cnt ∙ e)
          some_buckets,
      total-move_bucket h (old k) n e some_buckets,
    )

pub total-none : (n k : ℕ) → total (λ i. []) n k ≡ 0
total-none zero k = refl
total-none (suc n) k = omega (arith, total-none n (k + 1))
