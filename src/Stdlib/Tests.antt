-- ===== src/Stdlib/Tests.antt =====
-- lib/stdlib.c: runs on small arrays.
use juntos.Prelude.{
  ℕ, ◌≡◌, refl, ◌==◌, if◌then◌else◌, Option, some, none, arith, Returns, inl, List, [], ◌∷◌,
}
use juntos.Prelude.Int.{ℤ, negsuc, sub_ℕ}
use juntos.Stdlib.Defs.{sort, binary_search, atoi}
use juntos.Stdlib.Heap.{IsCompare}
use juntos.Stdlib.Sorted.{SortedTo, sort_lem}
use juntos.Stdlib.Search.{IsSortedFor, Match, binary_search_lem}

abbrev by_size : ℕ → ℕ → ℤ
by_size x y = sub_ℕ x y

by_size-IsCompare : IsCompare by_size
by_size-IsCompare = record { total = λ x y. ground arith; transitive = λ x y z. ground arith }

abbrev three_one_two : ℕ → ℕ
three_one_two i = if i == 1 then 3 else if i == 2 then 1 else if i == 3 then 2 else 0

sort_example :
    Returns
      (SortedTo by_size by_size-IsCompare 3 three_one_two)
      (sort 1000 3 4 by_size three_one_two)
sort_example =
    sort_lem by_size by_size-IsCompare 1000 3 4 three_one_two (inl λ e. omega (arith, e))
      (omega arith) (omega arith)

abbrev first_three : Option (ℕ → ℕ) → List ℕ
first_three none = []
first_three (some a) = a 1 ∷ a 2 ∷ a 3 ∷ []

sort-three : first_three (sort 1000 3 4 by_size three_one_two) ≡ 1 ∷ 2 ∷ 3 ∷ []
unfolding sort
sort-three = refl

counting-IsSortedFor : IsSortedFor by_size 4 9 (λ i. i)
counting-IsSortedFor = record { before = λ i j. ground arith; behind = λ i j. ground arith }

binary_search_example : Returns (Match by_size 4 9 (λ i. i)) (binary_search 4 9 8 by_size (λ i. i))
binary_search_example = binary_search_lem by_size 4 9 (λ i. i) counting-IsSortedFor 8

-- " -42"
abbrev minus_forty_two : ℕ → ℕ
minus_forty_two a =
    if a == 10
    then 32
    else if a == 11
    then 45
    else if a == 12
    then 52
    else if a == 13
    then 50
    else 0

atoi-minus : atoi 4 10 minus_forty_two ≡ some (negsuc 41)
unfolding atoi
atoi-minus = refl
