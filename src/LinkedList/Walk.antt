-- ===== src/LinkedList/Walk.antt =====
-- lib/kernel/list.c: is_sorted () and find_end_of_run () on a list in memory.
use juntos.Prelude.{
  ℕ, zero, suc, ◌<◌, ◌≡◌, refl, sym, ap, Bool, true, false, not, ◌==◌, some, List, [], ◌∷◌, ◌++◌,
  count, count-append, length, arith, Bool-cases, inl, inr, Returns, returns, assert-Returns,
  Returns-mono, subst,
}
use mathlib.Core.List.{append_assoc}
use juntos.LinkedList.Elem.{Mem, null, tail_of, list_prev}
use juntos.LinkedList.Chain.{IsList, Chain-split, begin_of, begin-prev, begin-count}
use juntos.LinkedList.Shape.{begin-checked, list_next-eq, not_end}
use juntos.LinkedList.Sort.{sorted_loop, is_sorted, run_loop, find_end_of_run}
use juntos.LinkedList.Runs.{Follows, Run, at_end, descent, ascent}

-- The place in front of the end, or of an element.
pub list_prev-eq :
    {list : ℕ} {m : Mem} (done : List ℕ) (x : ℕ) (ys : List ℕ)
    → IsList list (done ++ x ∷ ys) m
    → list_prev (begin_of ys (tail_of list)) m ≡ some x
unfolding list_prev
list_prev-eq {list} {m} done x ys l =
    let moved = subst (λ zs. IsList list zs m) (sym (append_assoc done (x ∷ []) ys)) l in
    rw (begin-checked (done ++ x ∷ []) ys moved, begin-prev (Chain-split done l.chain).1) refl

-- The list with an element more that is behind the walk.
pub pass-elem :
    {list : ℕ} {m : Mem} (done : List ℕ) (x : ℕ) (ys : List ℕ)
    → IsList list (done ++ x ∷ ys) m
    → IsList list ((done ++ x ∷ []) ++ ys) m
pass-elem {list} {m} done x ys =
    subst (λ zs. IsList list zs m) (sym (append_assoc done (x ∷ []) ys))

-- An element is not the place where a later part begins.
pub not_later :
    {list : ℕ} {m : Mem} (done : List ℕ) (x : ℕ) (r ys : List ℕ)
    → IsList list (done ++ (x ∷ r ++ ys)) m
    → (x == begin_of ys (tail_of list)) ≡ false
not_later {list} done x r ys l = elim (Bool-cases (x == begin_of ys (tail_of list))) [
  | inr e ↦ e
  | inl e ↦
      let same : begin_of ys (tail_of list) ≡ x = ground arith in
      let again =
        subst (λ w. 0 < count w (tail_of list ∷ r ++ ys)) same (begin-count (tail_of list) r ys) in
      absurd (ground (arith, l.apart.0 x, again, count-append x (x ∷ r ++ ys) done))
]

pub sorted_loop-eq :
    {list : ℕ} {m : Mem} (fuel : ℕ) (less : ℕ → ℕ → Bool) (done : List ℕ) (x : ℕ) (r ys : List ℕ)
    → IsList list (done ++ (x ∷ r ++ ys)) m
    → Follows less x r
    → length r < fuel
    → sorted_loop fuel less x (begin_of ys (tail_of list)) m ≡ some true
unfolding sorted_loop
sorted_loop-eq zero less done x r ys l f h = absurd (omega arith)
sorted_loop-eq {list} {m} (suc fuel) less done x [] ys l f h =
    let e : (begin_of ys (tail_of list) == begin_of ys (tail_of list)) ≡ true = ground arith in
    rw (list_next-eq {m = m} done x ys l, e) refl
sorted_loop-eq {list} (suc fuel) less done x (y ∷ r) ys l (e, f) h =
    let moved = pass-elem done x (y ∷ r ++ ys) l in
    rw
      (
        list_next-eq done x (y ∷ r ++ ys) l,
        not_later (done ++ x ∷ []) y r ys moved,
        list_prev-eq done x (y ∷ r ++ ys) l,
        e,
      )
      (sorted_loop-eq fuel less (done ++ x ∷ []) y r ys moved f (omega arith))

pub is_sorted-eq :
    {list : ℕ} {m : Mem} (fuel : ℕ) (less : ℕ → ℕ → Bool) (done : List ℕ) (x : ℕ) (r ys : List ℕ)
    → IsList list (done ++ (x ∷ r ++ ys)) m
    → Follows less x r
    → length r < fuel
    → is_sorted fuel less x (begin_of ys (tail_of list)) m ≡ some true
unfolding is_sorted
is_sorted-eq fuel less done x r ys l f h =
    rw (not_later done x r ys l) (sorted_loop-eq fuel less done x r ys l f h)

-- The end of the run that an element starts.
pub record EndsRun (less : ℕ → ℕ → Bool) (x : ℕ) (xs : List ℕ) (end e : ℕ) : Type 0 where
  pub r : List ℕ
  pub ys : List ℕ
  pub run : Run less x xs r ys
  pub whole : xs ≡ r ++ ys
  pub place : e ≡ begin_of ys end

longer-EndsRun :
    (less : ℕ → ℕ → Bool) (x y : ℕ) (ys : List ℕ) (end e : ℕ)
    → less y x ≡ false
    → EndsRun less y ys end e
    → EndsRun less x (y ∷ ys) end e
longer-EndsRun less x y ys end e up rest = record {
  r = y ∷ rest.r;
  ys = rest.ys;
  run = ascent up rest.run;
  whole = ap (λ l. y ∷ l) rest.whole;
  place = rest.place;
}

pub run_loop-Returns :
    {list : ℕ} {m : Mem} (fuel : ℕ) (less : ℕ → ℕ → Bool) (done : List ℕ) (x : ℕ) (xs : List ℕ)
    → IsList list (done ++ x ∷ xs) m
    → length xs < fuel
    → Returns (EndsRun less x xs (tail_of list)) (run_loop fuel less x (tail_of list) m)
unfolding run_loop
run_loop-Returns zero less done x xs l h = absurd (omega arith)
run_loop-Returns {list} (suc fuel) less done x [] l h =
    let e : (tail_of list == tail_of list) ≡ true = ground arith in
    rw (list_next-eq done x [] l, e)
      (returns (record { r = []; ys = []; run = at_end; whole = refl; place = refl }))
run_loop-Returns {list} (suc fuel) less done x (y ∷ xs) l h =
    let moved = pass-elem done x (y ∷ xs) l in
    rw
      (
        list_next-eq done x (y ∷ xs) l,
        not_end (done ++ x ∷ []) y xs moved,
        list_prev-eq done x (y ∷ xs) l,
      )
      elim (Bool-cases (less y x)) [
        | inl down ↦ rw down (
            returns
              (record { r = []; ys = y ∷ xs; run = descent down; whole = refl; place = refl }))
        | inr up ↦ rw up (
            Returns-mono (run_loop-Returns fuel less (done ++ x ∷ []) y xs moved (omega arith))
              λ e. longer-EndsRun less x y xs (tail_of list) e up)
      ]

pub find_end_of_run-Returns :
    {list : ℕ} {m : Mem} (fuel : ℕ) (less : ℕ → ℕ → Bool) (done : List ℕ) (x : ℕ) (xs : List ℕ)
    → IsList list (done ++ x ∷ xs) m
    → length xs < fuel
    → Returns (EndsRun less x xs (tail_of list)) (find_end_of_run fuel less x (tail_of list) m)
unfolding find_end_of_run
find_end_of_run-Returns {list} fuel less done x xs l h =
    assert-Returns (not (x == null)) _ (ground (arith, l.apart.1, count-append null (x ∷ xs) done))
      (assert-Returns (not (tail_of list == null)) _ (ground (arith, l.apart.1)) (
        assert-Returns (not (x == tail_of list)) _ (ground (arith, not_end done x xs l))
          (run_loop-Returns fuel less done x xs l h)))
