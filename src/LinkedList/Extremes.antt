-- ===== src/LinkedList/Extremes.antt =====
-- lib/kernel/list.c: list_max () and list_min ().
use juntos.Prelude.{
  ℕ, zero, suc, ◌<◌, ◌≡◌, ◌⊎◌, refl, sym, ap, ◌∙◌, List, [], ◌∷◌, ◌++◌, ◌==◌, arith, some, true,
  false, Bool, if◌then◌else◌, Bool-cases, inl, inr, subst, length, count, count-append, Returns,
  returns, Returns-then, Returns-else, bind-Returns, Option, ◌>>=◌,
}
use mathlib.Core.Path.{fun_ext}
use mathlib.Core.List.{append_assoc, append-nil}
use juntos.LinkedList.Elem.{Mem, tail_of, list_next, list_begin, list_end}
use juntos.LinkedList.Shape.{list_begin-eq, list_end-eq, list_next-eq, not_end}
use juntos.LinkedList.Ops.{max_loop, list_max, min_loop, list_min}
use juntos.LinkedList.Chain.{begin_of, IsList}

-- A comparison as list_less_func is meant: `less a b` says that a is smaller.
pub record IsOrder (less : ℕ → ℕ → Bool) : Type 0 where
  pub irreflexive : (a : ℕ) → less a a ≡ false
  pub transitive : (a b c : ℕ) → less a b ≡ true → less b c ≡ true → less a c ≡ true
  pub between : (a b c : ℕ) → less a c ≡ true → (less a b ≡ true) ⊎ (less b c ≡ true)

-- `r` stands in `xs`, those in front of it are smaller, and none behind it is larger.
pub record IsMax (less : ℕ → ℕ → Bool) (r : ℕ) (xs : List ℕ) : Type 0 where
  pub front : List ℕ
  pub back : List ℕ
  pub split : xs ≡ front ++ r ∷ back
  pub smaller : (a : ℕ) → 0 < count a front → less a r ≡ true
  pub no_larger : (a : ℕ) → 0 < count a back → less r a ≡ false

-- What is larger than the largest is larger than all.
larger_than_all :
    {less : ℕ → ℕ → Bool} {r : ℕ} {xs : List ℕ} (y : ℕ)
    → IsOrder less
    → IsMax less r xs
    → less r y ≡ true
    → (a : ℕ) → 0 < count a xs
    → less a y ≡ true
larger_than_all {less} {r} {xs} y o i h a there =
    let parts = ap (count a) i.split ∙ count-append a (r ∷ i.back) i.front in
    ground (arith, parts, i.smaller a, i.no_larger a, o.transitive a r y, o.between r a y h)

IsMax-larger :
    {less : ℕ → ℕ → Bool} {r : ℕ} {xs : List ℕ} (y : ℕ)
    → IsOrder less
    → IsMax less r xs
    → less r y ≡ true
    → IsMax less y (xs ++ y ∷ [])
IsMax-larger {less} {r} {xs} y o i h = record {
  front = xs;
  back = [];
  split = refl;
  smaller = λ a there. larger_than_all y o i h a there;
  no_larger = λ a there. absurd (omega arith);
}

IsMax-kept :
    {less : ℕ → ℕ → Bool} {r : ℕ} {xs : List ℕ} (y : ℕ)
    → IsMax less r xs
    → less r y ≡ false
    → IsMax less r (xs ++ y ∷ [])
IsMax-kept {r} y i h = record {
  front = i.front;
  back = i.back ++ y ∷ [];
  split = rw i.split (append_assoc i.front (r ∷ i.back) (y ∷ []));
  smaller = i.smaller;
  no_larger = λ a there. ground (arith, i.no_larger a, count-append a (y ∷ []) i.back);
}

max_loop-Returns :
    (fuel : ℕ) {less : ℕ → ℕ → Bool} {list max : ℕ} {m : Mem} (xs ys : List ℕ)
    → IsOrder less
    → IsList list (xs ++ ys) m
    → IsMax less max xs
    → length ys < fuel
    → Returns
        (λ r. IsMax less r (xs ++ ys))
        (max_loop fuel less max (begin_of ys (tail_of list)) (tail_of list) m)
unfolding max_loop
max_loop-Returns zero xs ys o l i enough = absurd (omega arith)
max_loop-Returns (suc fuel) {less} {list} {max} xs [] o l i enough =
    Returns-then {b = tail_of list == tail_of list} _ _ (ground arith)
      (returns (subst (λ zs. IsMax less max zs) (sym (append-nil xs)) i))
max_loop-Returns (suc fuel) {less} {list} {max} {m} xs (y ∷ ys) o l i enough =
    let same = append_assoc xs (y ∷ []) ys in
    let l' = subst (λ zs. IsList list zs m) (sym same) l in
    let step = λ (r : ℕ) (i' : IsMax less r (xs ++ y ∷ [])).
      subst
        (λ zs.
          Returns (λ r'. IsMax less r' zs)
            (max_loop fuel less r (begin_of ys (tail_of list)) (tail_of list) m))
        same
        (max_loop-Returns fuel {less = less} {list = list} {m = m} (xs ++ y ∷ []) ys o l' i'
          (omega arith)) in
    Returns-else _ _ (not_end xs y ys l) (
      bind-Returns _ (begin_of ys (tail_of list)) (list_next-eq xs y ys l)
        (elim (Bool-cases (less max y)) [
          | inl up ↦ rw up (step y (IsMax-larger y o i up))
          | inr kept ↦ rw kept (step max (IsMax-kept y i kept))
        ]))

-- The answer over `xs`: of an empty list it is the end.
abbrev pub MaxOf : (ℕ → ℕ → Bool) → (end : ℕ) → List ℕ → ℕ → Type 0
MaxOf less end [] r = r ≡ end
MaxOf less end (x ∷ xs) r = IsMax less r (x ∷ xs)

IsMax-single : (less : ℕ → ℕ → Bool) (x : ℕ) → IsMax less x (x ∷ [])
IsMax-single less x = record {
  front = [];
  back = [];
  split = refl;
  smaller = λ a there. absurd (omega arith);
  no_larger = λ a there. absurd (omega arith);
}

-- list_max (), on fuel for every element and the end, by a comparison that is an order: the answer
-- is an element that no other exceeds, the first of those; the tail, where the list is empty.
pub list_max_lem :
    (fuel list : ℕ) (m : Mem) (less : ℕ → ℕ → Bool) (xs : List ℕ)
    → IsOrder less
    → IsList list xs m
    → length xs < fuel
    → Returns (MaxOf less (tail_of list) xs) (list_max fuel less list m)
unfolding list_max
list_max_lem fuel list m less [] o l enough = bind-Returns _ (tail_of list) (list_begin-eq l) (
    bind-Returns _ (tail_of list) (list_end-eq l)
      (Returns-then {b = tail_of list == tail_of list} _ _ (ground arith) (returns refl)))
list_max_lem fuel list m less (x ∷ xs) o l enough = bind-Returns _ x (list_begin-eq l) (
    bind-Returns _ (tail_of list) (list_end-eq l) (
      Returns-else _ _ (not_end [] x xs l) (
        bind-Returns _ (begin_of xs (tail_of list)) (list_next-eq [] x xs l)
          (max_loop-Returns fuel (x ∷ []) xs o l (IsMax-single less x) (omega arith)))))

-- The other way round: list_min () is list_max () by the converse comparison.
abbrev pub converse : (ℕ → ℕ → Bool) → ℕ → ℕ → Bool
converse less a b = less b a

min_loop-eq :
    (fuel : ℕ) (less : ℕ → ℕ → Bool) (min e end : ℕ) (m : Mem)
    → min_loop fuel less min e end m ≡ max_loop fuel (converse less) min e end m
unfolding min_loop max_loop
min_loop-eq zero less min e end m = refl
min_loop-eq (suc fuel) less min e end m =
    ap (λ rest. if e == end then some min else (list_next e m >>= rest))
      (fun_ext λ e'. min_loop-eq fuel less (if less e min then e else min) e' end m)

list_min-eq :
    (fuel list : ℕ) (m : Mem) (less : ℕ → ℕ → Bool)
    → list_min fuel less list m ≡ list_max fuel (converse less) list m
unfolding list_min list_max
list_min-eq fuel list m less =
    ap
      (λ (loop : ℕ → ℕ → ℕ → Option ℕ). list_begin list m >>= λ min. list_end list >>= λ end.
        if min == end then some min else (list_next min m >>= λ e. loop min e end))
      (fun_ext λ min. fun_ext λ e. fun_ext λ end. min_loop-eq fuel less min e end m)

converse-IsOrder : {less : ℕ → ℕ → Bool} → IsOrder less → IsOrder (converse less)
converse-IsOrder o = record {
  irreflexive = o.irreflexive;
  transitive = λ a b c h k. o.transitive c b a k h;
  between = λ a b c h. elim (o.between c b a h) [ inl k ↦ inr k | inr k ↦ inl k ];
}

-- list_min () likewise: an element than which no other is smaller, the first of those.
pub list_min_lem :
    (fuel list : ℕ) (m : Mem) (less : ℕ → ℕ → Bool) (xs : List ℕ)
    → IsOrder less
    → IsList list xs m
    → length xs < fuel
    → Returns (MaxOf (converse less) (tail_of list) xs) (list_min fuel less list m)
list_min_lem fuel list m less xs o l enough =
    rw (list_min-eq fuel list m less)
      (list_max_lem fuel list m (converse less) xs (converse-IsOrder o) l enough)
