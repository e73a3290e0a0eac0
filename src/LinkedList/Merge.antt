-- ===== src/LinkedList/Merge.antt =====
-- lib/kernel/list.c: inplace_merge () on a list in memory.
use juntos.Prelude.{
  ℕ, zero, suc, ◌+◌, ◌<◌, ◌≡◌, refl, sym, ◌∙◌, ap, Bool, true, false, ◌||◌, ◌==◌, List, [], ◌∷◌,
  ◌++◌, count, count-append, length, arith, Bool-cases, inl, inr, Returns, returns, bind-Returns,
  call-Returns, assert-Returns, Returns-then, Returns-else, Returns-mono, subst,
}
use mathlib.Core.List.{append_assoc}
use juntos.LinkedList.Elem.{Mem, null, head_of, tail_of}
use juntos.LinkedList.Chain.{IsList, Apart, SameOutside, begin_of}
use juntos.LinkedList.Shape.{interior, begin-checked, list_next-eq}
use juntos.LinkedList.Ops.{unlink, link_before}
use juntos.LinkedList.Remove.{removed}
use juntos.LinkedList.Insert.{inserted}
use juntos.LinkedList.Sort.{relink, list_splice, merge_loop}
use juntos.LinkedList.Runs.{Merge, first_done, second_done, from_first, from_second}
use juntos.LinkedList.Walk.{list_prev-eq, pass-elem, not_later}

-- The list in memory holds other elements in place of `xs`, each as often, and no field outside it
-- is changed.
pub record Rearranged (list : ℕ) (xs ys : List ℕ) (m m' : Mem) : Type 0 where
  pub holds : IsList list ys m'
  pub elems : (t : ℕ) → count t ys ≡ count t xs
  pub outside : SameOutside (head_of list ∷ tail_of list ∷ xs) m m'

pub Rearranged-trans :
    {list : ℕ} {xs ys zs : List ℕ} {m m1 m2 : Mem}
    → Rearranged list xs ys m m1
    → Rearranged list ys zs m1 m2
    → Rearranged list xs zs m m2
Rearranged-trans {list} {xs} {ys} {m} {m1} {m2} a b = record {
  holds = b.holds;
  elems = λ t. b.elems t ∙ a.elems t;
  outside = λ t out.
      let in_ys : count t (head_of list ∷ tail_of list ∷ ys) ≡ 0 = omega (arith, out, a.elems t) in
      ((b.outside t in_ys).0 ∙ (a.outside t out).0, (b.outside t in_ys).1 ∙ (a.outside t out).1);
}

-- list_splice () of one element is a removal and an insertion.
relink-one : (a b : ℕ) (m : Mem) → (a == b) ≡ false → relink a b b m ≡ link_before a b (unlink b m)
unfolding relink link_before unlink
relink-one a b m e = rw e refl

module _ {list : ℕ} {m : Mem} (done : List ℕ) (a : ℕ) (mid : List ℕ) (b : ℕ) (rest : List ℕ) where
  module _ (l : IsList list (done ++ (a ∷ mid ++ b ∷ rest)) m) where
    at_b : IsList list ((done ++ a ∷ mid) ++ b ∷ rest) m
    at_b = subst (λ zs. IsList list zs m) (sym (append_assoc done (a ∷ mid) (b ∷ rest))) l

    without-b : IsList list (done ++ (a ∷ mid ++ rest)) (unlink b m)
    without-b =
        subst (λ zs. IsList list zs (unlink b m)) (append_assoc done (a ∷ mid) rest)
          (removed (done ++ a ∷ mid) b rest at_b).0

    counted :
        (t : ℕ)
        → count t (b ∷ (done ++ (a ∷ mid ++ rest))) ≡ count t (done ++ (a ∷ mid ++ b ∷ rest))
    counted t = omega (
      arith,
      count-append t (a ∷ mid ++ rest) done,
      count-append t (a ∷ mid ++ b ∷ rest) done,
      count-append t rest mid,
      count-append t (b ∷ rest) mid,
    )

    spare : Apart (head_of list ∷ tail_of list ∷ b ∷ (done ++ (a ∷ mid ++ rest)))
    spare = ((λ t. omega (arith, l.apart.0 t, counted t)), omega (arith, l.apart.1, counted null))

    distinct : (a == b) ≡ false
    distinct = ground (
      arith,
      l.apart.0 b,
      count-append b (a ∷ mid ++ b ∷ rest) done,
      count-append b (b ∷ rest) mid,
    )

    moved-Rearranged :
        Rearranged list
          (done ++ (a ∷ mid ++ b ∷ rest))
          (done ++ b ∷ (a ∷ mid ++ rest))
          m
          (relink a b b m)
    moved-Rearranged =
        let out = removed (done ++ a ∷ mid) b rest at_b in
        let put = inserted done (a ∷ mid ++ rest) b without-b spare in
        rw (relink-one a b m distinct) (record {
          holds = put.0;
          elems = λ t. omega (
            arith,
            counted t,
            count-append t (b ∷ a ∷ mid ++ rest) done,
            count-append t (a ∷ mid ++ rest) done,
          );
          outside = λ t none.
              let gone : count t (head_of list ∷ tail_of list ∷ (done ++ a ∷ mid) ++ rest) ≡ 0 =
                omega (arith, none, counted t, ap (count t) (append_assoc done (a ∷ mid) rest)) in
              let gone' : count t (head_of list ∷ tail_of list ∷ b ∷ done ++ (a ∷ mid ++ rest))
                  ≡ 0 =
                omega (arith, none, counted t) in
              let first = out.1 t gone in
              let second = put.1 t gone' in (second.0 ∙ first.0, second.1 ∙ first.1);
        })

    pub list_splice-Returns :
        Returns
          (Rearranged list (done ++ (a ∷ mid ++ b ∷ rest)) (done ++ b ∷ (a ∷ mid ++ rest)) m)
          (list_splice a b (begin_of rest (tail_of list)) m)
    unfolding list_splice
    list_splice-Returns =
        let start = done ++ a ∷ mid in
        let ok = interior start b rest at_b in
        assert-Returns _ _ (begin-checked done (a ∷ mid ++ b ∷ rest) l) (
          Returns-else _ _ (not_later start b [] rest at_b) (
            bind-Returns _ b (list_prev-eq start b rest at_b)
              (assert-Returns _ _ ok (assert-Returns _ _ ok (returns moved-Rearranged)))))

pub Rearranged-refl :
    {list : ℕ} {xs : List ℕ} {m : Mem} → IsList list xs m → Rearranged list xs xs m m
Rearranged-refl l = record { holds = l; elems = λ t. refl; outside = λ t out. (refl, refl) }

-- An element that is behind the walk.
Rearranged-pass :
    {list : ℕ} (done : List ℕ) (x : ℕ) (xs ys : List ℕ) {m m' : Mem}
    → Rearranged list ((done ++ x ∷ []) ++ xs) ((done ++ x ∷ []) ++ ys) m m'
    → Rearranged list (done ++ x ∷ xs) (done ++ x ∷ ys) m m'
Rearranged-pass {list} done x xs ys {m} {m'} r =
    subst (λ zs. Rearranged list zs (done ++ x ∷ ys) m m') (append_assoc done (x ∷ []) xs)
      (subst (λ zs. Rearranged list ((done ++ x ∷ []) ++ xs) zs m m')
        (append_assoc done (x ∷ []) ys) r)

-- The outcome of the loop: the two runs merged, in the same place.
pub record MergedAt (less : ℕ → ℕ → Bool) (list : ℕ) (done ls rs zs : List ℕ) (m m' : Mem)
    : Type 0 where
  pub ms : List ℕ
  pub merge : Merge less ls rs ms
  pub memory : Rearranged list (done ++ (ls ++ (rs ++ zs))) (done ++ (ms ++ zs)) m m'

module _ (less : ℕ → ℕ → Bool) {list : ℕ} {m : Mem} (done : List ℕ) (a b : ℕ)
    (ls rs zs : List ℕ) where
  take_first :
      (m' : Mem)
      → less b a ≡ false
      → MergedAt less list (done ++ a ∷ []) ls (b ∷ rs) zs m m'
      → MergedAt less list done (a ∷ ls) (b ∷ rs) zs m m'
  take_first m' e r = record {
    ms = a ∷ r.ms;
    merge = from_first e r.merge;
    memory = Rearranged-pass done a _ _ r.memory;
  }

  take_second :
      (m1 m' : Mem)
      → less b a ≡ true
      → Rearranged list
          (done ++ (a ∷ ls ++ b ∷ (rs ++ zs)))
          (done ++ b ∷ (a ∷ ls ++ (rs ++ zs)))
          m
          m1
      → MergedAt less list (done ++ b ∷ []) (a ∷ ls) rs zs m1 m'
      → MergedAt less list done (a ∷ ls) (b ∷ rs) zs m m'
  take_second m1 m' e moved r = record {
    ms = b ∷ r.ms;
    merge = from_second e r.merge;
    memory = Rearranged-trans moved (Rearranged-pass done b _ _ r.memory);
  }

pub merge_loop-Returns :
    {list : ℕ} {m : Mem} (fuel : ℕ) (less : ℕ → ℕ → Bool) (done ls rs zs : List ℕ)
    → IsList list (done ++ (ls ++ (rs ++ zs))) m
    → length ls + length rs < fuel
    → Returns (MergedAt less list done ls rs zs m) (
        merge_loop fuel less
          (begin_of (ls ++ (rs ++ zs)) (tail_of list))
          (begin_of (rs ++ zs) (tail_of list))
          (begin_of zs (tail_of list))
          m)
unfolding merge_loop
merge_loop-Returns zero less done ls rs zs l h = absurd (omega arith)
merge_loop-Returns {list} (suc fuel) less done [] rs zs l h =
    let start = begin_of (rs ++ zs) (tail_of list) in
    Returns-then {b = (start == start) || (start == begin_of zs (tail_of list))} _ _ (ground arith)
      (returns (record { ms = rs; merge = first_done; memory = Rearranged-refl l }))
merge_loop-Returns {list} (suc fuel) less done (a ∷ ls) [] zs l h =
    let end = begin_of zs (tail_of list) in
    Returns-then {b = (a == end) || (end == end)} _ _ (ground arith)
      (returns (record { ms = a ∷ ls; merge = second_done; memory = Rearranged-refl l }))
merge_loop-Returns {list} {m} (suc fuel) less done (a ∷ ls) (b ∷ rs) zs l h =
    let start = done ++ a ∷ ls in
    let l_b = at_b done a ls b (rs ++ zs) l in
    Returns-else {b = (a == b) || (b == begin_of zs (tail_of list))} _ _
      (ground (arith, distinct done a ls b (rs ++ zs) l, not_later start b rs zs l_b))
      elim (Bool-cases (less b a)) [
        | inl e ↦ Returns-then _ _ e (
            bind-Returns _ (begin_of (rs ++ zs) (tail_of list))
              (list_next-eq start b (rs ++ zs) l_b)
              (bind-Returns _ b (list_prev-eq start b (rs ++ zs) l_b) (
                call-Returns _ (list_splice-Returns done a ls b (rs ++ zs) l) λ m1 moved.
                  Returns-mono
                    (merge_loop-Returns fuel less (done ++ b ∷ []) (a ∷ ls) rs zs
                      (pass-elem done b (a ∷ ls ++ (rs ++ zs)) moved.holds) (omega arith))
                    λ m' r. take_second less done a b ls rs zs m1 m' e moved r)))
        | inr e ↦ Returns-else _ _ e (
            bind-Returns _ (begin_of (ls ++ (b ∷ rs ++ zs)) (tail_of list))
              (list_next-eq done a (ls ++ (b ∷ rs ++ zs)) l)
              (Returns-mono
                (merge_loop-Returns fuel less (done ++ a ∷ []) ls (b ∷ rs) zs
                  (pass-elem done a (ls ++ (b ∷ rs ++ zs)) l) (omega arith))
                λ m' r. take_first less done a b ls rs zs m' e r))
      ]
