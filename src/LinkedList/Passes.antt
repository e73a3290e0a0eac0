-- ===== src/LinkedList/Passes.antt =====
-- lib/kernel/list.c: list_sort () on a list in memory.
use juntos.Prelude.{
  ℕ, zero, suc, ◌+◌, ◌%◌, ◌^◌, ◌<◌, ◌≡◌, sym, ◌∙◌, ap, Bool, true, false, not, ◌==◌, Option, some,
  ◌>>=◌, if◌then◌else◌, List, [], ◌∷◌, ◌++◌, count-append, length, arith, Returns, returns,
  bind-Returns, call-Returns, assert-Returns, Returns-then, Returns-else, Returns-mono, subst,
}
use mathlib.Core.List.{append_assoc}
use juntos.LinkedList.Elem.{Mem, null, tail_of}
use juntos.LinkedList.Chain.{IsList, begin_of}
use juntos.LinkedList.Shape.{not_end}
use juntos.LinkedList.Sort.{find_end_of_run, inplace_merge, pass_loop}
use juntos.LinkedList.Runs.{
  Follows, Run, Pass, no_run, one_run, two_runs, Run-Follows, Run-append, Run-length,
}
use juntos.LinkedList.Walk.{is_sorted-eq, find_end_of_run-Returns}
use juntos.LinkedList.Merge.{
  Rearranged, Rearranged-refl, Rearranged-trans, MergedAt, merge_loop-Returns,
}

place-not_null :
    {list : ℕ} {m : Mem} (done zs : List ℕ)
    → IsList list (done ++ zs) m
    → (begin_of zs (tail_of list) == null) ≡ false
place-not_null done [] l = ground (arith, l.apart.1)
place-not_null done (z ∷ zs) l = ground (arith, l.apart.1, count-append null (z ∷ zs) done)

-- The list by what stands in front of a place in it.
regroup :
    {list : ℕ} {m : Mem} (done xs ys : List ℕ)
    → IsList list (done ++ (xs ++ ys)) m
    → IsList list ((done ++ xs) ++ ys) m
regroup {list} {m} done xs ys = subst (λ zs. IsList list zs m) (sym (append_assoc done xs ys))

module _ (less : ℕ → ℕ → Bool) (fuel : ℕ) where
  inplace_merge-Returns :
      {list : ℕ} {m : Mem} (done : List ℕ) (x : ℕ) (r : List ℕ) (y : ℕ) (s zs : List ℕ)
      → IsList list (done ++ (x ∷ r ++ (y ∷ s ++ zs))) m
      → Follows less x r
      → Follows less y s
      → length (x ∷ r) + length (y ∷ s) < fuel
      → Returns
          (MergedAt less list done (x ∷ r) (y ∷ s) zs m)
          (inplace_merge fuel less x y (begin_of zs (tail_of list)) m)
  unfolding inplace_merge
  inplace_merge-Returns {list} done x r y s zs l f g h =
      let behind = regroup done (x ∷ r) (y ∷ s ++ zs) l in
      let last = regroup (done ++ x ∷ r) (y ∷ s) zs behind in
      assert-Returns (not (x == null)) _ (ap not (place-not_null done (x ∷ r ++ (y ∷ s ++ zs)) l)) (
        assert-Returns (not (y == null)) _
          (ap not (place-not_null (done ++ x ∷ r) (y ∷ s ++ zs) behind))
          (assert-Returns (not (begin_of zs (tail_of list) == null)) _
            (ap not (place-not_null ((done ++ x ∷ r) ++ y ∷ s) zs last))
            (bind-Returns _ true (is_sorted-eq fuel less done x r (y ∷ s ++ zs) l f (omega arith)) (
              bind-Returns _ true
                (is_sorted-eq fuel less (done ++ x ∷ r) y s zs behind g (omega arith))
                (merge_loop-Returns fuel less done (x ∷ r) (y ∷ s) zs l h)))))

  -- What a pass from a place in the list on leaves.
  pub record Passed (list : ℕ) (done xs : List ℕ) (cnt : ℕ) (m : Mem) (r : ℕ × Mem) : Type 0 where
    pub out : List ℕ
    pub n : ℕ
    pub pass : Pass less xs out n
    pub counted : r.0 ≡ cnt + n
    pub memory : Rearranged list (done ++ xs) (done ++ out) m r.1

  -- What is proved of a pass with so many rounds.
  abbrev Passes : (rounds : ℕ) → Type 0
  Passes rounds =
      (list : ℕ) (m : Mem) (done xs : List ℕ) (cnt : ℕ)
      → IsList list (done ++ xs) m
      → length xs < rounds
      → length xs < fuel
      → cnt + length xs < 2 ^ 64
      → Returns (Passed list done xs cnt m)
          (pass_loop rounds fuel less (begin_of xs (tail_of list)) (tail_of list) cnt m)

  two_runs-whole :
      {x y : ℕ} {xs r ys s rest : List ℕ}
      → Run less x xs r (y ∷ ys)
      → Run less y ys s rest
      → x ∷ xs ≡ x ∷ r ++ (y ∷ s ++ rest)
  two_runs-whole {x} {y} {r} a b =
      ap (λ l. x ∷ l) (Run-append less a ∙ ap (λ l. r ++ y ∷ l) (Run-append less b))

  -- Two runs merged, and the rest of the pass behind them.
  merged-Passed :
      {list : ℕ} {m m1 : Mem} (done : List ℕ) (x y : ℕ) (xs r ys s rest : List ℕ) (cnt : ℕ)
      (q : ℕ × Mem)
      → Run less x xs r (y ∷ ys)
      → Run less y ys s rest
      → (at : MergedAt less list done (x ∷ r) (y ∷ s) rest m m1)
      → Passed list (done ++ at.ms) rest (cnt + 1) m1 q
      → Passed list done (x ∷ xs) cnt m q
  merged-Passed {list} {m} {m1} done x y xs r ys s rest cnt q a b at p = record {
    out = at.ms ++ p.out;
    n = suc p.n;
    pass = two_runs a b at.merge p.pass;
    counted = omega (arith, p.counted);
    memory =
        subst (λ zs. Rearranged list (done ++ zs) (done ++ (at.ms ++ p.out)) m q.1)
          (sym (two_runs-whole a b))
          (Rearranged-trans at.memory (
            subst (λ zs. Rearranged list zs (done ++ (at.ms ++ p.out)) m1 q.1)
              (append_assoc done at.ms rest)
              (subst (λ zs. Rearranged list ((done ++ at.ms) ++ rest) zs m1 q.1)
                (append_assoc done at.ms p.out) p.memory)));
  }

  two_runs-Returns :
      {list : ℕ} {m : Mem} (rounds : ℕ) (done : List ℕ) (x y : ℕ) (xs r ys s rest : List ℕ)
      (cnt : ℕ)
      → Passes rounds
      → Run less x xs r (y ∷ ys)
      → Run less y ys s rest
      → IsList list (done ++ x ∷ xs) m
      → length xs < rounds
      → length (x ∷ xs) < fuel
      → cnt + length (x ∷ xs) < 2 ^ 64
      → Returns (Passed list done (x ∷ xs) cnt m) (
          inplace_merge fuel less x y (begin_of rest (tail_of list)) m >>= λ m'.
          pass_loop rounds fuel less
            (begin_of rest (tail_of list))
            (tail_of list)
            ((cnt + 1) % 2 ^ 64)
            m')
  two_runs-Returns {list} {m} rounds done x y xs r ys s rest cnt ih a b l hr hf hc =
      let l' = subst (λ zs. IsList list (done ++ zs) m) (two_runs-whole a b) l in
      let len_a = Run-length less a in
      let len_b = Run-length less b in
      let small : (cnt + 1) % 2 ^ 64 ≡ cnt + 1 = omega arith in
      call-Returns _
        (inplace_merge-Returns done x r y s rest l' (Run-Follows less a) (Run-Follows less b)
          (omega (arith, len_a, len_b)))
        λ m1 at. rw small (
          Returns-mono
            (ih list m1 (done ++ at.ms) rest (cnt + 1) (regroup done at.ms rest at.memory.holds)
              (omega (arith, len_a, len_b)) (omega (arith, len_a, len_b))
              (omega (arith, len_a, len_b)))
            λ q p. merged-Passed done x y xs r ys s rest cnt q a b at p)

  -- The code behind the first run of a round.
  after_run : (rounds x : ℕ) (end cnt e : ℕ) → Mem → Option (ℕ × Mem)
  after_run rounds x end cnt e m = if e == end then some ((cnt + 1) % 2 ^ 64, m) else (do
    b1 ← find_end_of_run fuel less e end m
    m' ← inplace_merge fuel less x e b1 m
    pass_loop rounds fuel less b1 end ((cnt + 1) % 2 ^ 64) m')

  after_run-Returns :
      {list : ℕ} {m : Mem} (rounds : ℕ) (done : List ℕ) (x : ℕ) (xs r ys : List ℕ) (cnt : ℕ)
      → Passes rounds
      → Run less x xs r ys
      → IsList list (done ++ x ∷ xs) m
      → length xs < rounds
      → length (x ∷ xs) < fuel
      → cnt + length (x ∷ xs) < 2 ^ 64
      → Returns
          (Passed list done (x ∷ xs) cnt m)
          (after_run rounds x (tail_of list) cnt (begin_of ys (tail_of list)) m)
  unfolding after_run
  after_run-Returns {list} rounds done x xs r [] cnt ih a l hr hf hc =
      Returns-then {b = tail_of list == tail_of list} _ _ (ground arith) (
        returns (record {
          out = x ∷ xs;
          n = 1;
          pass = one_run a;
          counted = omega arith;
          memory = Rearranged-refl l;
        }))
  after_run-Returns {list} {m} rounds done x xs r (y ∷ ys) cnt ih a l hr hf hc =
      let whole : x ∷ xs ≡ x ∷ r ++ y ∷ ys = ap (λ l. x ∷ l) (Run-append less a) in
      let l' = regroup done (x ∷ r) (y ∷ ys) (subst (λ zs. IsList list (done ++ zs) m) whole l) in
      Returns-else _ _ (not_end (done ++ x ∷ r) y ys l') (
        call-Returns _
          (find_end_of_run-Returns fuel less (done ++ x ∷ r) y ys l'
            (omega (arith, Run-length less a)))
          λ b1 ends.
            subst
              (λ e. Returns (Passed list done (x ∷ xs) cnt m) (
                inplace_merge fuel less x y e m >>= λ m'.
                pass_loop rounds fuel less e (tail_of list) ((cnt + 1) % 2 ^ 64) m'))
              (sym ends.place)
              (two_runs-Returns rounds done x y xs r ys ends.r ends.ys cnt ih a ends.run l hr hf
                hc))

  pub pass_loop-Returns : (rounds : ℕ) → Passes rounds
  unfolding pass_loop after_run
  pass_loop-Returns zero list m done xs cnt l hr hf hc = absurd (omega arith)
  pass_loop-Returns (suc rounds) list m done [] cnt l hr hf hc =
      Returns-then {b = tail_of list == tail_of list} _ _ (ground arith) (
        returns (record {
          out = [];
          n = 0;
          pass = no_run;
          counted = omega arith;
          memory = Rearranged-refl l;
        }))
  pass_loop-Returns (suc rounds) list m done (x ∷ xs) cnt l hr hf hc =
      Returns-else _ _ (not_end done x xs l) (
        call-Returns _ (find_end_of_run-Returns fuel less done x xs l (omega arith)) λ e ends.
          subst
            (λ a.
              Returns (Passed list done (x ∷ xs) cnt m) (after_run rounds x (tail_of list) cnt a m))
            (sym ends.place)
            (after_run-Returns rounds done x xs ends.r ends.ys cnt (pass_loop-Returns rounds)
              ends.run l (omega arith) hf hc))
