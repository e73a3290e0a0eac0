-- ===== src/Threads/Invariant/Yield.antt =====
-- threads/thread.c: thread_yield () and thread_exit (), and the lists.
use juntos.Prelude.{
  update, ℕ, ◌<◌, ◌≡◌, refl, ap, inl, inr, ◌∙◌, false, not, Option, none, some, List, [], ◌∷◌,
  count, count-append, arith, assert-Returns, Returns-mono, bind-Returns, Returns,
}
use mathlib.Core.Path.{fun_ext}
use juntos.Threads.State.{Status, Thread, Kernel, status_at, set_status, is_ptr}
use juntos.Threads.Interrupt.{intr_disable}
use juntos.Threads.Sched.{thread_current}
use juntos.Threads.Yield.{do_schedule, thread_exit, thread_yield, requeue}
use juntos.Threads.Invariant.Defs.{SameLists-Inv, Inv, IsValid}
use juntos.Threads.Invariant.Free.{CanFree, pool_of, free_pages, freed, reap-freed}
use juntos.Threads.Invariant.Keeps.{Keeps-freed}
use juntos.Threads.Invariant.Schedule.{Switched, Switched-set_status, schedule-Returns, thread_of}
use juntos.Threads.Invariant.Block.{CanBlock, current-running, not_doomed}

-- The pages of destruction_req are those of dying threads.
free_pages-status :
    (xs : List ℕ) (page : ℕ → Option Thread) (t : ℕ)
    → ((count t xs ≡ 0) → free_pages xs page t ≡ page t)
      × ((0 < count t xs) → free_pages xs page t ≡ none)
free_pages-status [] page t = (λ _. refl, λ h. absurd (omega arith))
free_pages-status (x ∷ xs) page t =
    let (same, gone) = free_pages-status xs (update page x none) t in
    (λ h. ground arith, λ h. ground arith)

free_pages-Inv : {r : Option ℕ} {k : Kernel} → Inv r k → Inv r (freed k)
free_pages-Inv {r} {k} v = record {
  running =
      λ t. ground (arith, v.running t, v.doomed t, free_pages-status k.destruction_req k.page t);
  ready = λ t. ground (arith, v.ready t, v.doomed t, free_pages-status k.destruction_req k.page t);
  asleep =
      λ t. ground (arith, v.asleep t, v.doomed t, free_pages-status k.destruction_req k.page t);
  waiting = λ s t.
      ground (arith, v.waiting s t, v.doomed t, free_pages-status k.destruction_req k.page t);
  doomed = λ t. omega arith;
  idle_alive = λ t h.
      ground (arith, v.idle_alive t, v.doomed t, free_pages-status k.destruction_req k.page t);
  idle_calm = λ s t h.
      ground (arith, v.idle_calm s t, v.doomed t, free_pages-status k.destruction_req k.page t);
}

-- The status of a thread that is not freed may be set before or after.
freed_later :
    (k : Kernel) (status : Status)
    → count k.current k.destruction_req ≡ 0
    → Inv none (set_status k.current status k)
    → Inv none (set_status k.current status (freed k))
freed_later k status c v =
    SameLists-Inv
      (record {
        page = fun_ext λ t. ground (
          arith,
          c,
          free_pages-status k.destruction_req k.page t,
          free_pages-status k.destruction_req k.page k.current,
          free_pages-status k.destruction_req (set_status k.current status k).page t,
        );
        ready_list = refl;
        sleep_list = refl;
        destruction_req = refl;
        idle_thread = refl;
        stack = refl;
        waiters = refl;
      })
      (free_pages-Inv v)

do_schedule-Returns :
    (k : Kernel) (status : Status)
    → CanBlock k
    → CanFree k
    → k.intr_on ≡ false
    → status_at k k.current ≡ some Status.running
    → count k.current k.destruction_req ≡ 0
    → Inv none (set_status k.current status k)
    → Returns (Switched k) (do_schedule status k)
unfolding do_schedule thread_current
do_schedule-Returns k status b f off run c v =
    let (th, at, same) = thread_of (k.page k.current) run in
    let kept = (free_pages-status k.destruction_req k.page k.current).0 c in
    assert-Returns (not k.intr_on) _ (ground arith) (
      bind-Returns {m = thread_current k} _ th (ground arith) (
        rw (reap-freed status k f b.outside off run (λ t. ground (arith, v.doomed t)) c) (
          Returns-mono
            (Switched-set_status k.current status (
              schedule-Returns {k = set_status k.current status (freed k)} status
                (freed_later k status c v) refl off (ground (arith, kept)) b.idle_set))
            λ k' e. record {
              valid = e.valid;
              turn = e.turn;
              keeps =
                  Keeps-freed (freed k).page (freed k).used
                    (λ t. (free_pages-status k.destruction_req k.page t).0) e.keeps;
            })))

-- The pool is as free where other fields have changed.
pub same_pool : {k k' : Kernel} → pool_of k' ≡ pool_of k → CanFree k → CanFree k'
same_pool e (inl nil) = inl (ap (λ p. p.0) e ∙ nil)
same_pool {k} {k'} e (inr f) =
    let lock : k'.pool_lock ≡ k.pool_lock = ap (λ p. p.1) e in
    let value : k'.value ≡ k.value = ap (λ p. p.3) e in
    let holder : k'.holder ≡ k.holder = ap (λ p. p.4) e in
    let waiters : k'.waiters ≡ k.waiters = ap (λ p. p.5) e in
    let doomed : k'.destruction_req ≡ k.destruction_req = ap (λ p. p.0) e in
    let used : k'.used ≡ k.used = ap (λ p. p.2) e in
    inr (record {
      value = rw (lock, value) f.value;
      holder = rw (lock, holder) f.holder;
      waiters = rw (lock, waiters) f.waiters;
      used = rw (doomed, used) f.used;
    })

-- The running thread puts itself back, unless it is the idle thread.
yield-Inv : (k : Kernel) → IsValid k → Inv none (set_status k.current Status.ready (requeue k))
unfolding requeue
yield-Inv k v = record {
  running = λ t. ground (arith, v.running t);
  ready = λ t. ground (arith, v.ready t, v.running t, count-append t (k.current ∷ []) k.ready_list);
  asleep = λ t. ground (arith, v.asleep t, v.running t);
  waiting = λ s' t. ground (arith, v.waiting s' t, v.running t);
  doomed = λ t. ground (arith, v.doomed t, v.running t);
  idle_alive = λ t h. ground (arith, v.idle_alive t);
  idle_calm = λ s' t h. ground (arith, v.idle_calm s' t);
}

exit-Inv :
    (k : Kernel)
    → IsValid k
    → is_ptr k.idle_thread k.current ≡ false
    → Inv none (set_status k.current Status.dying (intr_disable k))
unfolding intr_disable
exit-Inv k v busy = record {
  running = λ t. ground (arith, v.running t);
  ready = λ t. ground (arith, v.ready t, v.running t);
  asleep = λ t. ground (arith, v.asleep t, v.running t);
  waiting = λ s' t. ground (arith, v.waiting s' t, v.running t);
  doomed = λ t. ground (arith, v.doomed t, v.running t);
  idle_alive = λ t h. ground (arith, v.idle_alive t);
  idle_calm = λ s' t h. ground (arith, v.idle_calm s' t);
}

pub thread_yield-Returns :
    (k : Kernel)
    → IsValid k
    → CanBlock k
    → CanFree k
    → Returns (Switched (requeue k)) (thread_yield k)
unfolding thread_yield thread_current requeue
thread_yield-Returns k v b f =
    let (th, at, same) = thread_of (k.page k.current) (current-running v) in
    bind-Returns {m = thread_current k} _ th (ground arith) (
      assert-Returns (not k.in_external_intr) _ (ground (arith, b.outside)) (
        do_schedule-Returns (requeue k) Status.ready
          (record { outside = b.outside; idle_set = b.idle_set })
          (same_pool {k' = requeue k} refl f) refl (current-running v) (not_doomed v)
          (yield-Inv k v)))

pub thread_exit-Returns :
    (k : Kernel)
    → IsValid k
    → CanBlock k
    → CanFree k
    → is_ptr k.idle_thread k.current ≡ false
    → Returns (Switched (intr_disable k)) (thread_exit k)
unfolding thread_exit intr_disable
thread_exit-Returns k v b f busy =
    assert-Returns (not k.in_external_intr) _ (ground (arith, b.outside)) (
      do_schedule-Returns (intr_disable k) Status.dying
        (record { outside = b.outside; idle_set = b.idle_set })
        (same_pool {k' = intr_disable k} refl f) refl (current-running v) (not_doomed v)
        (exit-Inv k v busy))
