-- ===== src/Threads/Invariant/Block.antt =====
-- threads/thread.c: thread_block () in a sleep and in a semaphore's wait, and the lists.
use juntos.Prelude.{
  ℕ, ◌+◌, ◌≡◌, refl, Bool, true, false, not, none, some, List, [], ◌∷◌, ◌==◌, count, count-append,
  arith, is_some, assert-Returns, ◌>>=◌, bind-Returns, Returns,
}
use juntos.Prelude.Int.{ℤ}
use juntos.Threads.State.{Status, Kernel, status_at, set_status, is_ptr}
use juntos.Threads.Sched.{thread_current, thread_block}
use juntos.LinkedList.Spec.{insert_ordered}
use juntos.Threads.Sleep.{fall_asleep, timer_comparator, set_alarm, add_sleeper, thread_sleep}
use juntos.Threads.Synch.{add_waiter}
use juntos.Threads.Invariant.Defs.{Inv, IsValid, bit}
use juntos.Threads.Invariant.Schedule.{Switched, Switched-set_status, schedule-Returns, thread_of}

-- What the calls rely on besides the lists: no interrupt is being handled, and the idle thread is
-- there.
pub record CanBlock (k : Kernel) : Type 0 where
  pub outside : k.in_external_intr ≡ false
  pub idle_set : is_some k.idle_thread ≡ true

pub current-running : {k : Kernel} → IsValid k → status_at k k.current ≡ some Status.running
current-running {k} v = ground (arith, v.running k.current)

pub not_doomed : {k : Kernel} → IsValid k → count k.current k.destruction_req ≡ 0
not_doomed {k} v = ground (arith, v.running k.current, v.doomed k.current)

pub thread_block-Returns :
    (k : Kernel)
    → CanBlock k
    → k.intr_on ≡ false
    → status_at k k.current ≡ some Status.running
    → count k.current k.destruction_req ≡ 0
    → Inv none (set_status k.current Status.blocked k)
    → Returns (Switched k) (thread_block k)
unfolding thread_block thread_current
thread_block-Returns k b off run c v =
    let (th, at, same) = thread_of (k.page k.current) run in
    assert-Returns (not k.in_external_intr) _ (ground (arith, b.outside)) (
      assert-Returns (not k.intr_on) _ (ground arith) (
        bind-Returns {m = thread_current k} _ th (ground arith) (
          Switched-set_status k.current Status.blocked
            (schedule-Returns Status.blocked v c off (ground arith) b.idle_set))))

-- The state that sema_down () hands to schedule ().
pub wait-Inv :
    (k : Kernel) (s : ℕ) (old : Bool)
    → IsValid k
    → is_ptr k.idle_thread k.current ≡ false
    → Inv none (set_status k.current Status.blocked (add_waiter s old k))
unfolding add_waiter
wait-Inv k s old v busy = record {
  running = λ t. ground (arith, v.running t);
  ready = λ t. ground (arith, v.ready t, v.running t);
  asleep = λ t. ground (arith, v.asleep t, v.running t);
  waiting = λ s' t.
      ground (arith, v.waiting s' t, v.running t, count-append t (k.current ∷ []) (k.waiters s));
  doomed = λ t. ground (arith, v.doomed t, v.running t);
  idle_alive = λ t h. ground (arith, v.idle_alive t h);
  idle_calm = λ s' t h. ground (arith, v.idle_calm s' t h);
}

pub sema_wait-Returns :
    (k : Kernel) (s : ℕ) (old : Bool)
    → IsValid k
    → CanBlock k
    → k.intr_on ≡ false
    → is_ptr k.idle_thread k.current ≡ false
    → Returns
        (Switched (add_waiter s old k))
        (thread_current k >>= λ _. thread_block (add_waiter s old k))
unfolding thread_current add_waiter
sema_wait-Returns k s old v b off busy =
    let (th, at, run) = thread_of (k.page k.current) (current-running v) in
    bind-Returns {m = thread_current k} _ th (ground arith) (
      thread_block-Returns (add_waiter s old k)
        (record { outside = b.outside; idle_set = b.idle_set }) off (current-running v)
        (not_doomed v) (wait-Inv k s old v busy))

-- What add_sleeper () does to the list.
count-insert_ordered :
    (less : ℕ → ℕ → Bool) (x t : ℕ) (xs : List ℕ)
    → count t (insert_ordered less x xs) ≡ bit (x == t) + count t xs
unfolding insert_ordered
count-insert_ordered less x t [] = omega arith
count-insert_ordered less x t (y ∷ ys) = ground (arith, count-insert_ordered less x t ys)

-- The state that thread_sleep () hands to schedule ().
pub sleep-Inv :
    (k : Kernel) (until : ℤ)
    → IsValid k
    → is_ptr k.idle_thread k.current ≡ false
    → Inv none (set_status k.current Status.blocked (fall_asleep until k))
unfolding add_sleeper fall_asleep
sleep-Inv k until v busy = record {
  running = λ t. ground (arith, v.running t);
  ready = λ t. ground (arith, v.ready t, v.running t);
  asleep = λ t. ground (
    arith,
    v.asleep t,
    v.running t,
    count-insert_ordered (timer_comparator (set_alarm k.current until k).page) k.current t
        k.sleep_list,
  );
  waiting = λ s' t. ground (arith, v.waiting s' t, v.running t);
  doomed = λ t. ground (arith, v.doomed t, v.running t);
  idle_alive = λ t h. ground (arith, v.idle_alive t);
  idle_calm = λ s' t h. ground (arith, v.idle_calm s' t);
}

pub thread_sleep-Returns :
    (k : Kernel) (until : ℤ)
    → IsValid k
    → CanBlock k
    → is_ptr k.idle_thread k.current ≡ false
    → Returns (Switched (fall_asleep until k)) (thread_sleep until k)
unfolding thread_sleep thread_current fall_asleep add_sleeper
thread_sleep-Returns k until v b busy =
    let (th, at, run) = thread_of (k.page k.current) (current-running v) in
    bind-Returns {m = thread_current k} _ th (ground arith) (
      thread_block-Returns (fall_asleep until k)
        (record { outside = b.outside; idle_set = b.idle_set }) refl
        (ground (arith, current-running v)) (not_doomed v) (sleep-Inv k until v busy))
