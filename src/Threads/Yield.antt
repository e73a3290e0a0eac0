-- ===== src/Threads/Yield.antt =====
-- threads/thread.c: yielding and exiting, with the pages of dead threads that are freed on the way,
-- palloc_free_page () of threads/palloc.c among the threads.
use juntos.Prelude.{
  update, ℕ, ◌-◌, false, not, Option, none, some, List, [], ◌∷◌, ◌++◌, ◌==◌, count, if◌then◌else◌,
  assert, ◌>>◌, ◌>>=◌,
}
use juntos.Threads.State.{Status, Frame, Kernel, set_status, is_ptr, push_frame}
use juntos.Threads.Interrupt.{intr_disable}
use juntos.Threads.Sched.{thread_current, thread_block, schedule}
use juntos.Threads.Synch.{add_waiter, lock_held_by_current_thread, lock_own, sema_up}

-- palloc_free_page (victim) up to the sema_down () of lock_acquire (&pool->lock): the page is filled
-- with 0xcc, so that no struct thread stands there.
unfoldable pub free_start : ℕ → Kernel → Option Kernel
unfolding lock_held_by_current_thread
free_start victim k = do
  let k1 = record k { page = update k.page victim none }
  assert (not k1.in_external_intr)
  held ← lock_held_by_current_thread k1.pool_lock k1
  assert (not held)
  some k1

-- palloc_free_page (victim) behind that sema_down ().
unfoldable pub free_locked : ℕ → Kernel → Option Kernel
unfolding lock_own lock_held_by_current_thread sema_up
free_locked victim k = do
  k1 ← lock_own k.pool_lock k
  assert (k1.used victim)
  let k2 = record k1 { used = update k1.used victim false }
  held ← lock_held_by_current_thread k2.pool_lock k2
  assert held
  sema_up k2.pool_lock (record k2 { holder = update k2.holder k2.pool_lock none })

-- The while of that sema_down () where the value is 0. An element that stands on ready_list is pushed
-- to the waiters too, and the two are no lists any more: none.
unfoldable pub free_waits : Status → ℕ → Kernel → Option Kernel
unfolding thread_current add_waiter thread_block
free_waits status victim k = do
  _ ← thread_current k
  assert (count k.current k.ready_list == 0)
  thread_block (add_waiter k.pool_lock k.intr_on (push_frame (Frame.reap status victim) k))

-- do_schedule () from the head of its while, by what is left of destruction_req.
unfoldable pub reap : Status → List ℕ → Kernel → Option Kernel
unfolding thread_current schedule free_start free_locked free_waits
reap status [] k = do _ ← thread_current k; schedule (set_status k.current status k)
reap status (victim ∷ rest) k = do
  k1 ← free_start victim (record k { destruction_req = rest })
  let l = k1.pool_lock
  (if k1.value l == 0 then free_waits status victim k1 else (do
    k2 ← free_locked victim (record k1 { value = update k1.value l (k1.value l - 1) })
    reap status rest k2))

unfoldable pub do_schedule : Status → Kernel → Option Kernel
unfolding thread_current reap
do_schedule status k = do
  assert (not k.intr_on)
  _ ← thread_current k
  reap status k.destruction_req k

-- do_schedule (), in a thread that has waited for the pool's lock.
unfoldable pub reap_again : Status → ℕ → Kernel → Option Kernel
unfolding free_locked reap
reap_again status victim k = do k1 ← free_locked victim k; reap status k1.destruction_req k1

unfoldable pub thread_exit : Kernel → Option Kernel
unfolding intr_disable do_schedule
thread_exit k = do assert (not k.in_external_intr); do_schedule Status.dying (intr_disable k)

-- thread_yield () up to do_schedule ().
unfoldable pub requeue : Kernel → Kernel
unfolding intr_disable
requeue k = push_frame (Frame.yield_return k.intr_on) (record (intr_disable k) {
  ready_list =
      if is_ptr k.idle_thread k.current then k.ready_list else k.ready_list ++ k.current ∷ [];
})

unfoldable pub thread_yield : Kernel → Option Kernel
unfolding thread_current requeue do_schedule
thread_yield k = do
  _ ← thread_current k
  assert (not k.in_external_intr)
  do_schedule Status.ready (requeue k)
