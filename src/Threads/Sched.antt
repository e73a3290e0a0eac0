-- ===== src/Threads/Sched.antt =====
-- threads/thread.c: blocking, unblocking, and the scheduler.
use juntos.Prelude.{
  ℕ, Bool, true, false, not, ◌&&◌, Option, some, List, [], ◌∷◌, ◌++◌, ◌==◌, if◌then◌else◌, assert,
  ◌>>◌, ◌>>=◌,
}
use juntos.Threads.State.{
  Status, Thread, Frame, Kernel, set_status, is_running, is_blocked, is_dying,
}
use juntos.Threads.Interrupt.{intr_disable, intr_set_level}

-- The running thread; is_thread () holds where a struct thread stands.
unfoldable pub thread_current : Kernel → Option Thread
thread_current k = do th ← k.page k.current; assert (is_running th.status); some th

-- By the state of ready_list.
unfoldable pub next_of : List ℕ → Kernel → Option ℕ × Kernel
next_of [] k = (k.idle_thread, k)
next_of (t ∷ rest) k = (some t, record k { ready_list = rest })

unfoldable pub next_thread_to_run : Kernel → Option ℕ × Kernel
unfolding next_of
next_thread_to_run k = next_of k.ready_list k

-- do_iret () loads the flags of `next`: FLAG_IF from thread_create (), or those that its own
-- thread_launch () saved, where schedule () has interrupts off.
abbrev pub saved_if : List Frame → Bool
saved_if [] = false
saved_if (Frame.enter ∷ _) = true
saved_if (_ ∷ _) = false

-- The switch itself: from here on the CPU runs `next`, behind its own thread_launch ().
unfoldable pub thread_launch : ℕ → Kernel → Kernel
thread_launch next k = record k { current = next; intr_on = saved_if (k.stack next) }

-- The end of schedule (): nothing, where curr == next.
unfoldable pub switch_from : Status → ℕ → Kernel → Kernel
unfolding thread_launch
switch_from st next k =
    if k.current == next
    then k
    else thread_launch next (record k {
      destruction_req =
          if is_dying st && not (k.current == k.initial_thread)
          then k.destruction_req ++ k.current ∷ []
          else k.destruction_req;
    })

-- next->status = THREAD_RUNNING; thread_ticks = 0;
unfoldable pub start_slice : ℕ → Kernel → Kernel
start_slice next k = record (set_status next Status.running k) { thread_ticks = 0 }

unfoldable pub schedule : Kernel → Option Kernel
unfolding next_thread_to_run start_slice switch_from
schedule k = do
  assert (not k.intr_on)
  curr ← k.page k.current
  assert (not (is_running curr.status))
  next ← (next_thread_to_run k).0
  _ ← k.page next
  some (switch_from curr.status next (start_slice next (next_thread_to_run k).1))

unfoldable pub thread_block : Kernel → Option Kernel
unfolding thread_current schedule
thread_block k = do
  assert (not k.in_external_intr)
  assert (not k.intr_on)
  _ ← thread_current k
  schedule (set_status k.current Status.blocked k)

unfoldable pub thread_unblock : ℕ → Kernel → Option Kernel
unfolding intr_disable intr_set_level
thread_unblock t k = do
  th ← k.page t
  assert (is_blocked th.status)
  intr_set_level k.intr_on
      (set_status t Status.ready (record (intr_disable k) { ready_list = k.ready_list ++ t ∷ [] }))
