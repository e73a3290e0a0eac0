-- ===== src/Threads/Tests.antt =====
-- One state of the kernel, and the theorems at it: main runs, thread 3 is ready, thread 4 sleeps
-- until tick 10, thread 5 waits on the semaphore at 100, thread 6 has ended,
-- and the idle thread 2 is in its loop.
use juntos.Prelude.{
  ℕ, ◌≡◌, refl, inr, true, false, Option, none, some, List, [], ◌∷◌, ◌==◌, if◌then◌else◌, arith,
  Returns,
}
use juntos.Prelude.Int.{ℤ, pos, ◌+ℤ◌}
use juntos.Threads.State.{Status, Thread, Frame, Kernel, alarm_of}
use juntos.Threads.Sched.{
  thread_current, thread_block, schedule, next_thread_to_run, next_of, start_slice, switch_from,
  thread_launch, thread_unblock,
}
use juntos.Threads.Yield.{
  thread_exit, free_waits, thread_yield, requeue, do_schedule, reap, free_start, free_locked,
}
use juntos.Threads.Sleep.{int64_max, thread_sleep, thread_wakeup, timer_irq}
use juntos.Threads.Synch.{
  sema_down, sema_up, add_waiter, wake_first_of, lock_own, lock_held_by_current_thread,
}
use juntos.Threads.Interrupt.{intr_disable, intr_set_level, intr_enable}
use juntos.Threads.Invariant.{IsValid}
use juntos.Threads.Invariant.Free.{CanFree}
use juntos.Threads.Invariant.Block.{CanBlock}
use juntos.Threads.Alarm.{Timely}
use juntos.Threads.Alarm.Wakeup.{Woken, thread_wakeup_lem}
use juntos.Threads.Alarm.Sleep.{Slept, thread_sleep_lem}
use juntos.Threads.Timer.{Ticked, timer_irq_lem}
use juntos.Threads.Semaphore.{Downed, Upped, sema_down_lem, sema_up_lem}
use juntos.Threads.System.Calls.{Consistent}
use juntos.Threads.System.Steps.{Steps, start, more, up, yield, OnePlace, system_lem}

abbrev thread : ℕ → Status → ℤ → Option Thread
thread tid st alarm =
    some (record { tid = tid; status = st; name = []; priority = pos 31; alarm = alarm })

abbrev pages : ℕ → Option Thread
pages t =
    if t == 1
    then thread 1 Status.running (pos 0)
    else if t == 2
    then thread 2 Status.blocked (pos 0)
    else if t == 3
    then thread 3 Status.ready (pos 0)
    else if t == 4
    then thread 4 Status.blocked (pos 10)
    else if t == 5
    then thread 5 Status.blocked (pos 0)
    else if t == 6
    then thread 6 Status.dying (pos 0)
    else none

abbrev stacks : ℕ → List Frame
stacks t =
    if t == 2
    then Frame.idle_halt ∷ []
    else if t == 4
    then Frame.sleep_return true ∷ []
    else if t == 5
    then Frame.down_loop 100 true ∷ []
    else []

abbrev busy : Kernel
busy = record {
  page = pages;
  ready_list = 3 ∷ [];
  sleep_list = 4 ∷ [];
  destruction_req = 6 ∷ [];
  earliest_wake_up_tick = pos 10;
  idle_thread = some 2;
  initial_thread = 1;
  next_tid = 6;
  tid_lock = 200;
  pool_lock = 300;
  used = λ t. true;
  sleep_tail = pos 0x80_0421_0000;
  idle_ticks = 0;
  kernel_ticks = 9;
  thread_ticks = 3;
  ticks = pos 9;
  current = 1;
  stack = stacks;
  intr_on = true;
  in_external_intr = false;
  yield_on_return = false;
  value = λ s. if s == 200 then 1 else if s == 300 then 1 else 0;
  waiters = λ s. if s == 100 then 5 ∷ [] else [];
  holder = λ l. none;
  cond_waiters = λ c. [];
}

busy-IsValid : IsValid busy
busy-IsValid = record {
  running = λ t. ground arith;
  ready = λ t. ground arith;
  asleep = λ t. ground arith;
  waiting = λ s t. ground arith;
  doomed = λ t. ground arith;
  idle_alive = λ t h. ground arith;
  idle_calm = λ s t h. ground arith;
}

busy-Timely : Timely busy
busy-Timely = record { sorted = (tt, tt); earliest = refl; tail_fits = omega arith }

busy-CanBlock : CanBlock busy
busy-CanBlock = record { outside = refl; idle_set = refl }

busy-CanFree : CanFree busy
busy-CanFree = inr (record { value = refl; holder = refl; waiters = refl; used = λ t h. refl })

-- The same inside a handler: interrupts are off.
abbrev quiet : Kernel
quiet = record busy { intr_on = false }

quiet-IsValid : IsValid quiet
quiet-IsValid = record {
  running = busy-IsValid.running;
  ready = busy-IsValid.ready;
  asleep = busy-IsValid.asleep;
  waiting = busy-IsValid.waiting;
  doomed = busy-IsValid.doomed;
  idle_alive = busy-IsValid.idle_alive;
  idle_calm = busy-IsValid.idle_calm;
}

quiet-Timely : Timely quiet
quiet-Timely = record { sorted = (tt, tt); earliest = refl; tail_fits = omega arith }

thread_wakeup_example :
    Returns
      (Woken (some 1) (alarm_of quiet.page) (pos 10) (4 ∷ []) int64_max quiet)
      (thread_wakeup (pos 10) quiet)
thread_wakeup_example =
    thread_wakeup_lem (pos 10) quiet quiet-IsValid quiet-Timely refl (omega arith)

timer_irq_example : Returns (Ticked busy) (timer_irq busy)
unfolding ◌+ℤ◌
timer_irq_example =
    timer_irq_lem busy busy-IsValid busy-Timely busy-CanBlock (λ ends. busy-CanFree) refl
      (omega arith) (omega arith)

thread_sleep_example : Returns (Slept busy (pos 10)) (thread_sleep (pos 10) busy)
thread_sleep_example =
    thread_sleep_lem busy (pos 10) busy-IsValid busy-Timely busy-CanBlock refl (omega arith)

sema_down_example : Returns (Downed 100 busy) (sema_down 100 busy)
sema_down_example = sema_down_lem busy 100 busy-IsValid busy-CanBlock refl

sema_up_example : Returns (Upped 100 busy) (sema_up 100 busy)
sema_up_example = sema_up_lem busy 100 busy-IsValid refl

busy-Consistent : Consistent busy
busy-Consistent = record { valid = busy-IsValid; timely = busy-Timely; can_block = busy-CanBlock }

abbrev result : Option Kernel → Kernel
result none = busy
result (some k) = k

-- The thread that waits is woken; then main yields.
abbrev woken_up : Kernel
woken_up = result (sema_up 100 busy)

abbrev yielded : Kernel
yielded = result (thread_yield woken_up)

busy-Steps : Steps busy yielded
unfolding sema_up wake_first_of thread_unblock intr_disable intr_set_level intr_enable thread_yield
    thread_current requeue do_schedule reap free_start free_locked lock_held_by_current_thread
    lock_own schedule next_thread_to_run next_of start_slice switch_from thread_launch
busy-Steps =
    more (more start (up 100 refl)) (
      yield (inr (record { value = refl; holder = refl; waiters = refl; used = λ t h. refl })) refl)

system_example : Consistent yielded × OnePlace yielded
system_example = system_lem busy-Consistent busy-Steps

-- A page is to be freed and the lock of its pool is held: by the caller, or by thread 3.
abbrev own_pool : Kernel
own_pool = record busy { value = λ s. 0; holder = λ l. some 1 }

abbrev their_pool : Kernel
their_pool = record busy { value = λ s. 0; holder = λ l. some 3 }

yield-own_pool : thread_yield own_pool ≡ none
unfolding thread_yield thread_current requeue do_schedule reap free_start
    lock_held_by_current_thread intr_disable
yield-own_pool = refl

yield-their_pool : thread_yield their_pool ≡ none
unfolding thread_yield thread_current requeue do_schedule reap free_start free_waits
    lock_held_by_current_thread intr_disable
yield-their_pool = refl

-- Who ends waits for the lock.
exit-their_pool :
    ((result (thread_exit their_pool)).waiters 300 ≡ 1 ∷ [])
    × ((result (thread_exit their_pool)).current ≡ 3)
unfolding thread_exit thread_current do_schedule reap free_start free_waits add_waiter thread_block
    lock_held_by_current_thread intr_disable schedule next_thread_to_run next_of start_slice
    switch_from thread_launch
exit-their_pool = (refl, refl)
