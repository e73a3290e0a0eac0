-- ===== src/Threads/System/Steps.antt =====
-- threads/thread.c, threads/synch.c, devices/timer.c: the threads as one system, the calls, interrupts
-- and resumed threads in any order.
use juntos.Prelude.{
  ℕ, ◌+◌, ◌≤◌, ◌≡◌, ◌≢◌, sym, Bool, true, false, Option, none, some, List, [], ◌∷◌, arith, count,
  Returns, returns, Returns-mono, Returns-of_eq, Returns-elim, ◌^◌,
}
use juntos.Prelude.Int.{ℤ, pos, neg_part, ◌+ℤ◌}
use juntos.Threads.State.{Status, status_at, Frame, Kernel, is_ptr, set_stack}
use juntos.Threads.Interrupt.{intr_set_level}
use juntos.Threads.Yield.{thread_yield, thread_exit}
use juntos.Threads.Sleep.{thread_sleep, timer_irq}
use juntos.Threads.Synch.{sema_down, sema_up}
use juntos.Threads.Create.{run_frame}
use juntos.Threads.System.Calls.{
  Consistent, yield-Consistent, exit-Consistent, sleep-Consistent, down-Consistent, up-Consistent,
  level-Consistent, down_loop-Consistent, resumed-Consistent,
}
use juntos.Threads.System.Idle.{idle_block-Consistent, idle_halt-Consistent}
use juntos.Threads.Invariant.{bit, runs, queued, sleeping, waiting_for, if_blocked}
use juntos.Threads.Invariant.Free.{CanFree}
use juntos.Threads.Invariant.Wake.{intr_set_level-eq}
use juntos.Threads.Alarm.{◌<ℤ◌}
use juntos.Threads.Timer.{slice_ends, timer_irq_lem}

-- The frames that thread_sleep (), thread_yield () and an interrupt leave, a new thread's first, and
-- those of the idle thread's loop.
abbrev pub goes_back : Frame → Bool
goes_back (Frame.sleep_return old) = true
goes_back (Frame.yield_return old) = true
goes_back Frame.iret = true
goes_back Frame.enter = true
goes_back Frame.idle_block = true
goes_back Frame.idle_halt = true
goes_back _ = false

-- One step of the system. The idle thread makes none of the calls that block or end a thread. A
-- thread that comes back in sema_down () finds interrupts off, as schedule () leaves them. Where a
-- call frees pages, the lock of their pool is free.
pub data Step (k k' : Kernel) : Type 0 where
  yield : CanFree k → thread_yield k ≡ some k' → Step k k'
  exit : is_ptr k.idle_thread k.current ≡ false → CanFree k → thread_exit k ≡ some k' → Step k k'
  sleep :
      (until : ℤ)
      → is_ptr k.idle_thread k.current ≡ false
      → until <ℤ k.sleep_tail
      → thread_sleep until k ≡ some k'
      → Step k k'
  down : (s : ℕ) → is_ptr k.idle_thread k.current ≡ false → sema_down s k ≡ some k' → Step k k'
  up : (s : ℕ) → sema_up s k ≡ some k' → Step k k'
  tick :
      k.intr_on ≡ true
      → (slice_ends k ≡ true → CanFree k)
      → k.ticks +ℤ pos 1 <ℤ k.sleep_tail
      → neg_part k.ticks ≤ 2 ^ 63
      → timer_irq k ≡ some k'
      → Step k k'
  go_back :
      (f : Frame) (fs : List Frame)
      → goes_back f ≡ true
      → k.stack k.current ≡ f ∷ fs
      → run_frame f (set_stack fs k) ≡ some k'
      → Step k k'
  down_again :
      (s : ℕ) (old : Bool) (fs : List Frame)
      → is_ptr k.idle_thread k.current ≡ false
      → k.intr_on ≡ false
      → k.stack k.current ≡ Frame.down_loop s old ∷ fs
      → run_frame (Frame.down_loop s old) (set_stack fs k) ≡ some k'
      → Step k k'

pub data Steps (k : Kernel) : Kernel → Type 0 where
  start : Steps k k
  more : {k1 k2 : Kernel} → Steps k k1 → Step k1 k2 → Steps k k2

go_back-Consistent :
    (f : Frame) (k : Kernel)
    → goes_back f ≡ true
    → Consistent k
    → Returns Consistent (run_frame f k)
unfolding run_frame intr_set_level
go_back-Consistent (Frame.sleep_return old) k h c =
    Returns-of_eq (intr_set_level-eq old k c.can_block.outside) (level-Consistent k k.value old c)
go_back-Consistent (Frame.yield_return old) k h c =
    Returns-of_eq (intr_set_level-eq old k c.can_block.outside) (level-Consistent k k.value old c)
go_back-Consistent Frame.iret k h c = returns (level-Consistent k k.value true c)
go_back-Consistent Frame.enter k h c =
    Returns-of_eq (intr_set_level-eq true k c.can_block.outside) (level-Consistent k k.value true c)
go_back-Consistent Frame.idle_block k h c = idle_block-Consistent k c
go_back-Consistent Frame.idle_halt k h c = idle_halt-Consistent k c
go_back-Consistent f k h c = ground arith

Step-Consistent : {k k' : Kernel} → Consistent k → Step k k' → Consistent k'
unfolding run_frame
Step-Consistent {k} c (yield f e) = Returns-elim (yield-Consistent k c f) e
Step-Consistent {k} c (exit busy f e) = Returns-elim (exit-Consistent k c f busy) e
Step-Consistent {k} c (sleep until busy h e) = Returns-elim (sleep-Consistent k until c busy h) e
Step-Consistent {k} c (down s busy e) = Returns-elim (down-Consistent k s c busy) e
Step-Consistent {k} c (up s e) = Returns-elim (up-Consistent k s c) e
Step-Consistent {k} c (tick on f h n e) =
    Returns-elim {P = Consistent}
      (Returns-mono (timer_irq_lem k c.valid c.timely c.can_block f on h n)
        λ k' t. record { valid = t.valid; timely = t.timely; can_block = t.can_block })
      e
Step-Consistent {k} c (go_back f fs h top e) =
    Returns-elim (go_back-Consistent f (set_stack fs k) h (resumed-Consistent fs k c)) e
Step-Consistent {k} c (down_again s old fs busy off top e) =
    Returns-elim (down_loop-Consistent s old (set_stack fs k) (resumed-Consistent fs k c) off busy)
      e

Steps-Consistent : {k k' : Kernel} → Consistent k → Steps k k' → Consistent k'
Steps-Consistent c start = c
Steps-Consistent c (more steps step) = Step-Consistent (Steps-Consistent c steps) step

-- A thread that runs is on no list, and no other thread is on two.
abbrev pub OnePlace : Kernel → Type 0
OnePlace k =
    (s s' t : ℕ)
    → s ≢ s'
    → bit (is_ptr (some k.current) t)
        + count t k.ready_list
        + count t k.sleep_list
        + count t (k.waiters s)
        + count t (k.waiters s')
      ≤ 1

frame_places :
    (fs : List Frame) (s s' : ℕ) → s ≢ s' → sleeping fs + waiting_for s fs + waiting_for s' fs ≤ 1
frame_places [] s s' apart = omega arith
frame_places (Frame.sleep_return old ∷ fs) s s' apart = omega arith
frame_places (Frame.down_loop r old ∷ fs) s s' apart = ground arith
frame_places (_ ∷ fs) s s' apart = omega arith

status_places :
    (st : Option Status) (idle : Bool) (n w w' : ℕ)
    → n + w + w' ≤ 1
    → bit (runs st) + queued idle st + if_blocked st n + if_blocked st w + if_blocked st w' ≤ 1
status_places none idle n w w' h = omega arith
status_places (some Status.running) idle n w w' h = omega arith
status_places (some Status.ready) idle n w w' h = ground arith
status_places (some Status.blocked) idle n w w' h = omega arith
status_places (some Status.dying) idle n w w' h = omega arith

Consistent-OnePlace : {k : Kernel} → Consistent k → OnePlace k
Consistent-OnePlace {k} c s s' t apart =
    let v = c.valid in
    rw (sym (v.running t), v.ready t, v.asleep t, v.waiting s t, v.waiting s' t)
      (status_places (status_at k t) (is_ptr k.idle_thread t) _ _ _
        (frame_places (k.stack t) s s' apart))

-- From a consistent state the system comes, by steps in any order, to consistent states only. The
-- steps are calls of thread_yield (), thread_exit (), thread_sleep (), sema_down () and sema_up (),
-- the timer's interrupts, the loop of the idle thread, and threads that go on behind a switch in
-- thread_sleep (), thread_yield (), sema_down () or an interrupt, or start; in those that free
-- pages the lock of the kernel pool is free and the pages are used. In a consistent state the lists agree with the statuses, the sleep list is in order with its first alarm kept, and no
-- thread is in two places.
pub system_lem : {k k' : Kernel} → Consistent k → Steps k k' → Consistent k' × OnePlace k'
system_lem c steps = let c' = Steps-Consistent c steps in (c', Consistent-OnePlace c')
