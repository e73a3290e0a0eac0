-- ===== src/Threads/Timer.antt =====
-- devices/timer.c and threads/interrupt.c: what one timer interrupt does to the threads.
use juntos.Prelude.{
  ℕ, ◌+◌, ◌%◌, ◌^◌, ◌≡◌, ◌≤◌, refl, sym, subst, ◌∙◌, Bool, true, false, not, Option, some, List, [],
  ◌∷◌, ◌++◌, arith, if◌then◌else◌, leb, Returns, returns, Returns-mono, Returns-then, Returns-else,
  assert-Returns, bind-Returns, call-Returns, inl, inr, Bool-cases,
}
use juntos.Prelude.Int.{ℤ, ◌≤ℤ◌, pos, neg_part, ◌+ℤ◌}
use juntos.Threads.State.{Frame, Kernel, alarm_of, is_ptr, push_frame}
use juntos.Threads.Interrupt.{intr_disable}
use juntos.Threads.Sched.{thread_current}
use juntos.Threads.Yield.{requeue}
use juntos.Threads.Sleep.{
  int64_max, add_int64, int64_max, count_tick, thread_tick, timer_interrupt, enter_irq, leave_irq,
  timer_irq, time_slice,
}
use juntos.Threads.Alarm.{◌<ℤ◌, Timely, not_due, due, IsSorted-keep_if}
use juntos.Threads.Alarm.Wakeup.{Woken, thread_wakeup_lem}
use juntos.Threads.Alarm.Sleep.{IsSorted-cong, IsEarliest-cong, Keeps-Timely, sleeper-safe}
use juntos.Threads.Invariant.{Inv, IsValid, SameLists-Inv, same_lists}
use juntos.Threads.Invariant.Free.{CanFree}
use juntos.Threads.Invariant.Schedule.{NextIs}
use juntos.Threads.Invariant.Block.{CanBlock, current-running}
use juntos.Threads.Invariant.Yield.{same_pool, thread_yield-Returns}

-- A call that the running thread makes changes no list.
pub push_frame-IsValid : (f : Frame) (k : Kernel) → IsValid k → IsValid (push_frame f k)
push_frame-IsValid f k v = record {
  running = v.running;
  ready = v.ready;
  asleep = λ t. ground (arith, v.asleep t, v.running t);
  waiting = λ s t. ground (arith, v.waiting s t, v.running t);
  doomed = v.doomed;
  idle_alive = v.idle_alive;
  idle_calm = λ s t h. ground (arith, v.idle_calm s t h, v.running t);
}

-- Whether the slice of the running thread ends with the next tick.
abbrev pub slice_ends : Kernel → Bool
slice_ends k = leb time_slice ((k.thread_ticks + 1) % 2 ^ 32)

-- The state behind thread_tick ().
ticked : Kernel → Kernel
ticked k = record (count_tick k) {
  yield_on_return = if slice_ends k then true else k.yield_on_return;
}

thread_tick-eq :
    (k : Kernel) → IsValid k → k.in_external_intr ≡ true → thread_tick k ≡ some (ticked k)
unfolding thread_tick ticked thread_current count_tick
thread_tick-eq k v h = ground (arith, current-running v)

-- The ready list with the threads whose alarm has come.
abbrev pub ready_now : Kernel → List ℕ
ready_now k = k.ready_list ++ due (alarm_of k.page) (k.ticks +ℤ pos 1) k.sleep_list

-- What a timer interrupt leaves.
pub record Ticked (k k' : Kernel) : Type 0 where
  pub valid : IsValid k'
  pub timely : Timely k'
  pub can_block : CanBlock k'
  pub ticks : k'.ticks ≡ k.ticks +ℤ pos 1
  pub asleep : k'.sleep_list ≡ not_due (alarm_of k.page) (k.ticks +ℤ pos 1) k.sleep_list
  pub goes_on : slice_ends k ≡ false → (k'.current ≡ k.current) × (k'.ready_list ≡ ready_now k)
  pub preempts :
      slice_ends k ≡ true
      → NextIs
          (if is_ptr k.idle_thread k.current then ready_now k else ready_now k ++ k.current ∷ [])
          k.idle_thread
          k'

-- A tick below the tail's address does not overflow.
next_tick :
    (a tail : ℤ)
    → a +ℤ pos 1 <ℤ tail
    → tail ≤ℤ int64_max
    → neg_part a ≤ 2 ^ 63
    → add_int64 a (pos 1) ≡ some (a +ℤ pos 1)
unfolding add_int64
next_tick a tail h t n = ground arith

ticked-Inv : (k : Kernel) → IsValid k → IsValid (ticked k)
unfolding ticked count_tick
ticked-Inv k v = SameLists-Inv (same_lists refl refl refl refl refl refl refl) v

-- The state in which thread_wakeup () is called.
at_wakeup : Kernel → Kernel
at_wakeup k = ticked (record (enter_irq k) { ticks = k.ticks +ℤ pos 1 })

at_wakeup-IsValid : (k : Kernel) → IsValid k → IsValid (at_wakeup k)
unfolding at_wakeup ticked count_tick enter_irq intr_disable
at_wakeup-IsValid k v =
    SameLists-Inv (same_lists refl refl refl refl refl refl refl)
      (push_frame-IsValid Frame.iret k v)

timer_interrupt-Returns :
    (k : Kernel)
    → IsValid k
    → Timely k
    → k.ticks +ℤ pos 1 <ℤ k.sleep_tail
    → neg_part k.ticks ≤ 2 ^ 63
    → Returns
        (Woken
          (some k.current)
          (alarm_of k.page)
          (k.ticks +ℤ pos 1)
          k.sleep_list
          int64_max
          (at_wakeup k))
        (timer_interrupt (enter_irq k))
unfolding timer_interrupt at_wakeup ticked count_tick enter_irq intr_disable
timer_interrupt-Returns k v i small n =
    let now = k.ticks +ℤ pos 1 in
    bind-Returns {m = add_int64 k.ticks (pos 1)} _ now
      (next_tick k.ticks k.sleep_tail small i.tail_fits n)
      (bind-Returns {m = thread_tick (record (enter_irq k) { ticks = now })} _ (at_wakeup k)
        (thread_tick-eq (record (enter_irq k) { ticks = now })
          (SameLists-Inv (same_lists refl refl refl refl refl refl refl)
            (push_frame-IsValid Frame.iret k v))
          refl)
        (thread_wakeup_lem now (at_wakeup k) (at_wakeup-IsValid k v)
          (record { sorted = i.sorted; earliest = i.earliest; tail_fits = i.tail_fits }) refl
          small))

-- The list is right behind the wake-up.
Woken-Timely :
    {r : Option ℕ} {now : ℤ} {k k' : Kernel}
    → Timely k
    → Woken r (alarm_of k.page) now k.sleep_list int64_max k k'
    → Timely k'
Woken-Timely {now} {k} {k'} i w = record {
  sorted = rw w.asleep (
      IsSorted-cong (alarm_of k.page) (alarm_of k'.page) _ (λ t h. w.alarms t)
        (IsSorted-keep_if (alarm_of k.page) _ k.sleep_list i.sorted));
  earliest =
      rw (w.asleep, w.sleep_tail)
        (IsEarliest-cong (alarm_of k.page) (alarm_of k'.page) _ _ _ (λ t h. w.alarms t) w.earliest);
  tail_fits = rw w.sleep_tail i.tail_fits;
}

-- Behind the handler, where the running thread may lose the CPU.
leave_irq-Returns :
    (k k' : Kernel)
    → CanBlock k
    → Timely k
    → (slice_ends k ≡ true → CanFree k)
    → Woken
        (some k.current)
        (alarm_of k.page)
        (k.ticks +ℤ pos 1)
        k.sleep_list
        int64_max
        (at_wakeup k)
        k'
    → Returns (Ticked k) (leave_irq k')
unfolding leave_irq requeue at_wakeup ticked count_tick enter_irq intr_disable
leave_irq-Returns k k' b i f w =
    let out : Kernel = record k' { in_external_intr = false } in
    let timely : Timely k' =
      Woken-Timely {k = at_wakeup k}
        (record { sorted = i.sorted; earliest = i.earliest; tail_fits = i.tail_fits }) w in
    let valid : IsValid k' = subst (λ c. Inv (some c) k') (sym w.current) w.inv in
    let valid_out : IsValid out =
      SameLists-Inv (same_lists refl refl refl refl refl refl refl) valid in
    let ready_to_go : CanBlock out = record {
      outside = refl;
      idle_set = rw w.idle_thread b.idle_set;
    } in
    assert-Returns (not k'.intr_on) _ (rw w.off) (
      assert-Returns k'.in_external_intr _ w.handling (elim (Bool-cases (slice_ends k)) [
        | inl ends ↦
            let yields : k'.yield_on_return ≡ true = w.yields ∙ (rw ends) in
            let can_free : CanFree out = same_pool {k = k} w.pool (f ends) in
            Returns-then _ _ yields (
              Returns-mono (thread_yield-Returns out valid_out ready_to_go can_free) λ k'' e.
                record {
                  valid = e.valid;
                  timely = Keeps-Timely (sleeper-safe valid_out) e.keeps (record {
                    sorted = timely.sorted;
                    earliest = timely.earliest;
                    tail_fits = timely.tail_fits;
                  });
                  can_block = record {
                    outside = e.keeps.outside;
                    idle_set = rw (e.keeps.idle_thread, w.idle_thread) b.idle_set;
                  };
                  ticks = e.keeps.ticks ∙ w.ticks;
                  asleep = e.keeps.sleep_list ∙ w.asleep;
                  goes_on = λ not_ends. absurd (cc);
                  preempts = λ _. rw (w.ready, w.current, w.idle_thread) at e.turn;
                })
        | inr goes_on ↦
            let stays : k'.yield_on_return ≡ false = w.yields ∙ (rw goes_on) in
            Returns-else _ _ stays (
              returns (record {
                valid = valid_out;
                timely = record {
                  sorted = timely.sorted;
                  earliest = timely.earliest;
                  tail_fits = timely.tail_fits;
                };
                can_block = record { outside = refl; idle_set = rw w.idle_thread b.idle_set };
                ticks = w.ticks;
                asleep = w.asleep;
                goes_on = λ _. (w.current, w.ready);
                preempts = λ ends. absurd (cc);
              }))
      ]))

-- The timer's interrupt, taken with interrupts on and outside another one, at a tick below the
-- tail's address; if the slice ends, no page is to be freed, or the lock of the kernel pool is free
-- and those pages are used. It returns in a valid state; time goes on by one tick; the threads whose alarm has come are
-- off the sleep list, and the others are on it, in order. Where the running thread's slice does not
-- end it goes on running, and those threads stand at the end of ready_list, in the order of their
-- alarms. Where it ends, the running thread goes behind them, unless it is the idle thread, and the
-- front of the list runs, the idle thread where the list is empty.
pub timer_irq_lem :
    (k : Kernel)
    → IsValid k
    → Timely k
    → CanBlock k
    → (slice_ends k ≡ true → CanFree k)
    → k.intr_on ≡ true
    → k.ticks +ℤ pos 1 <ℤ k.sleep_tail
    → neg_part k.ticks ≤ 2 ^ 63
    → Returns (Ticked k) (timer_irq k)
unfolding timer_irq
timer_irq_lem k v i b f on small n = assert-Returns k.intr_on _ on (
    assert-Returns (not k.in_external_intr) _ (rw b.outside) (
      call-Returns _ (timer_interrupt-Returns k v i small n)
        (λ k' w. leave_irq-Returns k k' b i f w)))
