-- ===== src/Threads/Sleep.antt =====
-- threads/thread.c: the sleep list; devices/timer.c: the tick counter and timer_sleep ().
use juntos.Prelude.{
  update, ℕ, ◌+◌, ◌^◌, ◌%◌, Bool, true, false, Option, none, some, List, [], ◌∷◌, leb,
  if◌then◌else◌, assert, not, ◌>>◌, ◌>>=◌, ltb,
}
use juntos.Prelude.Int.{ℤ, pos, pos_part, neg_part, ◌+ℤ◌}
use juntos.LinkedList.Spec.{insert_ordered}
use juntos.Threads.State.{Thread, Frame, Kernel, on_thread, alarm_of, is_ptr, push_frame}
use juntos.Threads.Interrupt.{intr_disable, intr_yield_on_return}
use juntos.Threads.Sched.{thread_current, thread_block, thread_unblock}
use juntos.Threads.Yield.{thread_yield}

-- a <= b on int64_t
abbrev pub leb_ℤ : ℤ → ℤ → Bool
leb_ℤ a b = leb (pos_part a + neg_part b) (pos_part b + neg_part a)

-- The alarms are those of the threads at the two elements.
abbrev pub timer_comparator : (ℕ → Option Thread) → ℕ → ℕ → Bool
timer_comparator page x y = leb_ℤ (alarm_of page x) (alarm_of page y)

unfoldable pub earliest_time : ℤ → Kernel → Kernel
earliest_time ticks k = record k {
  earliest_wake_up_tick =
      if leb_ℤ k.earliest_wake_up_tick ticks then k.earliest_wake_up_tick else ticks;
}

abbrev pub set_alarm_of : ℤ → Thread → Thread
set_alarm_of ticks th = record th { alarm = ticks }

-- sleeper->alarm = ticks
abbrev pub set_alarm : ℕ → ℤ → Kernel → Kernel
set_alarm t ticks k = record k {
  page = update k.page t (on_thread (set_alarm_of ticks) (k.page t));
}

-- list_insert_ordered (&sleep_list, &sleeper->elem, timer_comparator, NULL)
unfoldable pub add_sleeper : ℕ → Kernel → Kernel
unfolding insert_ordered
add_sleeper t k = record k { sleep_list = insert_ordered (timer_comparator k.page) t k.sleep_list }

-- thread_sleep () up to thread_block ().
unfoldable pub fall_asleep : ℤ → Kernel → Kernel
unfolding intr_disable earliest_time add_sleeper
fall_asleep ticks k =
    push_frame (Frame.sleep_return k.intr_on)
      (add_sleeper k.current (earliest_time ticks (set_alarm k.current ticks (intr_disable k))))

unfoldable pub thread_sleep : ℤ → Kernel → Option Kernel
unfolding thread_current fall_asleep thread_block
thread_sleep ticks k = do _ ← thread_current k; thread_block (fall_asleep ticks k)

-- list_entry (list_begin (&sleep_list), struct thread, elem)->alarm. In an empty list list_begin ()
-- is the tail element, and the word in front of it is the head's `next`, the tail's own address.
abbrev pub alarm_at_begin : Kernel → ℤ
alarm_at_begin k = elim k.sleep_list [ [] ↦ k.sleep_tail | t ∷ _ ↦ alarm_of k.page t ]

-- earliest_wake_up_tick = list_entry (list_begin (&sleep_list), …)->alarm
unfoldable pub set_earliest : Kernel → Kernel
set_earliest k = record k { earliest_wake_up_tick = alarm_at_begin k }

-- The body of the while of thread_wakeup, for the list `t ∷ rest`.
unfoldable pub wake_first : ℕ → List ℕ → Kernel → Option Kernel
unfolding thread_unblock set_earliest
wake_first t rest k = do
  k' ← thread_unblock t (record k { sleep_list = rest })
  some (set_earliest k')

-- The while itself, over what the list holds; list_pop_front () panics on an empty list.
unfoldable pub wake_loop : List ℕ → ℤ → Kernel → Option Kernel
unfolding wake_first
wake_loop [] ticks k = if leb_ℤ k.earliest_wake_up_tick ticks then none else some k
wake_loop (t ∷ rest) ticks k =
    if leb_ℤ k.earliest_wake_up_tick ticks
    then (wake_first t rest k >>= λ k'. wake_loop rest ticks k')
    else some k

abbrev pub int64_max : ℤ
int64_max = pos 0x7fff_ffff_ffff_ffff

-- By the list: the test of list_empty (), and the loop.
unfoldable pub wake_all : List ℕ → ℤ → Kernel → Option Kernel
unfolding wake_loop
wake_all [] ticks k = some (record k { earliest_wake_up_tick = int64_max })
wake_all (t ∷ rest) ticks k = wake_loop (t ∷ rest) ticks k

unfoldable pub thread_wakeup : ℤ → Kernel → Option Kernel
unfolding wake_all
thread_wakeup ticks k = wake_all k.sleep_list ticks k

-- a + b on int64_t; an overflow is undefined behaviour.
unfoldable pub add_int64 : ℤ → ℤ → Option ℤ
unfolding ◌+ℤ◌
add_int64 a b =
    if ltb (pos_part (a +ℤ b)) (2 ^ 63)
    then if leb (neg_part (a +ℤ b)) (2 ^ 63) then some (a +ℤ b) else none
    else none

-- timer_ticks () is k.ticks.
unfoldable pub timer_sleep : ℤ → Kernel → Option Kernel
unfolding thread_sleep add_int64
timer_sleep n k = do assert k.intr_on; until ← add_int64 k.ticks n; thread_sleep until k

-- TIME_SLICE
abbrev pub time_slice : ℕ
time_slice = 4

-- The statistics and ++thread_ticks, an unsigned int.
unfoldable pub count_tick : Kernel → Kernel
count_tick k = record k {
  idle_ticks = if is_ptr k.idle_thread k.current then k.idle_ticks + 1 else k.idle_ticks;
  kernel_ticks = if is_ptr k.idle_thread k.current then k.kernel_ticks else k.kernel_ticks + 1;
  thread_ticks = (k.thread_ticks + 1) % 2 ^ 32;
}

unfoldable pub thread_tick : Kernel → Option Kernel
unfolding thread_current count_tick intr_yield_on_return
thread_tick k = do
  _ ← thread_current k
  (if leb time_slice ((k.thread_ticks + 1) % 2 ^ 32)
      then intr_yield_on_return (count_tick k)
      else some (count_tick k))

unfoldable pub timer_interrupt : Kernel → Option Kernel
unfolding add_int64 thread_tick thread_wakeup
timer_interrupt k = do
  now ← add_int64 k.ticks (pos 1)
  k1 ← thread_tick (record k { ticks = now })
  thread_wakeup now k1

-- The stubs and the start of intr_handler (). The gate turns interrupts off; iret, behind the
-- handler, turns them on again.
unfoldable pub enter_irq : Kernel → Kernel
unfolding intr_disable
enter_irq k =
    push_frame Frame.iret
      (record (intr_disable k) { in_external_intr = true; yield_on_return = false })

-- The end of intr_handler ().
unfoldable pub leave_irq : Kernel → Option Kernel
leave_irq k = do
  assert (not k.intr_on)
  assert k.in_external_intr
  let k1 = record k { in_external_intr = false }
  if k.yield_on_return then thread_yield k1 else some k1

-- The interrupt of the timer: intr_handler () with timer_interrupt () as the handler.
unfoldable pub timer_irq : Kernel → Option Kernel
timer_irq k = do
  assert k.intr_on
  assert (not k.in_external_intr)
  k1 ← timer_interrupt (enter_irq k)
  leave_irq k1
