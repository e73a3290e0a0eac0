-- ===== src/Threads/System/Calls.antt =====
-- threads/thread.c, threads/synch.c: one call at a time, from a consistent state.
use juntos.Prelude.{
  ℕ, ◌-◌, ◌<◌, ◌≡◌, refl, sym, Bool, false, not, some, List, ◌==◌, arith, count, subst, Returns,
  Returns-mono, Returns-of_eq, update, inl, inr, Bool-cases, assert-Returns, ◌∙◌,
}
use mathlib.Core.Path.{fun_ext}
use juntos.Prelude.Int.{ℤ}
use juntos.Threads.State.{Frame, Kernel, is_ptr, set_stack, alarm_of}
use juntos.Threads.Interrupt.{intr_disable}
use juntos.Threads.Yield.{thread_yield, thread_exit, requeue}
use juntos.Threads.Sleep.{thread_sleep, fall_asleep, add_sleeper, earliest_time}
use juntos.Threads.Synch.{sema_down, sema_down_loop, sema_up, add_waiter}
use juntos.Threads.Invariant.{Inv, IsValid, SameLists-Inv, same_lists}
use juntos.Threads.Invariant.Schedule.{Switched}
use juntos.Threads.Invariant.Block.{CanBlock, sleep-Inv, sema_wait-Returns, thread_sleep-Returns}
use juntos.Threads.Invariant.Free.{CanFree}
use juntos.Threads.Invariant.Yield.{thread_yield-Returns, thread_exit-Returns}
use juntos.Threads.Invariant.Wake.{upped, sema_up-eq, upped-Inv, upped-fields}
use juntos.Threads.Invariant.Wake.Clock.{upped-Clock}
use juntos.Threads.Alarm.{◌<ℤ◌, Timely}
use juntos.Threads.Alarm.Sleep.{Keeps-Timely, sleeper-safe, fall_asleep-Timely}
use juntos.Threads.Semaphore.{loop_takes}

-- What holds between two steps.
pub record Consistent (k : Kernel) : Type 0 where
  pub valid : IsValid k
  pub timely : Timely k
  pub can_block : CanBlock k

-- Behind a switch from a state that was timely.
pub Switched-Consistent :
    {k k' : Kernel}
    → ((t : ℕ) → 0 < count t k.sleep_list → count t k.destruction_req ≡ 0)
    → Timely k
    → CanBlock k
    → Switched k k'
    → Consistent k'
Switched-Consistent safe i b e = record {
  valid = e.valid;
  timely = Keeps-Timely safe e.keeps i;
  can_block = record {
    outside = e.keeps.outside ∙ b.outside;
    idle_set = rw e.keeps.idle_thread b.idle_set;
  };
}

-- The clock and the interrupts look at no other fields.
pub same_clock :
    {k k' : Kernel}
    → Timely k
    → CanBlock k
    → alarm_of k'.page ≡ alarm_of k.page
    → k'.sleep_list ≡ k.sleep_list
    → k'.earliest_wake_up_tick ≡ k.earliest_wake_up_tick
    → k'.sleep_tail ≡ k.sleep_tail
    → k'.in_external_intr ≡ k.in_external_intr
    → k'.idle_thread ≡ k.idle_thread
    → Timely k' × CanBlock k'
same_clock i b alarms list earliest tail outside idle = (
  record {
    sorted = rw (alarms, list) i.sorted;
    earliest = rw (alarms, list, earliest, tail) i.earliest;
    tail_fits = rw tail i.tail_fits;
  },
  record { outside = rw outside b.outside; idle_set = rw idle b.idle_set },
)

pub yield-Consistent : (k : Kernel) → Consistent k → CanFree k → Returns Consistent (thread_yield k)
unfolding requeue intr_disable
yield-Consistent k c f =
    let (i, b) = same_clock {k' = requeue k} c.timely c.can_block refl refl refl refl refl refl in
    Returns-mono (thread_yield-Returns k c.valid c.can_block f)
      λ k' e. Switched-Consistent (sleeper-safe c.valid) i b e

pub exit-Consistent :
    (k : Kernel)
    → Consistent k
    → CanFree k
    → is_ptr k.idle_thread k.current ≡ false
    → Returns Consistent (thread_exit k)
unfolding intr_disable
exit-Consistent k c f busy =
    let (i, b) =
      same_clock {k' = intr_disable k} c.timely c.can_block refl refl refl refl refl refl in
    Returns-mono (thread_exit-Returns k c.valid c.can_block f busy)
      λ k' e. Switched-Consistent (sleeper-safe c.valid) i b e

fall_asleep-CanBlock : (k : Kernel) (until : ℤ) → CanBlock k → CanBlock (fall_asleep until k)
unfolding fall_asleep add_sleeper earliest_time intr_disable
fall_asleep-CanBlock k until b = record { outside = b.outside; idle_set = b.idle_set }

pub sleep-Consistent :
    (k : Kernel) (until : ℤ)
    → Consistent k
    → is_ptr k.idle_thread k.current ≡ false
    → until <ℤ k.sleep_tail
    → Returns Consistent (thread_sleep until k)
sleep-Consistent k until c busy h =
    Returns-mono (thread_sleep-Returns k until c.valid c.can_block busy) λ k' e.
      Switched-Consistent (sleeper-safe (sleep-Inv k until c.valid busy))
        (fall_asleep-Timely k until c.valid c.timely h) (fall_asleep-CanBlock k until c.can_block) e

-- Where the semaphore's value changes, and the interrupts are set back.
pub level-Consistent :
    (k : Kernel) (value : ℕ → ℕ) (old : Bool)
    → Consistent k
    → Consistent (record k { value = value; intr_on = old })
level-Consistent k value old c =
    let (i, b) =
      same_clock {k' = record k { value = value; intr_on = old }} c.timely c.can_block refl refl
        refl refl refl refl in
    record {
      valid = SameLists-Inv (same_lists refl refl refl refl refl refl refl) c.valid;
      timely = i;
      can_block = b;
    }

pub down_loop-Consistent :
    (s : ℕ) (old : Bool) (k : Kernel)
    → Consistent k
    → k.intr_on ≡ false
    → is_ptr k.idle_thread k.current ≡ false
    → Returns Consistent (sema_down_loop s old k)
unfolding sema_down_loop add_waiter
down_loop-Consistent s old k c off busy = elim (Bool-cases (k.value s == 0)) [
  | inl none_left ↦
      let (i, b) =
        same_clock {k' = add_waiter s old k} c.timely c.can_block refl refl refl refl refl refl in
      rw none_left (
        Returns-mono (sema_wait-Returns k s old c.valid c.can_block off busy)
          λ k' e. Switched-Consistent (sleeper-safe c.valid) i b e)
  | inr left ↦
      Returns-of_eq (loop_takes k s old c.can_block.outside left)
        (level-Consistent k (update k.value s (k.value s - 1)) old c)
]

pub down-Consistent :
    (k : Kernel) (s : ℕ)
    → Consistent k
    → is_ptr k.idle_thread k.current ≡ false
    → Returns Consistent (sema_down s k)
unfolding sema_down intr_disable
down-Consistent k s c busy =
    assert-Returns (not k.in_external_intr) _ (ground (arith, c.can_block.outside)) (
      down_loop-Consistent s k.intr_on (intr_disable k) (level-Consistent k k.value false c) refl
        busy)

pub up-Consistent : (k : Kernel) (s : ℕ) → Consistent k → Returns Consistent (sema_up s k)
up-Consistent k s c =
    let (_, current, _, _) = upped-fields s k in
    let w = upped-Clock s k in
    let (i, b) =
      same_clock {k' = upped s k} c.timely c.can_block (fun_ext w.alarms) w.sleep_list w.earliest
        w.sleep_tail w.outside w.idle_thread in
    Returns-of_eq (sema_up-eq s k c.valid c.can_block.outside) (record {
      valid = subst (λ t. Inv (some t) (upped s k)) (sym current) (upped-Inv s k c.valid);
      timely = i;
      can_block = b;
    })

-- The running thread goes on with its next call.
resumed-IsValid : (fs : List Frame) (k : Kernel) → IsValid k → IsValid (set_stack fs k)
resumed-IsValid fs k v = record {
  running = v.running;
  ready = v.ready;
  asleep = λ t. ground (arith, v.asleep t, v.running t);
  waiting = λ s t. ground (arith, v.waiting s t, v.running t);
  doomed = v.doomed;
  idle_alive = v.idle_alive;
  idle_calm = λ s t h. ground (arith, v.idle_calm s t h, v.running t);
}

pub resumed-Consistent : (fs : List Frame) (k : Kernel) → Consistent k → Consistent (set_stack fs k)
resumed-Consistent fs k c =
    let (i, b) =
      same_clock {k' = set_stack fs k} c.timely c.can_block refl refl refl refl refl refl in
    record { valid = resumed-IsValid fs k c.valid; timely = i; can_block = b }
