-- ===== src/Threads/System/Idle.antt =====
-- threads/thread.c: the loop of the idle thread, from a consistent state.
use juntos.Prelude.{refl, none, true, arith, ◌∷◌, Returns, returns, Returns-mono}
use juntos.Threads.State.{Status, Frame, Kernel, set_status, push_frame}
use juntos.Threads.Interrupt.{intr_disable}
use juntos.Threads.Create.{idle_block, idle_halt}
use juntos.Threads.Invariant.{Inv, IsValid}
use juntos.Threads.Invariant.Block.{thread_block-Returns, current-running, not_doomed}
use juntos.Threads.Alarm.Sleep.{sleeper-safe}
use juntos.Threads.System.Calls.{
  Consistent, Switched-Consistent, same_clock, level-Consistent, resumed-Consistent,
}

-- The idle thread blocks in its loop: it is on no list.
idle-Inv :
    (k : Kernel)
    → IsValid k
    → Inv none (set_status k.current Status.blocked (push_frame Frame.idle_halt (intr_disable k)))
unfolding intr_disable
idle-Inv k v = record {
  running = λ t. ground (arith, v.running t);
  ready = λ t. ground (arith, v.ready t, v.running t);
  asleep = λ t. ground (arith, v.asleep t, v.running t);
  waiting = λ s t. ground (arith, v.waiting s t, v.running t);
  doomed = λ t. ground (arith, v.doomed t, v.running t);
  idle_alive = λ t h. ground (arith, v.idle_alive t h);
  idle_calm = λ s t h. ground (arith, v.idle_calm s t h);
}

pub idle_block-Consistent : (k : Kernel) → Consistent k → Returns Consistent (idle_block k)
unfolding idle_block intr_disable
idle_block-Consistent k c =
    let before = push_frame Frame.idle_halt (intr_disable k) in
    let (i, b) = same_clock {k' = before} c.timely c.can_block refl refl refl refl refl refl in
    Returns-mono
      (thread_block-Returns before b refl (current-running c.valid) (not_doomed c.valid)
        (idle-Inv k c.valid))
      λ k' e. Switched-Consistent (sleeper-safe c.valid) i b e

pub idle_halt-Consistent : (k : Kernel) → Consistent k → Returns Consistent (idle_halt k)
unfolding idle_halt
idle_halt-Consistent k c = returns (
    resumed-Consistent (Frame.idle_block ∷ k.stack k.current) (record k { intr_on = true })
      (level-Consistent k k.value true c))
