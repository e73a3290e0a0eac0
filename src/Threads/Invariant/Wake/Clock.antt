-- ===== src/Threads/Invariant/Wake/Clock.antt =====
-- threads/synch.c: a wake-up of sema_up () and the clock of the sleep list.
use juntos.Prelude.{update, ℕ, ◌≡◌, refl, List, [], ◌∷◌}
use juntos.Threads.State.{Status, Kernel, alarm_of}
use juntos.Threads.Interrupt.{intr_disable}
use juntos.Threads.Invariant.Keeps.{alarm_of-set_status}
use juntos.Threads.Invariant.Wake.{unblocked, woken, raised, upped}

-- The clock, the interrupts and the idle thread are as they were.
pub record Clock (k k' : Kernel) : Type 0 where
  pub alarms : (t : ℕ) → alarm_of k'.page t ≡ alarm_of k.page t
  pub sleep_list : k'.sleep_list ≡ k.sleep_list
  pub earliest : k'.earliest_wake_up_tick ≡ k.earliest_wake_up_tick
  pub sleep_tail : k'.sleep_tail ≡ k.sleep_tail
  pub outside : k'.in_external_intr ≡ k.in_external_intr
  pub idle_thread : k'.idle_thread ≡ k.idle_thread

unblocked-Clock : (t : ℕ) (k : Kernel) → Clock k (unblocked t k)
unfolding unblocked
unblocked-Clock t k = record {
  alarms = alarm_of-set_status k.page t Status.ready;
  sleep_list = refl;
  earliest = refl;
  sleep_tail = refl;
  outside = refl;
  idle_thread = refl;
}

woken-Clock : (xs : List ℕ) (s : ℕ) (k : Kernel) → Clock k (woken xs s k)
unfolding woken
woken-Clock [] s k = record {
  alarms = λ t. refl;
  sleep_list = refl;
  earliest = refl;
  sleep_tail = refl;
  outside = refl;
  idle_thread = refl;
}
woken-Clock (t ∷ rest) s k =
    let c = unblocked-Clock t (record k { waiters = update k.waiters s rest }) in
    record {
      alarms = c.alarms;
      sleep_list = c.sleep_list;
      earliest = c.earliest;
      sleep_tail = c.sleep_tail;
      outside = c.outside;
      idle_thread = c.idle_thread;
    }

pub upped-Clock : (s : ℕ) (k : Kernel) → Clock k (upped s k)
unfolding upped raised intr_disable
upped-Clock s k =
    let c = woken-Clock (k.waiters s) s (intr_disable k) in
    record {
      alarms = c.alarms;
      sleep_list = c.sleep_list;
      earliest = c.earliest;
      sleep_tail = c.sleep_tail;
      outside = c.outside;
      idle_thread = c.idle_thread;
    }
