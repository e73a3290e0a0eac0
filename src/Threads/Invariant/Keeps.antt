-- ===== src/Threads/Invariant/Keeps.antt =====
-- threads/thread.c: the fields that a switch of threads has nothing to do with.
use juntos.Prelude.{
  update, ℕ, Bool, ◌≡◌, refl, sym, ap, ◌∙◌, Option, none, some, List, [], ◌∷◌, arith, ◌==◌, inl,
  inr, Bool-cases, count,
}
use juntos.Threads.State.{
  Status, Thread, Kernel, alarm_in, alarm_of, on_thread, set_status_of, set_status,
}
use juntos.Threads.Sched.{next_of, switch_from, start_slice, thread_launch}

pub record Keeps (k k' : Kernel) : Type 0 where
  pub sleep_list : k'.sleep_list ≡ k.sleep_list
  pub earliest : k'.earliest_wake_up_tick ≡ k.earliest_wake_up_tick
  pub sleep_tail : k'.sleep_tail ≡ k.sleep_tail
  pub alarms : (t : ℕ) → count t k.destruction_req ≡ 0 → alarm_of k'.page t ≡ alarm_of k.page t
  pub idle_thread : k'.idle_thread ≡ k.idle_thread
  pub outside : k'.in_external_intr ≡ k.in_external_intr
  pub stack : k'.stack ≡ k.stack
  pub value : k'.value ≡ k.value
  pub waiters : k'.waiters ≡ k.waiters
  pub holder : k'.holder ≡ k.holder
  pub ticks : k'.ticks ≡ k.ticks

alarm_in-set_status :
    (st : Status) (o : Option Thread) → alarm_in (on_thread (set_status_of st) o) ≡ alarm_in o
alarm_in-set_status st none = refl
alarm_in-set_status st (some th) = refl

-- A change of status leaves the alarms.
pub alarm_of-set_status :
    (page : ℕ → Option Thread) (t : ℕ) (st : Status) (u : ℕ)
    → alarm_of (update page t (on_thread (set_status_of st) (page t))) u ≡ alarm_of page u
alarm_of-set_status page t st u = elim (Bool-cases (u == t)) [
  | inl same ↦
      let at : u ≡ t = ground arith in
      rw same (alarm_in-set_status st (page t) ∙ ap (alarm_of page) (sym at))
  | inr other ↦ rw other
]

-- Through the choice of the next thread and the start of its time slice.
pub start_slice-Keeps :
    (xs : List ℕ) (k : Kernel) (n : ℕ) → Keeps k (start_slice n (next_of xs k).1)
unfolding start_slice next_of
start_slice-Keeps [] k n = record {
  sleep_list = refl;
  earliest = refl;
  sleep_tail = refl;
  alarms = λ t h. alarm_of-set_status k.page n Status.running t;
  idle_thread = refl;
  outside = refl;
  stack = refl;
  value = refl;
  waiters = refl;
  holder = refl;
  ticks = refl;
}
start_slice-Keeps (x ∷ xs) k n = record {
  sleep_list = refl;
  earliest = refl;
  sleep_tail = refl;
  alarms = λ t h. alarm_of-set_status k.page n Status.running t;
  idle_thread = refl;
  outside = refl;
  stack = refl;
  value = refl;
  waiters = refl;
  holder = refl;
  ticks = refl;
}

-- Through the switch.
pub switch_from-Keeps :
    (k : Kernel) {k' : Kernel} (st : Status) (n : ℕ) → Keeps k k' → Keeps k (switch_from st n k')
unfolding switch_from thread_launch
switch_from-Keeps k {k'} st n e = elim (Bool-cases (k'.current == n)) [
  | inl same ↦ rw same e
  | inr other ↦ rw other (record {
    sleep_list = e.sleep_list;
    earliest = e.earliest;
    sleep_tail = e.sleep_tail;
    alarms = e.alarms;
    idle_thread = e.idle_thread;
    outside = e.outside;
    stack = e.stack;
    value = e.value;
    waiters = e.waiters;
    holder = e.holder;
    ticks = e.ticks;
  })
]

-- The status that was set before the switch makes no difference.
pub Keeps-set_status :
    (t : ℕ) (st : Status) {k k' : Kernel} → Keeps (set_status t st k) k' → Keeps k k'
Keeps-set_status t st {k} e = record {
  sleep_list = e.sleep_list;
  earliest = e.earliest;
  sleep_tail = e.sleep_tail;
  alarms = λ u h. e.alarms u h ∙ alarm_of-set_status k.page t st u;
  idle_thread = e.idle_thread;
  outside = e.outside;
  stack = e.stack;
  value = e.value;
  waiters = e.waiters;
  holder = e.holder;
  ticks = e.ticks;
}

-- Nor do the pages that do_schedule () freed.
pub Keeps-freed :
    (page : ℕ → Option Thread) (used : ℕ → Bool) {k k' : Kernel}
    → ((t : ℕ) → count t k.destruction_req ≡ 0 → page t ≡ k.page t)
    → Keeps (record k { page = page; used = used; destruction_req = [] }) k'
    → Keeps k k'
Keeps-freed page used {k} same e = record {
  sleep_list = e.sleep_list;
  earliest = e.earliest;
  sleep_tail = e.sleep_tail;
  alarms = λ u h. e.alarms u refl ∙ ap alarm_in (same u h);
  idle_thread = e.idle_thread;
  outside = e.outside;
  stack = e.stack;
  value = e.value;
  waiters = e.waiters;
  holder = e.holder;
  ticks = e.ticks;
}
