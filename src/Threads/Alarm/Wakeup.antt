-- ===== src/Threads/Alarm/Wakeup.antt =====
-- threads/thread.c: thread_wakeup () and the threads that are due.
use juntos.Prelude.{
  ℕ, ◌≡◌, refl, sym, ap, Returns-mono, ◌∙◌, true, false, Option, some, List, [], ◌∷◌, ◌++◌, arith,
  Returns, returns, bind-Returns, inl, inr, Bool-cases, ◌>>=◌,
}
use juntos.Prelude.Int.{ℤ}
use mathlib.Core.List.{append_assoc, append-nil}
use juntos.Threads.State.{Status, Kernel, status_at, alarm_of}
use juntos.Threads.Sleep.{
  leb_ℤ, int64_max, set_earliest, wake_first, wake_loop, wake_all, thread_wakeup,
}
use juntos.Threads.Alarm.Defs.{◌<ℤ◌, IsSorted, IsEarliest, Timely, due, not_due, due-nil, is_due}
use juntos.Threads.Invariant.{Inv, SameLists-Inv, same_lists}
use juntos.Threads.Invariant.Free.{pool_of}
use juntos.Threads.Invariant.Keeps.{alarm_of-set_status}
use juntos.Threads.Invariant.Wake.{unblocked, thread_unblock-eq, unblock-sleeper}

-- The tick that is kept when nobody sleeps any more: a loop that has emptied the list has read it
-- in the list's tail; over a list that was empty it is `before`.
abbrev pub emptied_tick : List ℕ → ℤ → ℤ → ℤ
emptied_tick [] before tail = before
emptied_tick (x ∷ xs) before tail = tail

-- What a wake-up leaves: `f` gives the alarms, `xs` is the list from where it starts.
pub record Woken (r : Option ℕ) (f : ℕ → ℤ) (now : ℤ) (xs : List ℕ) (before : ℤ) (k k' : Kernel)
    : Type 0 where
  pub inv : Inv r k'
  pub ready : k'.ready_list ≡ k.ready_list ++ due f now xs
  pub asleep : k'.sleep_list ≡ not_due f now xs
  pub earliest : IsEarliest f (not_due f now xs) k.sleep_tail k'.earliest_wake_up_tick
  pub alarms : (t : ℕ) → alarm_of k'.page t ≡ f t
  pub current : k'.current ≡ k.current
  pub off : k'.intr_on ≡ false
  pub handling : k'.in_external_intr ≡ k.in_external_intr
  pub yields : k'.yield_on_return ≡ k.yield_on_return
  pub idle_thread : k'.idle_thread ≡ k.idle_thread
  pub sleep_tail : k'.sleep_tail ≡ k.sleep_tail
  pub ticks : k'.ticks ≡ k.ticks
  pub pool : pool_of k' ≡ pool_of k
  pub emptied :
      not_due f now xs ≡ [] → k'.earliest_wake_up_tick ≡ emptied_tick xs before k.sleep_tail

-- The state behind one round of the loop.
awoken : ℕ → List ℕ → Kernel → Kernel
awoken t rest k = set_earliest (unblocked t (record k { sleep_list = rest }))

wake_first-eq :
    {r : Option ℕ} (t : ℕ) (rest : List ℕ) (k : Kernel)
    → Inv r k
    → k.sleep_list ≡ t ∷ rest
    → k.intr_on ≡ false
    → wake_first t rest k ≡ some (awoken t rest k)
unfolding wake_first awoken
wake_first-eq t rest k v e off =
    let blocked : status_at k t ≡ some Status.blocked = ground (arith, v.asleep t) in
    ap (λ m. m >>= λ k'. some (set_earliest k'))
      (thread_unblock-eq t (record k { sleep_list = rest }) blocked off)

awoken-Inv :
    {r : Option ℕ} (t : ℕ) (rest : List ℕ) (k : Kernel)
    → Inv r k
    → k.sleep_list ≡ t ∷ rest
    → Inv r (awoken t rest k)
unfolding awoken set_earliest
awoken-Inv t rest k v e =
    SameLists-Inv (same_lists refl refl refl refl refl refl refl) (unblock-sleeper k t rest v e)

awoken-alarms :
    (t : ℕ) (rest : List ℕ) (k : Kernel) (u : ℕ)
    → alarm_of (awoken t rest k).page u ≡ alarm_of k.page u
unfolding awoken set_earliest unblocked
awoken-alarms t rest k u = alarm_of-set_status k.page t Status.ready u

awoken-IsEarliest :
    (f : ℕ → ℤ) (t : ℕ) (rest : List ℕ) (k : Kernel)
    → ((u : ℕ) → alarm_of k.page u ≡ f u)
    → IsEarliest f rest k.sleep_tail (awoken t rest k).earliest_wake_up_tick
unfolding awoken set_earliest unblocked
awoken-IsEarliest f t [] k alarms = omega arith
awoken-IsEarliest f t (y ∷ ys) k alarms = awoken-alarms t (y ∷ ys) k y ∙ alarms y

emptied_tick-nil : (xs : List ℕ) (before tail : ℤ) → xs ≡ [] → emptied_tick xs before tail ≡ before
emptied_tick-nil [] before tail e = refl
emptied_tick-nil (x ∷ xs) before tail e = grind arith

stopped :
    {r : Option ℕ} (f : ℕ → ℤ) (now : ℤ) (xs : List ℕ) (before : ℤ) (k : Kernel)
    → Inv r k
    → k.sleep_list ≡ xs
    → ((t : ℕ) → alarm_of k.page t ≡ f t)
    → IsSorted f xs
    → IsEarliest f xs k.sleep_tail k.earliest_wake_up_tick
    → k.intr_on ≡ false
    → (xs ≡ [] → before ≡ k.earliest_wake_up_tick)
    → (due f now xs ≡ []) × (not_due f now xs ≡ xs)
    → Woken r f now xs before k k
stopped f now xs before k v e alarms s first off same (nobody, all) = record {
  inv = v;
  ready = rw (nobody, append-nil);
  asleep = rw all e;
  earliest = rw all first;
  alarms = alarms;
  current = refl;
  off = off;
  handling = refl;
  yields = refl;
  idle_thread = refl;
  sleep_tail = refl;
  ticks = refl;
  pool = refl;
  emptied = λ none_left.
      let nil : xs ≡ [] = sym all ∙ none_left in
      sym (emptied_tick-nil xs before k.sleep_tail nil ∙ same nil);
}

awoken-emptied :
    (t : ℕ) (rest : List ℕ) (k : Kernel)
    → emptied_tick rest (awoken t rest k).earliest_wake_up_tick k.sleep_tail ≡ k.sleep_tail
unfolding awoken set_earliest unblocked
awoken-emptied t [] k = refl
awoken-emptied t (x ∷ xs) k = refl

woke_one :
    {r : Option ℕ} (f : ℕ → ℤ) (now : ℤ) (t : ℕ) (rest : List ℕ) (before : ℤ) (k k' : Kernel)
    → is_due f now t ≡ true
    → Woken r f now rest (awoken t rest k).earliest_wake_up_tick (awoken t rest k) k'
    → Woken r f now (t ∷ rest) before k k'
unfolding awoken set_earliest unblocked
woke_one f now t rest before k k' now_due w = record {
  inv = w.inv;
  ready = rw now_due (w.ready ∙ append_assoc k.ready_list (t ∷ []) (due f now rest));
  asleep = rw now_due w.asleep;
  earliest = rw now_due w.earliest;
  alarms = w.alarms;
  current = w.current;
  off = w.off;
  handling = w.handling;
  yields = w.yields;
  idle_thread = w.idle_thread;
  sleep_tail = w.sleep_tail;
  ticks = w.ticks;
  pool = w.pool;
  emptied = λ none_left. w.emptied (rw now_due at none_left) ∙ awoken-emptied t rest k;
}

awoken-sleep_list : (t : ℕ) (rest : List ℕ) (k : Kernel) → (awoken t rest k).sleep_list ≡ rest
unfolding awoken set_earliest unblocked
awoken-sleep_list t rest k = refl

wake_loop-Returns :
    {r : Option ℕ} (f : ℕ → ℤ) (now : ℤ) (xs : List ℕ) (before : ℤ) (k : Kernel)
    → Inv r k
    → k.sleep_list ≡ xs
    → ((t : ℕ) → alarm_of k.page t ≡ f t)
    → IsSorted f xs
    → IsEarliest f xs k.sleep_tail k.earliest_wake_up_tick
    → (xs ≡ [] → before ≡ k.earliest_wake_up_tick)
    → k.intr_on ≡ false
    → now <ℤ k.sleep_tail
    → Returns (Woken r f now xs before k) (wake_loop xs now k)
unfolding wake_loop awoken unblocked
wake_loop-Returns f now [] before k v e alarms s first same off small =
    let stop : leb_ℤ k.earliest_wake_up_tick now ≡ false = ground arith in
    rw stop (
      returns (record {
        inv = v;
        ready = sym (append-nil k.ready_list);
        asleep = e;
        earliest = first;
        alarms = alarms;
        current = refl;
        off = off;
        handling = refl;
        yields = refl;
        idle_thread = refl;
        sleep_tail = refl;
        ticks = refl;
        pool = refl;
        emptied = λ none_left. sym (same refl);
      }))
wake_loop-Returns f now (t ∷ rest) before k v e alarms s first same off small =
    elim (Bool-cases (leb_ℤ k.earliest_wake_up_tick now)) [
      | inl go ↦ rw go (
          bind-Returns _ (awoken t rest k) (wake_first-eq t rest k v e off) (
            Returns-mono
              (wake_loop-Returns f now rest (awoken t rest k).earliest_wake_up_tick
                (awoken t rest k) (awoken-Inv t rest k v e) (awoken-sleep_list t rest k)
                (λ u. awoken-alarms t rest k u ∙ alarms u) s.1 (awoken-IsEarliest f t rest k alarms)
                (λ nil. refl) off small)
              λ k' w. woke_one f now t rest before k k' (ground arith) w))
      | inr stop ↦ rw stop (
          returns (
            stopped f now (t ∷ rest) before k v e alarms s first off same
              (due-nil f now (f t) (t ∷ rest) (ground arith) (omega arith) s)))
    ]

wake_all-Returns :
    {r : Option ℕ} (now : ℤ) (xs : List ℕ) (k : Kernel)
    → Inv r k
    → Timely k
    → k.sleep_list ≡ xs
    → k.intr_on ≡ false
    → now <ℤ k.sleep_tail
    → Returns (Woken r (alarm_of k.page) now xs int64_max k) (wake_all xs now k)
unfolding wake_all
wake_all-Returns now [] k v i e off small = returns (record {
  inv = SameLists-Inv (same_lists refl refl refl refl refl refl refl) v;
  ready = sym (append-nil k.ready_list);
  asleep = e;
  earliest = i.tail_fits;
  alarms = λ t. refl;
  current = refl;
  off = off;
  handling = refl;
  yields = refl;
  idle_thread = refl;
  sleep_tail = refl;
  ticks = refl;
  pool = refl;
  emptied = λ none_left. refl;
})
wake_all-Returns now (t ∷ rest) k v i e off small =
    wake_loop-Returns (alarm_of k.page) now (t ∷ rest) int64_max k v e (λ u. refl)
      (rw e at i.sorted) (rw e at i.earliest) (λ nil. grind arith) off small

-- thread_wakeup () with interrupts off, at a tick that lies below the tail's address: the threads
-- whose alarm has come, and only they, go from sleep_list to the end of ready_list, in the order of
-- their alarms; the others stay asleep, and the tick that is kept is the first of their alarms.
pub thread_wakeup_lem :
    {r : Option ℕ} (now : ℤ) (k : Kernel)
    → Inv r k
    → Timely k
    → k.intr_on ≡ false
    → now <ℤ k.sleep_tail
    → Returns (Woken r (alarm_of k.page) now k.sleep_list int64_max k) (thread_wakeup now k)
unfolding thread_wakeup
thread_wakeup_lem now k v i off small = wake_all-Returns now k.sleep_list k v i refl off small
