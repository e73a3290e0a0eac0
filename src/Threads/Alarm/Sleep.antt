-- ===== src/Threads/Alarm/Sleep.antt =====
-- threads/thread.c: thread_sleep () and the order of the sleep list.
use juntos.Prelude.{
  ℕ, ◌≡◌, ◌≢◌, ◌<◌, sym, subst, ◌∙◌, Bool, false, Option, some, List, [], ◌∷◌, ◌==◌, arith,
  if◌then◌else◌, count, Returns, Returns-mono, inl, inr, Bool-cases,
}
use juntos.Prelude.Int.{ℤ, ◌≤ℤ◌, eq_of_parts}
use juntos.Threads.State.{Thread, Kernel, alarm_of, is_ptr}
use juntos.Threads.Interrupt.{intr_disable}
use juntos.LinkedList.Spec.{insert_ordered}
use juntos.Threads.Sleep.{leb_ℤ, set_alarm, earliest_time, add_sleeper, fall_asleep, thread_sleep}
use juntos.Threads.Alarm.Defs.{◌<ℤ◌, HeadLe, IsSorted, IsEarliest, Timely}
use juntos.Threads.Invariant.{Inv, IsValid}
use juntos.Threads.Invariant.Keeps.{Keeps}
use juntos.Threads.Invariant.Schedule.{thread_of}
use juntos.Threads.Invariant.Block.{
  CanBlock, thread_sleep-Returns, sleep-Inv, not_doomed, current-running,
}

module _ (f : ℕ → ℤ) where
  abbrev by_alarm : ℕ → ℕ → Bool
  by_alarm x y = leb_ℤ (f x) (f y)

  HeadLe-insert_ordered :
      (a : ℤ) (x : ℕ) (xs : List ℕ)
      → a ≤ℤ f x
      → HeadLe f a xs
      → HeadLe f a (insert_ordered by_alarm x xs)
  unfolding insert_ordered
  HeadLe-insert_ordered a x [] h t = h
  HeadLe-insert_ordered a x (y ∷ ys) h t = ground arith

  IsSorted-insert_ordered :
      (x : ℕ) (xs : List ℕ) → IsSorted f xs → IsSorted f (insert_ordered by_alarm x xs)
  unfolding insert_ordered
  IsSorted-insert_ordered x [] s = (tt, tt)
  IsSorted-insert_ordered x (y ∷ ys) s = elim (Bool-cases (by_alarm x y)) [
    | inl first ↦ rw first (ground arith, s)
    | inr later ↦
        rw later
          (HeadLe-insert_ordered (f y) x ys (ground arith) s.0, IsSorted-insert_ordered x ys s.1)
  ]

  -- Only the alarms of the list's threads matter.
  pub IsSorted-cong :
      (g : ℕ → ℤ) (xs : List ℕ)
      → ((t : ℕ) → 0 < count t xs → g t ≡ f t)
      → IsSorted f xs
      → IsSorted g xs
  IsSorted-cong g [] same s = s
  IsSorted-cong g (x ∷ []) same s = (tt, tt)
  IsSorted-cong g (x ∷ y ∷ ys) same s =
      let at_x : g x ≡ f x = same x (ground arith) in
      let at_y : g y ≡ f y = same y (ground arith) in
      (rw (at_x, at_y) s.0, IsSorted-cong g (y ∷ ys) (λ t h. same t (ground arith)) s.1)

  pub IsEarliest-cong :
      (g : ℕ → ℤ) (xs : List ℕ) (tail first : ℤ)
      → ((t : ℕ) → 0 < count t xs → g t ≡ f t)
      → IsEarliest f xs tail first
      → IsEarliest g xs tail first
  IsEarliest-cong g [] tail first same e = e
  IsEarliest-cong g (x ∷ xs) tail first same e = e ∙ sym (same x (ground arith))

  IsEarliest-insert_ordered :
      (x : ℕ) (xs : List ℕ) (tail first : ℤ)
      → f x <ℤ tail
      → IsEarliest f xs tail first
      → IsEarliest f (insert_ordered by_alarm x xs) tail (if leb_ℤ first (f x) then first else f x)
  unfolding insert_ordered
  IsEarliest-insert_ordered x [] tail first h e = ground arith
  IsEarliest-insert_ordered x (y ∷ ys) tail first h e = elim (Bool-cases (by_alarm x y)) [
    | inl front ↦ rw front (ground (arith, eq_of_parts (f x) first))
    | inr behind ↦ rw behind (ground arith)
  ]

-- The alarms as the sleeper's new alarm leaves them.
set_alarm_self :
    (k : Kernel) (t : ℕ) (until : ℤ) {th : Thread}
    → k.page t ≡ some th
    → alarm_of (set_alarm t until k).page t ≡ until
set_alarm_self k t until e = ground arith

set_alarm-other :
    (k : Kernel) (t : ℕ) (until : ℤ) (u : ℕ)
    → u ≢ t
    → alarm_of (set_alarm t until k).page u ≡ alarm_of k.page u
set_alarm-other k t until u ne = let other : (u == t) ≡ false = ground arith in rw other

-- The running thread is not asleep.
awake : (k : Kernel) → IsValid k → (t : ℕ) → 0 < count t k.sleep_list → t ≢ k.current
awake k v t h e = ground (arith, v.asleep t, v.running t)

pub fall_asleep-Timely :
    (k : Kernel) (until : ℤ)
    → IsValid k
    → Timely k
    → until <ℤ k.sleep_tail
    → Timely (fall_asleep until k)
unfolding fall_asleep add_sleeper earliest_time intr_disable
fall_asleep-Timely k until v i h =
    let f : ℕ → ℤ = alarm_of (set_alarm k.current until k).page in
    let same : (t : ℕ) → 0 < count t k.sleep_list → f t ≡ alarm_of k.page t =
      λ t p. set_alarm-other k k.current until t (awake k v t p) in
    let (th, at, _) = thread_of (k.page k.current) (current-running v) in
    let mine : f k.current ≡ until = set_alarm_self k k.current until at in
    record {
      sorted =
          IsSorted-insert_ordered f k.current k.sleep_list
            (IsSorted-cong (alarm_of k.page) f k.sleep_list same i.sorted);
      earliest =
          subst
            (λ a.
              IsEarliest f (insert_ordered (by_alarm f) k.current k.sleep_list) k.sleep_tail
                (if leb_ℤ k.earliest_wake_up_tick a then k.earliest_wake_up_tick else a))
            mine
            (IsEarliest-insert_ordered f k.current k.sleep_list k.sleep_tail k.earliest_wake_up_tick
              (subst (λ a. a <ℤ k.sleep_tail) (sym mine) h)
              (IsEarliest-cong (alarm_of k.page) f k.sleep_list k.sleep_tail k.earliest_wake_up_tick
                same i.earliest));
      tail_fits = i.tail_fits;
    }

-- A switch of threads leaves the alarm clock alone.
pub Keeps-Timely :
    {k k' : Kernel}
    → ((t : ℕ) → 0 < count t k.sleep_list → count t k.destruction_req ≡ 0)
    → Keeps k k'
    → Timely k
    → Timely k'
Keeps-Timely {k} {k'} safe e i = record {
  sorted = rw e.sleep_list (
      IsSorted-cong (alarm_of k.page) (alarm_of k'.page) k.sleep_list (λ t h. e.alarms t (safe t h))
        i.sorted);
  earliest =
      rw (e.sleep_list, e.sleep_tail, e.earliest)
        (IsEarliest-cong (alarm_of k.page) (alarm_of k'.page) k.sleep_list k.sleep_tail
          k.earliest_wake_up_tick (λ t h. e.alarms t (safe t h)) i.earliest);
  tail_fits = rw e.sleep_tail i.tail_fits;
}

-- Who sleeps is not about to be freed.
pub sleeper-safe :
    {r : Option ℕ} {k : Kernel}
    → Inv r k
    → (t : ℕ) → 0 < count t k.sleep_list
    → count t k.destruction_req ≡ 0
sleeper-safe v t h = ground (arith, v.asleep t, v.doomed t)

-- What thread_sleep () leaves, if `until` is the tick to wake up at.
pub record Slept (k : Kernel) (until : ℤ) (k' : Kernel) : Type 0 where
  pub valid : IsValid k'
  pub timely : Timely k'
  pub list : k'.sleep_list ≡ (fall_asleep until k).sleep_list
  pub alarm : alarm_of k'.page k.current ≡ until
  pub waits : count k.current k'.sleep_list ≡ 1
  pub gone : k'.current ≢ k.current

slept :
    (k : Kernel) (until : ℤ)
    → IsValid k
    → Timely k
    → is_ptr k.idle_thread k.current ≡ false
    → until <ℤ k.sleep_tail
    → (k' : Kernel) → IsValid k'
    → Keeps (fall_asleep until k) k'
    → Slept k until k'
unfolding fall_asleep add_sleeper earliest_time intr_disable
slept k until v i busy h k' v' e =
    let before = sleep-Inv k until v busy in
    let (th, at, _) = thread_of (k.page k.current) (current-running v) in
    let once : count k.current (fall_asleep until k).sleep_list ≡ 1 =
      ground (arith, before.asleep k.current) in
    let listed : count k.current k'.sleep_list ≡ 1 = rw e.sleep_list once in
    record {
      valid = v';
      timely = Keeps-Timely (sleeper-safe before) e (fall_asleep-Timely k until v i h);
      list = e.sleep_list;
      alarm = e.alarms k.current (not_doomed v) ∙ set_alarm_self k k.current until at;
      waits = listed;
      gone = λ same. ground (arith, v'.asleep k.current, v'.running k.current);
    }

-- thread_sleep () by a thread that is not the idle thread, to a tick below the tail's address: it
-- returns to another thread, with the caller once on the sleep list, under the alarm it asked for.
pub thread_sleep_lem :
    (k : Kernel) (until : ℤ)
    → IsValid k
    → Timely k
    → CanBlock k
    → is_ptr k.idle_thread k.current ≡ false
    → until <ℤ k.sleep_tail
    → Returns (Slept k until) (thread_sleep until k)
thread_sleep_lem k until v i b busy h =
    Returns-mono (thread_sleep-Returns k until v b busy)
      λ k' s. slept k until v i busy h k' s.valid s.keeps
