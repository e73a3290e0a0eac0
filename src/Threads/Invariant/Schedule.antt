-- ===== src/Threads/Invariant/Schedule.antt =====
-- threads/thread.c: schedule () and the lists.
use juntos.Prelude.{
  ℕ, ◌≡◌, ◌≢◌, true, false, not, Option, none, some, refl, ap, sym, subst, ◌∙◌, List, [], ◌∷◌, ◌++◌,
  count, count-append, arith, inl, inr, Bool-cases, if◌then◌else◌, ◌==◌, ◌&&◌, is_some,
  assert-Returns, Returns-mono, bind-Returns, Returns, returns,
}
use juntos.Threads.State.{Status, set_status, Thread, Kernel, status_at, status_of, is_dying}
use juntos.Threads.Sched.{next_of, schedule, switch_from, start_slice, thread_launch}
use juntos.Threads.Invariant.Keeps.{Keeps, start_slice-Keeps, switch_from-Keeps, Keeps-set_status}
use juntos.Threads.Invariant.Defs.{Inv, IsValid, alive}

-- The thread that is left stands on no list that it was not on, but for a dying one.
switch_from-Inv :
    (k : Kernel) (st : Status) (n : ℕ)
    → Inv (some n) k
    → (k.current ≢ n → status_at k k.current ≡ some st)
    → count k.current k.destruction_req ≡ 0
    → IsValid (switch_from st n k)
unfolding switch_from
switch_from-Inv k st n v e c = elim (Bool-cases (k.current == n)) [
  | inl same ↦ rw same (let at : n ≡ k.current = ground arith in rw at at v)
  | inr other ↦ rw other (moved (e (ground arith)))
]
  where
    moved :
        status_at k k.current ≡ some st
        → IsValid (
            thread_launch n (record k {
              destruction_req =
                  if is_dying st && not (k.current == k.initial_thread)
                  then k.destruction_req ++ k.current ∷ []
                  else k.destruction_req;
            }))
    moved e = record {
      running = λ t. ground (arith, v.running t);
      ready = λ t. ground (arith, v.ready t);
      asleep = λ t. ground (arith, v.asleep t);
      waiting = λ s t. ground (arith, v.waiting s t);
      doomed = λ t. ground (arith, v.doomed t, count-append t (k.current ∷ []) k.destruction_req);
      idle_alive = λ t h. ground (arith, v.idle_alive t h);
      idle_calm = λ s t h. ground (arith, v.idle_calm s t h);
    }

-- The front of ready_list starts to run.
start_slice-ready :
    (k : Kernel) (n : ℕ) (rest : List ℕ)
    → Inv none k
    → k.ready_list ≡ n ∷ rest
    → Inv (some n) (start_slice n (record k { ready_list = rest }))
unfolding start_slice
start_slice-ready k n rest v e = record {
  running = λ t. ground (arith, v.running t, v.ready n);
  ready = λ t. ground (arith, v.ready t, v.ready n);
  asleep = λ t. ground (arith, v.asleep t, v.ready n);
  waiting = λ s t. ground (arith, v.waiting s t, v.ready n);
  doomed = λ t. ground (arith, v.doomed t, v.ready n);
  idle_alive = λ t h. ground (arith, v.idle_alive t h);
  idle_calm = λ s t h. ground (arith, v.idle_calm s t h);
}

-- The idle thread starts to run.
start_slice-idle :
    (k : Kernel) (n : ℕ)
    → Inv none k
    → k.ready_list ≡ []
    → k.idle_thread ≡ some n
    → Inv (some n) (start_slice n k)
unfolding start_slice
start_slice-idle k n v e i = record {
  running = λ t. ground (arith, v.running t, v.idle_alive n);
  ready = λ t. ground (arith, v.ready t);
  asleep = λ t. ground (arith, v.asleep t, v.idle_calm 0 n);
  waiting = λ s t. ground (arith, v.waiting s t, v.idle_calm s n);
  doomed = λ t. ground (arith, v.doomed t, v.idle_alive n);
  idle_alive = λ t h. ground (arith, v.idle_alive t h);
  idle_calm = λ s t h. ground (arith, v.idle_calm s t h);
}

pub thread_of :
    (o : Option Thread) {st : Status}
    → status_of o ≡ some st
    → (th : Thread) × (o ≡ some th) × (th.status ≡ st)
thread_of none e = cc
thread_of (some th) e = (th, refl, cc)

pub lives : (o : Option Thread) → alive (status_of o) ≡ true → (th : Thread) × (o ≡ some th)
lives none e = cc
lives (some th) e = (th, refl)

pub idle_ptr : (o : Option ℕ) → is_some o ≡ true → (n : ℕ) × (o ≡ some n)
idle_ptr none e = cc
idle_ptr (some n) e = (n, refl)

start_slice_other :
    (k : Kernel) (n : ℕ)
    → k.current ≢ n
    → status_at (start_slice n k) k.current ≡ status_at k k.current
unfolding start_slice
start_slice_other k n ne = ground arith

-- The front of the ready list runs, off the list, and the idle thread where there is none.
abbrev pub NextIs : List ℕ → Option ℕ → Kernel → Type 0
NextIs [] idle k' = (idle ≡ some k'.current) × (k'.ready_list ≡ [])
NextIs (n ∷ rest) idle k' = (k'.current ≡ n) × (k'.ready_list ≡ rest)

switch_from-lists :
    (k : Kernel) (st : Status) (n : ℕ)
    → ((switch_from st n k).current ≡ n) × ((switch_from st n k).ready_list ≡ k.ready_list)
unfolding switch_from
switch_from-lists k st n = elim (Bool-cases (k.current == n)) [
  | inl same ↦ rw same (ground arith, refl)
  | inr other ↦ rw other (refl, refl)
]

-- What schedule () leaves: a valid state, in which little has changed.
pub record Switched (k k' : Kernel) : Type 0 where
  pub turn : NextIs k.ready_list k.idle_thread k'
  pub valid : IsValid k'
  pub keeps : Keeps k k'

-- schedule () has a thread to switch to: the front of ready_list or the idle thread.
record Chosen (xs : List ℕ) (k : Kernel) : Type 0 where
  next : ℕ
  thread : Thread
  chosen : (next_of xs k).0 ≡ some next
  there : k.page next ≡ some thread
  valid :
      (st : Status)
      → status_at k k.current ≡ some st
      → count k.current k.destruction_req ≡ 0
      → Switched k (switch_from st next (start_slice next (next_of xs k).1))

choose :
    (xs : List ℕ) (k : Kernel)
    → Inv none k
    → k.ready_list ≡ xs
    → is_some k.idle_thread ≡ true
    → Chosen xs k
unfolding next_of start_slice
choose [] k v e i =
    let (n, set) = idle_ptr k.idle_thread i in
    let (th, there) = lives (k.page n) (v.idle_alive n (ground arith)) in
    record {
      next = n;
      thread = th;
      chosen = set;
      there = there;
      valid = λ st here c. record {
        valid =
            switch_from-Inv _ st n (start_slice-idle k n v e set)
              (λ ne. start_slice_other k n ne ∙ here) c;
        keeps = switch_from-Keeps k st n (start_slice-Keeps [] k n);
        turn =
            let (runs, list) = switch_from-lists (start_slice n k) st n in
            subst (λ l. NextIs l k.idle_thread (switch_from st n (start_slice n k))) (sym e)
              (set ∙ ap some (sym runs), list ∙ e);
      };
    }
choose (n ∷ rest) k v e i =
    let (th, there) = lives (k.page n) (ground (arith, v.ready n)) in
    record {
      next = n;
      thread = th;
      chosen = refl;
      there = there;
      valid = λ st here c. record {
        valid =
            switch_from-Inv _ st n (start_slice-ready k n rest v e)
              (λ ne. start_slice_other (record k { ready_list = rest }) n ne ∙ here) c;
        keeps = switch_from-Keeps k st n (start_slice-Keeps (n ∷ rest) k n);
        turn =
            subst
              (λ l.
                NextIs l k.idle_thread
                  (switch_from st n (start_slice n (record k { ready_list = rest }))))
              (sym e) (switch_from-lists (start_slice n (record k { ready_list = rest })) st n);
      };
    }

pub schedule-Returns :
    {k : Kernel} (st : Status)
    → Inv none k
    → count k.current k.destruction_req ≡ 0
    → k.intr_on ≡ false
    → status_at k k.current ≡ some st
    → is_some k.idle_thread ≡ true
    → Returns (Switched k) (schedule k)
unfolding schedule
schedule-Returns {k} st v c off here idle =
    let (th, at, same) = thread_of (k.page k.current) here in
    let next = choose k.ready_list k v refl idle in
    assert-Returns _ _ (ground arith) (
      bind-Returns _ th at (
        assert-Returns _ _ (ground (arith, v.running k.current)) (
          bind-Returns _ next.next next.chosen (
            bind-Returns _ next.thread next.there
              (returns (next.valid th.status (ground arith) c))))))

pub Switched-set_status :
    (t : ℕ) (st : Status) {k : Kernel} {m : Option Kernel}
    → Returns (Switched (set_status t st k)) m
    → Returns (Switched k) m
Switched-set_status t st r =
    Returns-mono r
      λ k' e. record { valid = e.valid; keeps = Keeps-set_status t st e.keeps; turn = e.turn }
