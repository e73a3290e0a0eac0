-- ===== src/Threads/Invariant/Free.antt =====
-- threads/thread.c, threads/palloc.c: do_schedule () frees the pages of dead threads, where the lock
-- of their pool is free.
use juntos.Prelude.{
  update, ℕ, ◌+◌, ◌-◌, ◌%◌, ◌^◌, ◌≤◌, ◌<◌, ◌≡◌, ◌≢◌, refl, ap, ◌∙◌, ◌⊎◌, inl, inr, sym, Bool, true,
  false, Option, none, some, List, [], ◌∷◌, ◌==◌, count, arith,
}
use mathlib.Core.Path.{fun_ext}
use juntos.Threads.State.{Status, Thread, Kernel, status_at, set_status, is_ptr}
use juntos.Threads.Sched.{thread_current, schedule}
use juntos.Threads.Synch.{lock_own, lock_held_by_current_thread, sema_up, wake_first_of}
use juntos.Threads.Interrupt.{intr_disable, intr_set_level}
use juntos.Threads.Yield.{free_start, free_locked, reap}
use juntos.Threads.Invariant.Schedule.{thread_of}

-- Nobody holds the lock of the kernel pool or waits for it, and the pages to free are used.
pub record PoolFree (k : Kernel) : Type 0 where
  pub value : k.value k.pool_lock ≡ 1
  pub holder : k.holder k.pool_lock ≡ none
  pub waiters : k.waiters k.pool_lock ≡ []
  pub used : (t : ℕ) → 0 < count t k.destruction_req → k.used t ≡ true

-- No page is to be freed, or the pool is free.
abbrev pub CanFree : Kernel → Type 0
CanFree k = (k.destruction_req ≡ []) ⊎ PoolFree k

-- What CanFree is about.
abbrev pub pool_of : Kernel → List ℕ × ℕ × (ℕ → Bool) × (ℕ → ℕ) × (ℕ → Option ℕ) × (ℕ → List ℕ)
pool_of k = (k.destruction_req, k.pool_lock, k.used, k.value, k.holder, k.waiters)

-- The pages and their bits when the while of do_schedule () is over.
abbrev pub free_pages : List ℕ → (ℕ → Option Thread) → ℕ → Option Thread
free_pages [] page = page
free_pages (victim ∷ rest) page = free_pages rest (update page victim none)

abbrev pub free_bits : List ℕ → (ℕ → Bool) → ℕ → Bool
free_bits [] used = used
free_bits (victim ∷ rest) used = free_bits rest (update used victim false)

abbrev pub freed : Kernel → Kernel
freed k = record k {
  page = free_pages k.destruction_req k.page;
  used = free_bits k.destruction_req k.used;
  destruction_req = [];
}

-- What one victim leaves, between the two halves of palloc_free_page () and behind them.
abbrev started : (victim : ℕ) → (rest : List ℕ) → Kernel → Kernel
started victim rest k = record k { page = update k.page victim none; destruction_req = rest }

abbrev ended : (victim : ℕ) → (rest : List ℕ) → Kernel → Kernel
ended victim rest k = record (started victim rest k) { used = update k.used victim false }

-- The thread that runs is on no list of pages to free, and handles no interrupt.
record Runs (k : Kernel) : Type 0 where
  outside : k.in_external_intr ≡ false
  off : k.intr_on ≡ false
  status : status_at k k.current ≡ some Status.running

module _ (victim : ℕ) (rest : List ℕ) (k : Kernel) (r : Runs k) (other : k.current ≢ victim) where
  ended-Runs : Runs (ended victim rest k)
  ended-Runs = record { outside = r.outside; off = r.off; status = ground (arith, r.status) }

  free_start-eq :
      k.holder k.pool_lock ≡ none → free_start victim k ≡ some (started victim k.destruction_req k)
  unfolding free_start lock_held_by_current_thread thread_current
  free_start-eq holder =
      let (th, at, run) = thread_of (k.page k.current) r.status in ground (arith, r.outside, holder)

  free_locked-eq :
      (k.value k.pool_lock ≡ 1)
      → k.holder k.pool_lock ≡ none
      → k.waiters k.pool_lock ≡ []
      → k.used victim ≡ true
      → free_locked victim (record (started victim rest k) {
        value = update k.value k.pool_lock (k.value k.pool_lock - 1);
      })
        ≡ some (ended victim rest k)
  unfolding free_locked lock_own lock_held_by_current_thread thread_current sema_up wake_first_of
      intr_disable intr_set_level
  free_locked-eq value holder waiters used =
      let l = k.pool_lock in
      let (th, at, run) = thread_of (k.page k.current) r.status in
      let here : update k.page victim none k.current ≡ some th = ground (arith, at) in
      let held : is_ptr (update k.holder l (some k.current) l) k.current ≡ true = ground arith in
      let values : update (update k.value l (k.value l - 1)) l
            ((update k.value l (k.value l - 1) l + 1) % 2 ^ 32)
          ≡ k.value =
        fun_ext λ s. ground arith in
      let holders : update (update k.holder l (some k.current)) l none ≡ k.holder =
        fun_ext λ s. ground (arith, holder) in
      rw (here, run, used, waiters, r.off) (rw (here, run, held, values, holders) refl)

-- The while of do_schedule () ends where no victim is left.
reap-nil :
    (status : Status) (k : Kernel)
    → status_at k k.current ≡ some Status.running
    → reap status [] k ≡ schedule (set_status k.current status k)
unfolding reap thread_current
reap-nil status k runs = let (th, at, run) = thread_of (k.page k.current) runs in rw (at, run) refl

-- What is left of the while of do_schedule (): all the victims are freed, and the lock is as it was.
reap-eq :
    (status : Status) (xs : List ℕ) (k : Kernel)
    → k.in_external_intr ≡ false
    → k.intr_on ≡ false
    → status_at k k.current ≡ some Status.running
    → k.value k.pool_lock ≡ 1
    → k.holder k.pool_lock ≡ none
    → k.waiters k.pool_lock ≡ []
    → ((t : ℕ) → 0 < count t xs → k.used t ≡ true)
    → ((t : ℕ) → count t xs ≤ 1)
    → count k.current xs ≡ 0
    → reap status xs (record k { destruction_req = xs })
      ≡ schedule (
          set_status k.current status (record k {
            page = free_pages xs k.page;
            used = free_bits xs k.used;
            destruction_req = [];
          }))
unfolding reap
reap-eq status [] k outside off runs value holder waiters used once alive =
    reap-nil status (record k { destruction_req = [] }) runs
reap-eq status (x ∷ xs) k outside off runs value holder waiters used once alive =
    let other : k.current ≢ x = λ e. ground (arith, alive) in
    let r : Runs (record k { destruction_req = xs }) = record {
      outside = outside;
      off = off;
      status = runs;
    } in
    let r' : Runs k = record { outside = outside; off = off; status = runs } in
    let start = free_start-eq x xs (record k { destruction_req = xs }) r other holder in
    let locked =
      free_locked-eq x xs (record k { destruction_req = xs }) r other value holder waiters
        (used x (ground arith)) in
    let positive : (k.value k.pool_lock == 0) ≡ false = ground (arith, value) in
    let later =
      reap-eq status xs (ended x xs k) outside off (ended-Runs x xs k r' other).status value holder
        waiters (λ t h. ground (arith, used t, once t)) (λ t. omega (arith, once t))
        (omega (arith, alive)) in
    rw (start, positive, locked) later

pub reap-freed :
    (status : Status) (k : Kernel)
    → CanFree k
    → k.in_external_intr ≡ false
    → k.intr_on ≡ false
    → status_at k k.current ≡ some Status.running
    → ((t : ℕ) → count t k.destruction_req ≤ 1)
    → count k.current k.destruction_req ≡ 0
    → reap status k.destruction_req k ≡ schedule (set_status k.current status (freed k))
reap-freed status k (inl nil) outside off runs once alive =
    ap (λ xs. reap status xs (record k { destruction_req = xs })) nil
    ∙ reap-nil status (record k { destruction_req = [] }) runs
    ∙ sym (
        ap
          (λ xs. schedule (
            set_status k.current status (record k {
              page = free_pages xs k.page;
              used = free_bits xs k.used;
              destruction_req = [];
            })))
          nil)
reap-freed status k (inr f) outside off runs once alive =
    reap-eq status k.destruction_req k outside off runs f.value f.holder f.waiters f.used once alive
