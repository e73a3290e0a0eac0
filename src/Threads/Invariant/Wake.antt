-- ===== src/Threads/Invariant/Wake.antt =====
-- threads/thread.c: thread_unblock () in sema_up () and in thread_wakeup (), and the lists.
pub mod Clock
use juntos.Prelude.{
  update, ℕ, ◌+◌, ◌%◌, ◌^◌, ◌≡◌, refl, sym, take, drop, ap, ◌∙◌, Bool, true, false, Option, some,
  List, [], ◌∷◌, ◌++◌, count-append, arith, ◌>>=◌,
}
use mathlib.Core.List.{append-nil}
use juntos.Threads.State.{Status, Kernel, status_at, set_status}
use juntos.Threads.Interrupt.{intr_disable, intr_enable, intr_set_level}
use juntos.Threads.Sched.{thread_unblock}
use juntos.Threads.Synch.{sema_up, wake_first_of}
use juntos.Threads.Invariant.Defs.{Inv, SameLists-Inv, same_lists}

pub intr_set_level-eq :
    (old : Bool) (k : Kernel)
    → k.in_external_intr ≡ false
    → intr_set_level old k ≡ some (record k { intr_on = old })
unfolding intr_set_level intr_enable intr_disable
intr_set_level-eq true k out = ground arith
intr_set_level-eq false k out = refl

-- The state behind thread_unblock ().
unfoldable pub unblocked : ℕ → Kernel → Kernel
unblocked t k = set_status t Status.ready (record k { ready_list = k.ready_list ++ t ∷ [] })

pub thread_unblock-eq :
    (t : ℕ) (k : Kernel)
    → status_at k t ≡ some Status.blocked
    → k.intr_on ≡ false
    → thread_unblock t k ≡ some (unblocked t k)
unfolding thread_unblock unblocked intr_disable intr_set_level
thread_unblock-eq t k e off = ground arith

-- The first waiter of a semaphore becomes ready.
pub unblock-waiter :
    {r : Option ℕ} (k : Kernel) (s t : ℕ) (rest : List ℕ)
    → Inv r k
    → k.waiters s ≡ t ∷ rest
    → Inv r (unblocked t (record k { waiters = update k.waiters s rest }))
unfolding unblocked
unblock-waiter k s t rest v e = record {
  running = λ u. ground (arith, v.running u, v.waiting s t);
  ready = λ u.
      ground
        (arith, v.ready u, v.waiting s t, v.idle_calm s t, count-append u (t ∷ []) k.ready_list);
  asleep = λ u. ground (arith, v.asleep u, v.waiting s t);
  waiting = λ s' u. ground (arith, v.waiting s' u, v.waiting s t);
  doomed = λ u. ground (arith, v.doomed u, v.waiting s t);
  idle_alive = λ u h. ground (arith, v.idle_alive u, v.waiting s t);
  idle_calm = λ s' u h. ground (arith, v.idle_calm s' u, v.waiting s t);
}

-- The first sleeper becomes ready.
pub unblock-sleeper :
    {r : Option ℕ} (k : Kernel) (t : ℕ) (rest : List ℕ)
    → Inv r k
    → k.sleep_list ≡ t ∷ rest
    → Inv r (unblocked t (record k { sleep_list = rest }))
unfolding unblocked
unblock-sleeper k t rest v e = record {
  running = λ u. ground (arith, v.running u, v.asleep t);
  ready = λ u.
      ground (arith, v.ready u, v.asleep t, v.idle_calm 0 t, count-append u (t ∷ []) k.ready_list);
  asleep = λ u. ground (arith, v.asleep u, v.asleep t);
  waiting = λ s' u. ground (arith, v.waiting s' u, v.asleep t);
  doomed = λ u. ground (arith, v.doomed u, v.asleep t);
  idle_alive = λ u h. ground (arith, v.idle_alive u, v.asleep t);
  idle_calm = λ s' u h. ground (arith, v.idle_calm s' u, v.asleep t);
}

-- The state behind the test and the wake of sema_up (), by the list of waiters.
pub woken : List ℕ → ℕ → Kernel → Kernel
woken [] s k = k
woken (t ∷ rest) s k = unblocked t (record k { waiters = update k.waiters s rest })

wake_first_of-eq :
    {r : Option ℕ} (xs : List ℕ) (s : ℕ) (k : Kernel)
    → Inv r k
    → k.waiters s ≡ xs
    → k.intr_on ≡ false
    → wake_first_of xs s k ≡ some (woken xs s k)
unfolding wake_first_of woken
wake_first_of-eq [] s k v e off = refl
wake_first_of-eq (t ∷ rest) s k v e off =
    let blocked : status_at k t ≡ some Status.blocked = ground (arith, v.waiting s t) in
    thread_unblock-eq t (record k { waiters = update k.waiters s rest }) blocked off

woken-Inv :
    {r : Option ℕ} (xs : List ℕ) (s : ℕ) (k : Kernel)
    → Inv r k
    → k.waiters s ≡ xs
    → Inv r (woken xs s k)
unfolding woken
woken-Inv [] s k v e = v
woken-Inv (t ∷ rest) s k v e = unblock-waiter k s t rest v e

-- The state behind sema_up ().
pub raised : ℕ → Kernel → Kernel
raised s k = record k { value = update k.value s ((k.value s + 1) % 2 ^ 32) }

pub upped : ℕ → Kernel → Kernel
unfolding woken raised intr_disable
upped s k = record (raised s (woken (k.waiters s) s (intr_disable k))) { intr_on = k.intr_on }

woken-same :
    (xs : List ℕ) (s : ℕ) (k : Kernel)
    → ((woken xs s k).value ≡ k.value)
      × ((woken xs s k).in_external_intr ≡ k.in_external_intr)
      × ((woken xs s k).intr_on ≡ k.intr_on)
      × ((woken xs s k).current ≡ k.current)
unfolding woken unblocked
woken-same [] s k = (refl, refl, refl, refl)
woken-same (t ∷ rest) s k = (refl, refl, refl, refl)

pub sema_up-eq :
    {r : Option ℕ} (s : ℕ) (k : Kernel)
    → Inv r k
    → k.in_external_intr ≡ false
    → sema_up s k ≡ some (upped s k)
unfolding sema_up upped raised intr_set_level intr_disable intr_enable
sema_up-eq {r} s k v out =
    let quiet : Inv r (intr_disable k) =
      SameLists-Inv (same_lists refl refl refl refl refl refl refl) v in
    let k1 = woken (k.waiters s) s (intr_disable k) in
    ap (λ m. m >>= λ k1. intr_set_level k.intr_on (raised s k1))
      (wake_first_of-eq (k.waiters s) s (intr_disable k) quiet refl refl)
    ∙ intr_set_level-eq k.intr_on (raised s k1)
        ((woken-same (k.waiters s) s (intr_disable k)).1 ∙ out)

pub upped-Inv : {r : Option ℕ} (s : ℕ) (k : Kernel) → Inv r k → Inv r (upped s k)
unfolding upped raised intr_disable
upped-Inv {r} s k v =
    let quiet : Inv r (intr_disable k) =
      SameLists-Inv (same_lists refl refl refl refl refl refl refl) v in
    SameLists-Inv (same_lists refl refl refl refl refl refl refl)
      (woken-Inv (k.waiters s) s (intr_disable k) quiet refl)

woken-lists :
    (xs : List ℕ) (s : ℕ) (k : Kernel)
    → k.waiters s ≡ xs
    → ((woken xs s k).waiters s ≡ drop 1 xs)
      × ((woken xs s k).ready_list ≡ k.ready_list ++ take 1 xs)
unfolding woken unblocked
woken-lists [] s k e = (e, sym (append-nil k.ready_list))
woken-lists (t ∷ rest) s k e = (ground arith, refl)

pub upped-fields :
    (s : ℕ) (k : Kernel)
    → ((upped s k).value ≡ update k.value s ((k.value s + 1) % 2 ^ 32))
      × ((upped s k).current ≡ k.current)
      × ((upped s k).waiters s ≡ drop 1 (k.waiters s))
      × ((upped s k).ready_list ≡ k.ready_list ++ take 1 (k.waiters s))
unfolding upped raised intr_disable
upped-fields s k =
    let k0 = intr_disable k in
    let (value, _, _, current) = woken-same (k.waiters s) s k0 in
    let (waiters, ready) = woken-lists (k.waiters s) s k0 refl in
    (ap (λ f. update f s ((f s + 1) % 2 ^ 32)) value, current, waiters, ready)
