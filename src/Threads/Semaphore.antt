-- ===== src/Threads/Semaphore.antt =====
-- threads/synch.c: what sema_down () and sema_up () do to the threads.
use juntos.Prelude.{
  update, ℕ, ◌+◌, ◌-◌, ◌%◌, ◌^◌, ◌≡◌, ◌≢◌, refl, subst, sym, Bool, true, false, not, some, [], ◌∷◌,
  ◌++◌, ◌==◌, arith, if◌then◌else◌, count, Returns, Returns-mono, Returns-of_eq, take, drop,
  assert-Returns, inl, inr, Bool-cases,
}
use juntos.Threads.State.{Kernel, is_ptr}
use juntos.Threads.Interrupt.{intr_disable}
use juntos.Threads.Synch.{add_waiter, sema_down_loop, sema_down, sema_up}
use juntos.Threads.Invariant.{Inv, IsValid, SameLists-Inv, same_lists}
use juntos.Threads.Invariant.Schedule.{Switched}
use juntos.Threads.Invariant.Block.{CanBlock, current-running, sema_wait-Returns, wait-Inv}
use juntos.Threads.Invariant.Wake.{upped, sema_up-eq, upped-Inv, upped-fields, intr_set_level-eq}

-- sema_down () on a positive value: the value falls by one, and the caller goes on.
abbrev pub Taken : ℕ → Kernel → Kernel → Type 0
Taken s k k' =
    (k'.value ≡ update k.value s (k.value s - 1))
    × (k'.current ≡ k.current)
    × (k'.waiters ≡ k.waiters)
    × (k'.intr_on ≡ k.intr_on)

-- sema_down () on zero: the caller is the last of the waiters, and another thread runs.
abbrev pub Waits : ℕ → Kernel → Kernel → Type 0
Waits s k k' =
    (k'.value ≡ k.value)
    × (k'.waiters s ≡ k.waiters s ++ k.current ∷ [])
    × (count k.current (k'.waiters s) ≡ 1)
    × (k'.current ≢ k.current)

abbrev pub Downed : ℕ → Kernel → Kernel → Type 0
Downed s k k' = IsValid k' × (if k.value s == 0 then Waits s k k' else Taken s k k')

pub loop_takes :
    (k : Kernel) (s : ℕ) (old : Bool)
    → k.in_external_intr ≡ false
    → (k.value s == 0) ≡ false
    → sema_down_loop s old k
      ≡ some (record k { value = update k.value s (k.value s - 1); intr_on = old })
unfolding sema_down_loop
loop_takes k s old out left =
    rw left (intr_set_level-eq old (record k { value = update k.value s (k.value s - 1) }) out)

waited :
    (k : Kernel) (s : ℕ) (old : Bool)
    → IsValid k
    → is_ptr k.idle_thread k.current ≡ false
    → (k' : Kernel) → Switched (add_waiter s old k) k'
    → IsValid k' × Waits s k k'
unfolding add_waiter
waited k s old v busy k' e =
    let before = wait-Inv k s old v busy in
    let once : count k.current ((add_waiter s old k).waiters s) ≡ 1 =
      ground (arith, before.waiting s k.current, current-running v) in
    (
      e.valid,
      (
        e.keeps.value,
        rw e.keeps.waiters (ground arith),
        rw e.keeps.waiters once,
        λ same.
            ground (arith, e.valid.waiting s k.current, e.valid.running k.current, e.keeps.waiters),
      ),
    )

loop-Waits :
    (k : Kernel) (s : ℕ) (old : Bool)
    → IsValid k
    → CanBlock k
    → k.intr_on ≡ false
    → is_ptr k.idle_thread k.current ≡ false
    → (k.value s == 0) ≡ true
    → Returns (λ k'. IsValid k' × Waits s k k') (sema_down_loop s old k)
unfolding sema_down_loop
loop-Waits k s old v b off busy none_left =
    rw none_left (Returns-mono (sema_wait-Returns k s old v b off busy) (waited k s old v busy))

-- sema_down () by a thread that is not the idle thread and handles no interrupt returns: with the
-- semaphore taken if its value was positive, else with the caller blocked on it, once.
pub sema_down_lem :
    (k : Kernel) (s : ℕ)
    → IsValid k
    → CanBlock k
    → is_ptr k.idle_thread k.current ≡ false
    → Returns (Downed s k) (sema_down s k)
unfolding sema_down intr_disable
sema_down_lem k s v b busy =
    let quiet : IsValid (intr_disable k) =
      SameLists-Inv (same_lists refl refl refl refl refl refl refl) v in
    assert-Returns (not k.in_external_intr) _ (ground (arith, b.outside))
      (elim (Bool-cases (k.value s == 0)) [
        | inl none_left ↦
            Returns-mono
              (loop-Waits (intr_disable k) s k.intr_on quiet
                (record { outside = b.outside; idle_set = b.idle_set }) refl busy none_left)
              λ k' p. (p.0, rw none_left p.1)
        | inr left ↦ Returns-of_eq (loop_takes (intr_disable k) s k.intr_on b.outside left) (
          SameLists-Inv (same_lists refl refl refl refl refl refl refl) v,
          rw left (refl, refl, refl, refl),
        )
      ])

-- sema_up () outside an interrupt: the value rises by one, and the first waiter becomes ready, at the
-- end of ready_list; the caller goes on.
abbrev pub Upped : ℕ → Kernel → Kernel → Type 0
Upped s k k' =
    IsValid k'
    × (k'.value ≡ update k.value s ((k.value s + 1) % 2 ^ 32))
    × (k'.current ≡ k.current)
    × (k'.waiters s ≡ drop 1 (k.waiters s))
    × (k'.ready_list ≡ k.ready_list ++ take 1 (k.waiters s))

pub sema_up_lem :
    (k : Kernel) (s : ℕ)
    → IsValid k
    → k.in_external_intr ≡ false
    → Returns (Upped s k) (sema_up s k)
sema_up_lem k s v out = Returns-of_eq (sema_up-eq s k v out) (
    let (value, current, waiters, ready) = upped-fields s k in
    (
      subst (λ c. Inv (some c) (upped s k)) (sym current) (upped-Inv s k v),
      value,
      current,
      waiters,
      ready,
    ))
