-- ===== src/Threads/Synch.antt =====
-- threads/synch.c: semaphores, locks and condition variables. A call that another function makes
-- behind a point where its thread may lose the CPU is left on the stack as a frame.
use juntos.Prelude.{
  update, ℕ, ◌+◌, ◌-◌, ◌^◌, ◌%◌, Bool, true, false, not, Option, none, some, List, [], ◌∷◌, ◌++◌,
  ◌==◌, if◌then◌else◌, assert, ◌>>◌, ◌>>=◌,
}
use juntos.Threads.State.{Frame, Kernel, is_ptr, push_frame}
use juntos.Threads.Interrupt.{intr_disable, intr_set_level}
use juntos.Threads.Sched.{thread_current, thread_block, thread_unblock}

-- `value` is an unsigned int.
unfoldable pub sema_init : ℕ → ℕ → Kernel → Kernel
sema_init s value k = record k {
  value = update k.value s (value % 2 ^ 32);
  waiters = update k.waiters s [];
}

-- list_push_back (&sema->waiters, &thread_current ()->elem), in the loop of sema_down ().
unfoldable pub add_waiter : ℕ → Bool → Kernel → Kernel
add_waiter s old k =
    push_frame (Frame.down_loop s old)
      (record k { waiters = update k.waiters s (k.waiters s ++ k.current ∷ []) })

-- The while of sema_down () and what follows it.
unfoldable pub sema_down_loop : ℕ → Bool → Kernel → Option Kernel
unfolding thread_current add_waiter thread_block intr_set_level
sema_down_loop s old k =
    if k.value s == 0
    then (do _ ← thread_current k; thread_block (add_waiter s old k))
    else intr_set_level old (record k { value = update k.value s (k.value s - 1) })

unfoldable pub sema_down : ℕ → Kernel → Option Kernel
unfolding intr_disable sema_down_loop
sema_down s k = do assert (not k.in_external_intr); sema_down_loop s k.intr_on (intr_disable k)

-- The answer, and the new state.
unfoldable pub sema_try_down : ℕ → Kernel → Option (Bool × Kernel)
unfolding intr_disable intr_set_level
sema_try_down s k =
    if k.value s == 0
    then (do k' ← intr_set_level k.intr_on (intr_disable k); some (false, k'))
    else (do
      k' ←
          intr_set_level k.intr_on
            (record (intr_disable k) { value = update k.value s (k.value s - 1) })
      some (true, k'))

-- if (!list_empty (&sema->waiters)) thread_unblock (the first of them), by the list.
unfoldable pub wake_first_of : List ℕ → ℕ → Kernel → Option Kernel
unfolding thread_unblock
wake_first_of [] s k = some k
wake_first_of (t ∷ rest) s k = thread_unblock t (record k { waiters = update k.waiters s rest })

unfoldable pub sema_up : ℕ → Kernel → Option Kernel
unfolding intr_disable wake_first_of intr_set_level
sema_up s k = do
  k1 ← wake_first_of (k.waiters s) s (intr_disable k)
  intr_set_level k.intr_on (record k1 { value = update k1.value s ((k1.value s + 1) % 2 ^ 32) })

unfoldable pub lock_init : ℕ → Kernel → Kernel
unfolding sema_init
lock_init l k = sema_init l 1 (record k { holder = update k.holder l none })

unfoldable pub lock_held_by_current_thread : ℕ → Kernel → Option Bool
unfolding thread_current
lock_held_by_current_thread l k = do _ ← thread_current k; some (is_ptr (k.holder l) k.current)

unfoldable pub lock_acquire : ℕ → Kernel → Option Kernel
unfolding lock_held_by_current_thread sema_down
lock_acquire l k = do
  assert (not k.in_external_intr)
  held ← lock_held_by_current_thread l k
  assert (not held)
  sema_down l (push_frame (Frame.own l) k)

-- lock->holder = thread_current ()
unfoldable pub lock_own : ℕ → Kernel → Option Kernel
unfolding thread_current
lock_own l k = do
  _ ← thread_current k
  some (record k { holder = update k.holder l (some k.current) })

unfoldable pub lock_try_acquire : ℕ → Kernel → Option (Bool × Kernel)
unfolding lock_held_by_current_thread sema_try_down
lock_try_acquire l k = do
  held ← lock_held_by_current_thread l k
  assert (not held)
  (success, k') ← sema_try_down l k
  some (success, if success then push_frame (Frame.own l) k' else k')

unfoldable pub lock_release : ℕ → Kernel → Option Kernel
unfolding lock_held_by_current_thread
lock_release l k = do
  held ← lock_held_by_current_thread l k
  assert held
  some (push_frame (Frame.up l) (record k { holder = update k.holder l none }))

unfoldable pub cond_init : ℕ → Kernel → Kernel
cond_init c k = record k { cond_waiters = update k.cond_waiters c [] }

-- `w` is the address of the local `waiter.semaphore`.
unfoldable pub cond_wait : (c l w : ℕ) → Kernel → Option Kernel
unfolding lock_held_by_current_thread sema_init
cond_wait c l w k = do
  assert (not k.in_external_intr)
  held ← lock_held_by_current_thread l k
  assert held
  let k1 = sema_init w 0 k
  let k2 = record k1 { cond_waiters = update k.cond_waiters c (k.cond_waiters c ++ w ∷ []) }
  some (push_frame (Frame.release l) (push_frame (Frame.down w) (push_frame (Frame.acquire l) k2)))

unfoldable pub cond_signal : (c l : ℕ) → Kernel → Option Kernel
unfolding lock_held_by_current_thread sema_up
cond_signal c l k = do
  assert (not k.in_external_intr)
  held ← lock_held_by_current_thread l k
  assert held
  elim (k.cond_waiters c) [
    | [] ↦ some k
    | w ∷ rest ↦ sema_up w (record k { cond_waiters = update k.cond_waiters c rest })
  ]

-- One round of the while of cond_broadcast ().
unfoldable pub cond_broadcast : (c l : ℕ) → Kernel → Option Kernel
unfolding cond_signal
cond_broadcast c l k = elim (k.cond_waiters c) [
  | [] ↦ some k
  | _ ∷ _ ↦ cond_signal c l (push_frame (Frame.broadcast c l) k)
]
