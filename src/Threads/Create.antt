-- ===== src/Threads/Create.antt =====
-- threads/thread.c: creating threads, the idle thread, and what a thread runs next.
use juntos.Prelude.{
  update, ℕ, ◌+◌, Bool, true, false, ◌&&◌, Option, none, some, List, ◌∷◌, take, assert, ◌>>◌, ◌>>=◌,
}
use juntos.Prelude.Int.{ℤ, pos}
use juntos.Threads.State.{Status, Thread, Frame, Kernel, on_thread, set_stack, push_frame}
use juntos.Threads.Interrupt.{intr_disable, intr_enable, intr_set_level}
use juntos.Threads.Sched.{thread_current, thread_block, thread_unblock}
use juntos.Threads.Sleep.{leb_ℤ}
use juntos.Threads.Synch.{
  sema_down, sema_down_loop, sema_up, lock_acquire, lock_own, lock_release, cond_broadcast,
}
use juntos.Threads.Yield.{reap_again}

-- init_thread () on a page: PRI_MIN is 0 and PRI_MAX 63. strlcpy () keeps 15 bytes of the name.
unfoldable pub init_thread : ℕ → List ℕ → ℤ → Kernel → Option Kernel
init_thread t name priority k = do
  assert (leb_ℤ (pos 0) priority && leb_ℤ priority (pos 63))
  some (record k {
    page = update k.page t (
        some (record {
          tid = 0;
          status = Status.blocked;
          name = take 15 name;
          priority = priority;
          alarm = pos 0;
        }));
  })

-- thread_create () up to allocate_tid (), whose calls go on the stack with the rest of
-- thread_create () behind them. `fresh` is what palloc_get_page (PAL_ZERO) returns, and
-- `body` the calls that the new thread's function starts with. `false` is TID_ERROR.
unfoldable pub thread_create : Option ℕ → List ℕ → ℤ → List Frame → Kernel → Option (Bool × Kernel)
unfolding init_thread
thread_create none name priority body k = some (false, k)
thread_create (some t) name priority body k = do
  k1 ← init_thread t name priority k
  let k2 = record k1 {
    stack = update k1.stack t (Frame.enter ∷ body);
    used = update k1.used t true;
  }
  some (
    true,
    set_stack
        (Frame.acquire k.tid_lock
          ∷ Frame.take_tid t
          ∷ Frame.release k.tid_lock
          ∷ Frame.unblock t
          ∷ k2.stack k.current)
        k2,
  )

abbrev pub set_tid_of : ℕ → Thread → Thread
set_tid_of n th = record th { tid = n }

-- t->tid = next_tid++
unfoldable pub take_tid : ℕ → Kernel → Option Kernel
take_tid t k = some (record k {
  page = update k.page t (on_thread (set_tid_of k.next_tid) (k.page t));
  next_tid = k.next_tid + 1;
})

-- idle (), from its start to the head of its loop.
unfoldable pub idle_start : ℕ → Kernel → Option Kernel
unfolding thread_current sema_up
idle_start s k = do
  _ ← thread_current k
  sema_up s (push_frame Frame.idle_block (record k { idle_thread = some k.current }))

-- intr_disable (); thread_block ();
unfoldable pub idle_block : Kernel → Option Kernel
unfolding intr_disable thread_block
idle_block k = thread_block (push_frame Frame.idle_halt (intr_disable k))

-- sti; hlt; and on to the next round.
unfoldable pub idle_halt : Kernel → Option Kernel
idle_halt k = some (push_frame Frame.idle_block (record k { intr_on = true }))

-- The next call of the running thread.
unfoldable pub run_frame : Frame → Kernel → Option Kernel
unfolding intr_set_level
run_frame (Frame.sleep_return old) k = intr_set_level old k
run_frame (Frame.yield_return old) k = intr_set_level old k
run_frame (Frame.down_loop s old) k = sema_down_loop s old k
run_frame (Frame.down s) k = sema_down s k
run_frame (Frame.up s) k = sema_up s k
run_frame (Frame.acquire l) k = lock_acquire l k
run_frame (Frame.own l) k = lock_own l k
run_frame (Frame.release l) k = lock_release l k
run_frame (Frame.broadcast c l) k = cond_broadcast c l k
run_frame Frame.enter k = intr_enable k
run_frame (Frame.idle_start s) k = idle_start s k
run_frame Frame.idle_block k = idle_block k
run_frame Frame.idle_halt k = idle_halt k
run_frame (Frame.take_tid t) k = take_tid t k
run_frame (Frame.unblock t) k = thread_unblock t k
run_frame (Frame.reap status victim) k = reap_again status victim k
run_frame Frame.iret k = some (record k { intr_on = true })
