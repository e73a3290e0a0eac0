-- ===== src/Threads/State.antt =====
-- include/threads/thread.h, include/threads/synch.h: the state that thread.c, synch.c, interrupt.c
-- and timer.c share.
use juntos.Prelude.{update, ℕ, Bool, true, false, Option, none, some, List, ◌∷◌, ◌==◌}
use juntos.Prelude.Int.{ℤ, pos}

-- enum thread_status
pub data Status : Type 0 where
  running ready blocked dying : Status

-- struct thread. The page that holds it is its address; `tf` and the stack are the `stack` of Kernel.
pub record Thread : Type 0 where
  pub tid : ℕ
  pub status : Status
  pub name : List ℕ
  pub priority : ℤ
  pub alarm : ℤ

-- The code that a thread has still to run, one call for each entry, innermost first. A thread that
-- is switched out stays inside thread_launch(); what follows there is the first entry.
pub data Frame : Type 0 where
  sleep_return : (old : Bool) → Frame  -- thread_sleep, behind thread_block ()
  yield_return : (old : Bool) → Frame  -- thread_yield, behind do_schedule ()
  down_loop : (s : ℕ) (old : Bool) → Frame  -- the while of sema_down
  down : (s : ℕ) → Frame  -- sema_down (s)
  up : (s : ℕ) → Frame  -- sema_up (s)
  acquire : (l : ℕ) → Frame  -- lock_acquire (l)
  own : (l : ℕ) → Frame  -- l->holder = thread_current ()
  enter : Frame  -- kernel_thread, before function (aux)
  idle_start : (s : ℕ) → Frame  -- idle, from its start
  idle_block : Frame  -- the head of the loop of idle
  idle_halt : Frame  -- the sti; hlt of idle
  release : (l : ℕ) → Frame  -- lock_release (l)
  broadcast : (c l : ℕ) → Frame  -- the while of cond_broadcast
  take_tid : (t : ℕ) → Frame  -- tid = next_tid++ of allocate_tid, for the thread t
  unblock : (t : ℕ) → Frame  -- the thread_unblock (t) of thread_create
  reap : (status : Status) (victim : ℕ) → Frame  -- palloc_free_page (victim) of do_schedule (status)
  iret : Frame  -- the return from an interrupt taken with interrupts on

-- A semaphore is named by its address, and a lock by the address of its semaphore.
pub record Kernel : Type 0 where
  pub page : ℕ → Option Thread  -- the struct thread at an address, if one is there
  pub ready_list : List ℕ
  pub sleep_list : List ℕ
  pub destruction_req : List ℕ
  pub earliest_wake_up_tick : ℤ
  pub idle_thread : Option ℕ
  pub initial_thread : ℕ
  pub next_tid : ℕ
  pub tid_lock : ℕ
  pub pool_lock : ℕ  -- &kernel_pool.lock
  pub used : ℕ → Bool  -- kernel_pool.used_map, by the page; a thread's page is of that pool
  pub sleep_tail : ℤ  -- &sleep_list.tail, read as an int64_t
  pub idle_ticks : ℕ
  pub kernel_ticks : ℕ
  pub thread_ticks : ℕ
  pub ticks : ℤ
  pub current : ℕ  -- running_thread ()
  pub stack : ℕ → List Frame
  pub intr_on : Bool  -- FLAG_IF
  pub in_external_intr : Bool
  pub yield_on_return : Bool
  pub value : ℕ → ℕ  -- sema->value
  pub waiters : ℕ → List ℕ  -- sema->waiters
  pub holder : ℕ → Option ℕ  -- lock->holder
  pub cond_waiters : ℕ → List ℕ  -- cond->waiters: the semaphores that stand on it

abbrev pub on_thread : (Thread → Thread) → Option Thread → Option Thread
on_thread f none = none
on_thread f (some th) = some (f th)

abbrev pub set_status_of : Status → Thread → Thread
set_status_of st th = record th { status = st }

-- t->status = st
abbrev pub set_status : ℕ → Status → Kernel → Kernel
set_status t st k = record k { page = update k.page t (on_thread (set_status_of st) (k.page t)) }

-- t->status, where a struct thread stands at t.
abbrev pub status_of : Option Thread → Option Status
status_of none = none
status_of (some th) = some th.status

abbrev pub status_at : Kernel → ℕ → Option Status
status_at k t = status_of (k.page t)

abbrev pub is_running : Status → Bool
is_running Status.running = true
is_running _ = false

abbrev pub is_blocked : Status → Bool
is_blocked Status.blocked = true
is_blocked _ = false

abbrev pub is_dying : Status → Bool
is_dying Status.dying = true
is_dying _ = false

abbrev pub is_ptr : Option ℕ → ℕ → Bool
is_ptr none t = false
is_ptr (some u) t = u == t

abbrev pub alarm_in : Option Thread → ℤ
alarm_in none = pos 0
alarm_in (some th) = th.alarm

-- t->alarm, where a struct thread stands at t.
abbrev pub alarm_of : (ℕ → Option Thread) → ℕ → ℤ
alarm_of page t = alarm_in (page t)

-- The running thread's stack.
abbrev pub set_stack : List Frame → Kernel → Kernel
set_stack fs k = record k { stack = update k.stack k.current fs }

abbrev pub push_frame : Frame → Kernel → Kernel
push_frame f k = set_stack (f ∷ k.stack k.current) k
