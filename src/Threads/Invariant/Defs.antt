-- ===== src/Threads/Invariant/Defs.antt =====
-- threads/thread.c, threads/synch.c: which thread stands on which list.
use juntos.Prelude.{
  ℕ, ◌≡◌, ◌≤◌, Bool, true, false, Option, none, some, List, ◌∷◌, ◌==◌, if◌then◌else◌, count,
}
use juntos.Threads.State.{Status, Frame, Kernel, status_at, is_ptr}

abbrev pub bit : Bool → ℕ
bit b = if b then 1 else 0

abbrev pub runs : Option Status → Bool
runs (some Status.running) = true
runs _ = false

-- A ready thread is on ready_list, unless it is the idle thread.
abbrev pub queued : Bool → Option Status → ℕ
queued idle (some Status.ready) = if idle then 0 else 1
queued idle _ = 0

-- A blocked thread is where the call that blocked it put it.
abbrev pub sleeping : List Frame → ℕ
sleeping (Frame.sleep_return _ ∷ _) = 1
sleeping _ = 0

abbrev pub waiting_for : ℕ → List Frame → ℕ
waiting_for s (Frame.down_loop s' _ ∷ _) = bit (s' == s)
waiting_for s _ = 0

abbrev pub if_blocked : Option Status → ℕ → ℕ
if_blocked (some Status.blocked) n = n
if_blocked _ n = 0

abbrev pub if_dying : Option Status → ℕ
if_dying (some Status.dying) = 1
if_dying _ = 0

abbrev pub alive : Option Status → Bool
alive none = false
alive (some Status.dying) = false
alive _ = true

-- `run` is the thread that runs; between the change of its status and the switch there is none.
pub record Inv (run : Option ℕ) (k : Kernel) : Type 0 where
  pub running : (t : ℕ) → runs (status_at k t) ≡ is_ptr run t
  pub ready : (t : ℕ) → count t k.ready_list ≡ queued (is_ptr k.idle_thread t) (status_at k t)
  pub asleep : (t : ℕ) → count t k.sleep_list ≡ if_blocked (status_at k t) (sleeping (k.stack t))
  pub waiting :
      (s t : ℕ) → count t (k.waiters s) ≡ if_blocked (status_at k t) (waiting_for s (k.stack t))
  pub doomed : (t : ℕ) → count t k.destruction_req ≤ if_dying (status_at k t)
  pub idle_alive : (t : ℕ) → is_ptr k.idle_thread t ≡ true → alive (status_at k t) ≡ true
  pub idle_calm :
      (s t : ℕ)
      → is_ptr k.idle_thread t ≡ true
      → (if_blocked (status_at k t) (sleeping (k.stack t)) ≡ 0)
        × (if_blocked (status_at k t) (waiting_for s (k.stack t)) ≡ 0)

-- Between two steps.
abbrev pub IsValid : Kernel → Type 0
IsValid k = Inv (some k.current) k

-- `Inv` looks at no other fields.
pub record SameLists (k k' : Kernel) : Type 0 where
  pub page : k'.page ≡ k.page
  pub ready_list : k'.ready_list ≡ k.ready_list
  pub sleep_list : k'.sleep_list ≡ k.sleep_list
  pub destruction_req : k'.destruction_req ≡ k.destruction_req
  pub idle_thread : k'.idle_thread ≡ k.idle_thread
  pub stack : k'.stack ≡ k.stack
  pub waiters : k'.waiters ≡ k.waiters

pub SameLists-Inv : {r : Option ℕ} {k k' : Kernel} → SameLists k k' → Inv r k → Inv r k'
SameLists-Inv {k} {k'} e v = record {
  running = λ t. rw e.page (v.running t);
  ready = λ t. rw (e.page, e.ready_list, e.idle_thread) (v.ready t);
  asleep = λ t. rw (e.page, e.sleep_list, e.stack) (v.asleep t);
  waiting = λ s t. rw (e.page, e.waiters, e.stack) (v.waiting s t);
  doomed = λ t. rw (e.page, e.destruction_req) (v.doomed t);
  idle_alive = λ t h. rw e.page (v.idle_alive t (rw e.idle_thread at h));
  idle_calm = λ s t h. rw (e.page, e.stack) (v.idle_calm s t (rw e.idle_thread at h));
}

abbrev pub same_lists :
    {k k' : Kernel}
    → k'.page ≡ k.page
    → k'.ready_list ≡ k.ready_list
    → k'.sleep_list ≡ k.sleep_list
    → k'.destruction_req ≡ k.destruction_req
    → k'.idle_thread ≡ k.idle_thread
    → k'.stack ≡ k.stack
    → k'.waiters ≡ k.waiters
    → SameLists k k'
same_lists p r s d i st w = record {
  page = p;
  ready_list = r;
  sleep_list = s;
  destruction_req = d;
  idle_thread = i;
  stack = st;
  waiters = w;
}
