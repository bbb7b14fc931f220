-- ===== src/Mutex.antt =====
-- proc.c: the kernel mutexes; kthread_mutex_alloc, _dealloc, _lock and _unlock.
pub mod Table
pub mod Invariant
pub mod Calls
pub mod Behaviour
pub mod Steps
pub mod Owner
pub mod OwnerLock
pub mod OwnerSection
pub mod Exclusion
pub mod Races
pub mod Waiters
use os192_ass2_multi_thread.Base.{
  ℕ, ◌+◌, Bool, not, ◌&&◌, ◌||◌, Option, none, some, List, ◌==◌, if◌then◌else◌, find_index, ℤ, pos,
  minus_one, eq_int,
}
use os192_ass2_multi_thread.Kernel.Types.{
  Thread, Mutex, on_mutex, chan_eq, in_state, t_sleeping, t_runnable, uninitialized, opened, close,
  mutex_state_eq, mtable_lock, mutex_lock, update_thread, update_mutex, thread_at, Kernel,
  ThreadPtr, Proc,
}
use os192_ass2_multi_thread.Kernel.Monad.{
  M, pure, ◌>>=◌, ◌>>◌, get, modify_kernel, me, mythread, myproc, mutex_at,
}
use os192_ass2_multi_thread.Kernel.Locks.{acquire, release}
use os192_ass2_multi_thread.Sched.{sleep}

-- `m->holding->tid`. With no holder the read goes through a null pointer.
abbrev pub holder_tid : Kernel → Mutex → ℕ
holder_tid k m = elim m.holding [
  | none ↦ k.null_tid
  | some c ↦ elim (thread_at k.procs c) [ none ↦ k.null_tid | some t ↦ t.tid ]
]

-- The scan for a handle, `mtable.mutex[i].mid == mutex_id`.
abbrev pub find_mid : ℤ → List Mutex → Option ℕ
find_mid id = find_index (λ (m : Mutex). eq_int m.mid id)

abbrev pub is_uninitialized : Mutex → Bool
is_uninitialized m = mutex_state_eq m.state uninitialized

abbrev pub opened_mutex : ℕ → ℕ → Mutex → Mutex
opened_mutex mid pid m = record m {
  lock = 0;
  mid = mid;
  pid_holder = pid;
  num_of_waiting = 0;
  state = opened;
  holding = none;
}

-- kthread_mutex_alloc from line 823 on, with `mutexLock` held.
abbrev pub open_section : ℕ → M ℤ
open_section i = do
  k ← get
  p ← myproc
  modify_kernel
      (λ j. update_mutex i (opened_mutex k.nextmid p.pid) (record j { nextmid = k.nextmid + 1 }))
  release (mutex_lock i)
  pure (pos k.nextmid)

unfoldable pub kthread_mutex_alloc : M ℤ
kthread_mutex_alloc = do
  acquire mtable_lock
  k ← get
  elim (find_index is_uninitialized k.mutexes) [
    | none ↦ do release mtable_lock; pure minus_one
    | some i ↦ do acquire (mutex_lock i); release mtable_lock; open_section i
  ]

abbrev pub cleared_mutex : Mutex → Mutex
cleared_mutex m = record m {
  holding = none;
  mid = 0;
  lock = 0;
  num_of_waiting = 0;
  pid_holder = 0;
  state = uninitialized;
}

-- kthread_mutex_dealloc up to its test, with `mtable.lock` kept if the entry is to be freed.
abbrev pub dealloc_test : ℤ → M (Option ℕ)
dealloc_test id = do
  acquire mtable_lock
  k ← get
  elim (find_mid id k.mutexes) [
    | none ↦ do release mtable_lock; pure none
    | some i ↦ do
      m ← mutex_at i
      if mutex_state_eq m.state close || not (m.num_of_waiting == 0)
          then (do release mtable_lock; pure none)
          else pure (some i)
  ]

-- What it does then, with both locks held.
abbrev pub clear_section : ℕ → M ℤ
clear_section i = do
  modify_kernel (update_mutex i cleared_mutex)
  release (mutex_lock i)
  release mtable_lock
  pure (pos 0)

unfoldable pub kthread_mutex_dealloc : ℤ → M ℤ
kthread_mutex_dealloc id = do
  r ← dealloc_test id
  elim r [ none ↦ pure minus_one | some i ↦ do acquire (mutex_lock i); clear_section i ]

-- The loop of kthread_mutex_lock at its head, `m->mutexLock` held: the exchange, which stores 1
-- whatever it reads; then either the lock is taken or the thread goes to sleep on the mutex.
unfoldable pub lock_loop : ℕ → M ℤ
unfolding sleep
lock_loop i = do
  m ← mutex_at i
  modify_kernel (update_mutex i (λ n. record n { lock = 1 }))
  if m.lock == 0
      then (do
        c ← me
        modify_kernel (update_mutex i (λ n. record n { state = close; holding = some c }))
        release (mutex_lock i)
        pure (pos 0))
      else sleep (on_mutex i) (mutex_lock i)

-- kthread_mutex_lock up to its loop: with `mutexLock` held, or none for -1.
abbrev pub lock_test : ℤ → M (Option ℕ)
lock_test id = do
  acquire mtable_lock
  k ← get
  elim (find_mid id k.mutexes) [
    | none ↦ do release mtable_lock; pure none
    | some i ↦ do
      m ← mutex_at i
      t ← mythread
      if mutex_state_eq m.state uninitialized || holder_tid k m == t.tid
          then (do release mtable_lock; pure none)
          else (do acquire (mutex_lock i); release mtable_lock; pure (some i))
  ]

unfoldable pub kthread_mutex_lock : ℤ → M ℤ
unfolding lock_loop
kthread_mutex_lock id = do r ← lock_test id; elim r [ none ↦ pure minus_one | some i ↦ lock_loop i ]

-- The scan of the caller's own threads for one that sleeps on the mutex.
abbrev pub waits_on : ℕ → Thread → Bool
waits_on i t = in_state t_sleeping t && chan_eq t.chan (on_mutex i)

-- What kthread_mutex_unlock does for one waiter, if its process has one.
abbrev pub woken : ThreadPtr → Proc → ℕ → Kernel → Kernel
woken c p i k = elim (find_index (waits_on i) p.ttable) [
  | none ↦ k
  | some j ↦ update_thread (c.0, j) (λ t. record t { state = t_runnable }) k
]

abbrev pub released_mutex : Mutex → Mutex
released_mutex n = record n { lock = 0; state = opened; holding = none }

-- kthread_mutex_unlock from its test on, with `mutexLock` held.
abbrev pub unlock_section : ℕ → M ℤ
unlock_section i = do
  k ← get
  m ← mutex_at i
  t ← mythread
  if not (mutex_state_eq m.state close) || not (holder_tid k m == t.tid)
      then (do release (mutex_lock i); pure minus_one)
      else (do
        modify_kernel (update_mutex i released_mutex)
        c ← me
        p ← myproc
        modify_kernel (woken c p i)
        release (mutex_lock i)
        pure (pos 0))

unfoldable pub kthread_mutex_unlock : ℤ → M ℤ
kthread_mutex_unlock id = do
  acquire mtable_lock
  k ← get
  elim (find_mid id k.mutexes) [
    | none ↦ do release mtable_lock; pure minus_one
    | some i ↦ do acquire (mutex_lock i); release mtable_lock; unlock_section i
  ]
