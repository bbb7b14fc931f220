-- ===== src/Mutex/Steps.antt =====
-- proc.c, the mutex calls as steps of a system in which any thread may make any call at any time. A call is a step of
-- its own where no other CPU works on mutexes meanwhile, as on a machine with one CPU; of calls that interleave on
-- several CPUs, the part that works on an entry with its `mutexLock` held is a step.
use os192_ass2_multi_thread.Base.{ℕ, ◌≡◌, ◌≢◌, some, [], ◌∷◌, ℤ, get_elem?, Bool, true, false, List}
use os192_ass2_multi_thread.Kernel.Types.{
  Kernel, Thread, Proc, Mutex, ThreadPtr, thread_at, close, mutex_lock, Lock, uninitialized,
  mtable_lock,
}
use os192_ass2_multi_thread.Kernel.Monad.{M, Result, ret, switched, panicked}
use os192_ass2_multi_thread.Kernel.Spec.{Runs}
use os192_ass2_multi_thread.Mutex.{
  kthread_mutex_alloc, kthread_mutex_dealloc, kthread_mutex_lock, kthread_mutex_unlock, lock_loop,
  unlock_section, open_section, clear_section,
}

-- The system calls on mutexes.
pub data Call : Type 0 where
  alloc : Call
  dealloc : ℤ → Call
  lock : ℤ → Call
  unlock : ℤ → Call

abbrev pub run : Call → M ℤ
run alloc = kthread_mutex_alloc
run (dealloc id) = kthread_mutex_dealloc id
run (lock id) = kthread_mutex_lock id
run (unlock id) = kthread_mutex_unlock id

abbrev pub is_unlock : Call → Bool
is_unlock (unlock _) = true
is_unlock _ = false

-- The call leaves the kernel in this state, whether it returns or goes to sleep.
abbrev pub Leaves : {A : Type 0} → Result A → Kernel → Type 0
Leaves (ret a k) k' = k ≡ k'
Leaves (switched k) k' = k ≡ k'
Leaves (panicked e) k' = ⊥

-- Thread `c`, whose id is `tid`, owns mutex `i`: it took it and has not released it.
pub record Owns (k : Kernel) (i : ℕ) (c : ThreadPtr) (tid : ℕ) : Type 0 where
  pub entry : Mutex
  pub thread : Thread
  pub at_entry : get_elem? k.mutexes i ≡ some entry
  pub closed : entry.state ≡ close
  pub locked : entry.lock ≡ 1
  pub holder : entry.holding ≡ some c
  pub at_thread : thread_at k.procs c ≡ some thread
  pub same_id : thread.tid ≡ tid

-- A CPU runs thread `t` of process `p`, in the slots `c`, with these spinlocks held.
pub record Inside (k : Kernel) (c : ThreadPtr) (p : Proc) (t : Thread) (locks : List Lock)
    : Type 0 where
  pub now : k.cur ≡ some c
  pub proc : get_elem? k.procs c.0 ≡ some p
  pub thread : get_elem? p.ttable c.1 ≡ some t
  pub with_locks : k.held ≡ locks

-- What may happen while thread `c` with id `tid` does not release its mutexes: a call by a thread with another id, or
-- a call of its own that is no unlock; or, of a call in the middle, the loop of kthread_mutex_lock on any entry, also
-- by a thread that was woken, or unlock's part behind the search, by a thread with another id, or alloc's or
-- dealloc's part behind the test of the state, as long as what it tested is still so; and whatever else the
-- kernel does that leaves the mutex table and the thread.
pub data Step (c : ThreadPtr) (tid : ℕ) (k k' : Kernel) : Type 0 where
  by_other :
      (call : Call) (d : ThreadPtr) (p : Proc) (t : Thread)
      → Runs k d p t
      → t.tid ≢ tid
      → Leaves (run call k) k'
      → Step c tid k k'
  by_owner :
      (call : Call) (p : Proc) (t : Thread)
      → Runs k c p t
      → is_unlock call ≡ false
      → Leaves (run call k) k'
      → Step c tid k k'
  locks :
      (j : ℕ) (d : ThreadPtr) (t : Thread)
      → k.cur ≡ some d
      → thread_at k.procs d ≡ some t
      → k.held ≡ mutex_lock j ∷ []
      → Leaves (lock_loop j k) k'
      → Step c tid k k'
  unlocks :
      (j : ℕ) (d : ThreadPtr) (p : Proc) (t : Thread)
      → Inside k d p t (mutex_lock j ∷ [])
      → t.tid ≢ tid
      → Leaves (unlock_section j k) k'
      → Step c tid k k'
  opens :
      (j : ℕ) (d : ThreadPtr) (p : Proc) (t : Thread) (m : Mutex)
      → Inside k d p t (mutex_lock j ∷ [])
      → get_elem? k.mutexes j ≡ some m
      → m.state ≡ uninitialized
      → Leaves (open_section j k) k'
      → Step c tid k k'
  clears :
      (j : ℕ) (d : ThreadPtr) (p : Proc) (t : Thread) (m : Mutex)
      → Inside k d p t (mutex_lock j ∷ mtable_lock ∷ [])
      → get_elem? k.mutexes j ≡ some m
      → m.state ≢ close
      → Leaves (clear_section j k) k'
      → Step c tid k k'
  elsewhere :
      (t : Thread)
      → k'.mutexes ≡ k.mutexes
      → thread_at k'.procs c ≡ some t
      → t.tid ≡ tid
      → Step c tid k k'

pub data Steps (c : ThreadPtr) (tid : ℕ) (k : Kernel) : Kernel → Type 0 where
  here : Steps c tid k k
  next : {j l : Kernel} → Steps c tid k j → Step c tid j l → Steps c tid k l
