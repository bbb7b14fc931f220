-- ===== src/Mutex/Behaviour.antt =====
-- proc.c, what a call on a mutex does on each branch, and what a sequence of calls comes to.
use os192_ass2_multi_thread.Mutex.Table.{
  kthread_mutex_lock_found, taken_by, kthread_mutex_unlock_found, lock_loop_free,
}
use os192_ass2_multi_thread.Kernel.Monad.{ret}
use os192_ass2_multi_thread.Mutex.Invariant.{TableIsValid}
use os192_ass2_multi_thread.Kernel.Spec.{Runs, Runs-thread_at}
use os192_ass2_multi_thread.Kernel.Types.{
  Kernel, Proc, Thread, Mutex, ThreadPtr, opened, close, thread_at, mutex_lock, update_mutex,
}
use os192_ass2_multi_thread.Base.{
  ℕ, ℤ, ◌≡◌, some, get_elem?, find_index, ◌≢◌, minus_one, pos, none, true, ◌∷◌, [], modify, refl,
  arith, modify-modify, modify_fixed, find_index-modify, get_elem?-modify_self,
}
use os192_ass2_multi_thread.Mutex.{
  released_mutex, Kernel, find_mid, kthread_mutex_lock, waits_on, kthread_mutex_unlock,
}

-- A thread that locks an open mutex and unlocks it gets 0 twice and leaves the mutex table as it
-- was, if the word that a null thread pointer reads is not its id and no thread of its process waits.
pub lock-unlock :
    {k : Kernel} {p j : ℕ} {pr : Proc} {t : Thread} (id : ℤ) (i : ℕ) (m : Mutex)
    → Runs k (p, j) pr t
    → TableIsValid k.mutexes k.nextmid
    → find_mid id k.mutexes ≡ some i
    → get_elem? k.mutexes i ≡ some m
    → m.state ≡ opened
    → k.null_tid ≢ t.tid
    → find_index (waits_on i) pr.ttable ≡ none
    → (k' : Kernel) × (kthread_mutex_lock id k ≡ ret (pos 0) k')
      × (get_elem? k'.mutexes i ≡ some (taken_by (p, j) m))
      × (kthread_mutex_unlock id k' ≡ ret (pos 0) k)
lock-unlock {k} {p} {j} {pr} {t} id i m r v e at o ne w = (
  record k { mutexes = modify k.mutexes i (taken_by (p, j)) },
  ground (
    arith,
    kthread_mutex_lock_found id i m r e at,
    lock_loop_free (record k { held = mutex_lock i ∷ [] }) (p, j) i m r.now refl at,
    v.coherent i m at,
  ),
  ground (arith, get_elem?-modify_self k.mutexes i (taken_by (p, j))),
  unlocked,
)
  where
    k' : Kernel
    k' = record k { mutexes = modify k.mutexes i (taken_by (p, j)) }

    r' : Runs k' (p, j) pr t
    r' = record { now = r.now; proc = r.proc; thread = r.thread; free = r.free }

    restored : modify (modify k.mutexes i (taken_by (p, j))) i released_mutex ≡ k.mutexes
    restored =
        rw modify-modify (modify_fixed k.mutexes i _ m at (ground (arith, v.coherent i m at)))

    unlocked : kthread_mutex_unlock id k' ≡ ret (pos 0) k
    unlocked =
        rw
          (kthread_mutex_unlock_found id i (taken_by (p, j) m) r' (rw find_index-modify e)
            (ground (arith, get_elem?-modify_self k.mutexes i (taken_by (p, j)))))
          (ground (arith, Runs-thread_at r, restored))

-- Locking a mutex that the caller holds already returns -1 and changes nothing.
lock_own :
    {k : Kernel} {p j : ℕ} {pr : Proc} {t : Thread} (id : ℤ) (i : ℕ) (m : Mutex)
    → Runs k (p, j) pr t
    → find_mid id k.mutexes ≡ some i
    → get_elem? k.mutexes i ≡ some m
    → m.holding ≡ some (p, j)
    → kthread_mutex_lock id k ≡ ret minus_one k
lock_own id i m r e at h =
    rw (kthread_mutex_lock_found id i m r e at) (ground (arith, Runs-thread_at r))

-- An open mutex cannot be locked by the thread whose id the null thread pointer happens to read.
pub lock_null_holder :
    {k : Kernel} {p j : ℕ} {pr : Proc} {t : Thread} (id : ℤ) (i : ℕ) (m : Mutex)
    → Runs k (p, j) pr t
    → TableIsValid k.mutexes k.nextmid
    → find_mid id k.mutexes ≡ some i
    → get_elem? k.mutexes i ≡ some m
    → m.state ≡ opened
    → k.null_tid ≡ t.tid
    → (kthread_mutex_lock id k ≡ ret minus_one k) × (m.lock ≡ 0)
lock_null_holder id i m r v e at o q = (
  ground (arith, kthread_mutex_lock_found id i m r e at, v.coherent i m at),
  ground (arith, v.coherent i m at),
)

-- Unlocking by the holder, with no waiter in the holder's own process, leaves all processes and their threads as
-- they are: a thread of another process that sleeps on the mutex goes on sleeping although the mutex is open.
pub unlock_wakes_no_other_process :
    {k : Kernel} {p j : ℕ} {pr : Proc} {t : Thread} (id : ℤ) (i : ℕ) (m : Mutex) (d : ThreadPtr)
    (u : Thread)
    → Runs k (p, j) pr t
    → find_mid id k.mutexes ≡ some i
    → get_elem? k.mutexes i ≡ some m
    → m.state ≡ close
    → m.holding ≡ some (p, j)
    → find_index (waits_on i) pr.ttable ≡ none
    → thread_at k.procs d ≡ some u
    → waits_on i u ≡ true
    → (k' : Kernel) × (kthread_mutex_unlock id k ≡ ret (pos 0) k')
      × (k'.procs ≡ k.procs)
      × (thread_at k'.procs d ≡ some u)
      × (get_elem? k'.mutexes i ≡ some (released_mutex m))
unlock_wakes_no_other_process {k} id i m d u r e at s h w f q = (
  update_mutex i released_mutex k,
  ground (arith, kthread_mutex_unlock_found id i m r e at, Runs-thread_at r),
  refl,
  f,
  ground (arith, get_elem?-modify_self k.mutexes i released_mutex),
)
