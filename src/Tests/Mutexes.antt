-- ===== src/Tests/Mutexes.antt =====
-- The mutexes of a sample kernel: calls, sleep and wake-up.
use os192_ass2_multi_thread.Mutex.Waiters.{dealloc_before_waiter, made_runnable}
use os192_ass2_multi_thread.Kthread.{kthread_mutex_lock_resume}
use os192_ass2_multi_thread.Mutex.Races.{on, dealloc_frees_owned}
use os192_ass2_multi_thread.Mutex.Behaviour.{
  lock_null_holder, lock-unlock, unlock_wakes_no_other_process,
}
use os192_ass2_multi_thread.Mutex.Table.{sleeps_on, taken_by}
use os192_ass2_multi_thread.Kernel.Monad.{switched, ret}
use os192_ass2_multi_thread.Base.{pos, ◌≡◌, ◌∷◌, refl, minus_one, arith, some, get_elem?, []}
use os192_ass2_multi_thread.Tests.Fixture.{
  sample, sample_proc, other_proc, held_mutex, waiter, owned, runner, sample-Runs, open_mutex,
  sample_table, owned-Runs,
}
use os192_ass2_multi_thread.Kernel.Spec.{Runs}
use os192_ass2_multi_thread.Kernel.Types.{
  Kernel, Thread, Mutex, t_running, zero_proc, ptable_lock, zero_thread, thread_at, nowhere,
  mutex_lock, zero_mutex, close, mtable_lock,
}
use os192_ass2_multi_thread.Mutex.{
  kthread_mutex_lock, lock_loop, kthread_mutex_unlock, kthread_mutex_dealloc, released_mutex,
  lock_test, dealloc_test, clear_section, cleared_mutex,
}
use os192_ass2_multi_thread.Mutex.Calls.{IsClean, run-IsClean}
use os192_ass2_multi_thread.Mutex.Steps.{Steps, run, lock}

abbrev asked : Kernel
asked = record sample {
  procs =
      sample_proc
      ∷ record other_proc { ttable = record waiter { state = t_running } ∷ zero_thread ∷ [] }
      ∷ zero_proc
      ∷ [];
  mutexes = held_mutex ∷ zero_mutex ∷ [];
  cur = some (1, 0);
}

-- Thread 0 of process 1 asked for the mutex and went to sleep.
abbrev slept : Kernel
slept = record asked { procs = sample_proc ∷ other_proc ∷ zero_proc ∷ []; held = ptable_lock ∷ [] }

-- It was woken, runs again and has taken the mutex's spinlock back.
abbrev back : Kernel
back = record slept {
  procs =
      sample_proc
      ∷ record other_proc {
        ttable = record waiter { state = t_running; chan = nowhere } ∷ zero_thread ∷ [];
      }
      ∷ zero_proc
      ∷ [];
  held = mutex_lock 0 ∷ [];
}

run-IsClean_example : IsClean (run (lock (pos 1)) sample)
run-IsClean_example = run-IsClean (lock (pos 1)) sample-Runs sample_table

lock-unlock_example :
    (k' : Kernel) × (kthread_mutex_lock (pos 1) sample ≡ ret (pos 0) k')
    × (get_elem? k'.mutexes 0 ≡ some (taken_by (0, 0) open_mutex))
    × (kthread_mutex_unlock (pos 1) k' ≡ ret (pos 0) sample)
lock-unlock_example =
    lock-unlock (pos 1) 0 open_mutex sample-Runs sample_table refl refl refl (ground arith) refl

-- Thread 0 of process 0 reads its own id through a null pointer.
abbrev clashing : Kernel
clashing = record sample { null_tid = 1 }

clashing-Runs : Runs clashing (0, 0) sample_proc runner
clashing-Runs = record { now = refl; proc = refl; thread = refl; free = refl }

lock_null_holder_example :
    (kthread_mutex_lock (pos 1) clashing ≡ ret minus_one clashing) × (open_mutex.lock ≡ 0)
lock_null_holder_example =
    lock_null_holder (pos 1) 0 open_mutex clashing-Runs sample_table refl refl refl refl

-- Two threads of process 0 run, and the first holds the mutex.
abbrev asking : Thread
asking = record zero_thread { state = t_running; tid = 2 }

abbrev shared : Kernel
shared = record owned {
  procs = record sample_proc { ttable = runner ∷ asking ∷ [] } ∷ zero_proc ∷ [];
}

dealloc_before_waiter_example :
    (k1 k2 k3 k4 : Kernel) × (n : Mutex) × (kthread_mutex_lock (pos 1) (on (0, 1) [] shared)
      ≡ switched (on (0, 1) (ptable_lock ∷ []) k1))
    × (thread_at k1.procs (0, 1) ≡ some (sleeps_on 0 asking))
    × (kthread_mutex_unlock (pos 1) (on (0, 0) [] k1) ≡ ret (pos 0) (on (0, 0) [] k2))
    × (thread_at k2.procs (0, 1) ≡ some (made_runnable (sleeps_on 0 asking)))
    × (kthread_mutex_dealloc (pos 1) (on (0, 0) [] k2) ≡ ret (pos 0) (on (0, 0) [] k3))
    × (kthread_mutex_lock_resume 0 (on (0, 1) (ptable_lock ∷ []) k3)
        ≡ ret (pos 0) (on (0, 1) [] k4))
    × (get_elem? k4.mutexes 0 ≡ some n)
    × (n.state ≡ close)
    × (n.holding ≡ some (0, 1))
    × (n.mid ≡ 0)
dealloc_before_waiter_example =
    dealloc_before_waiter shared (pos 1) 0 held_mutex 0 1 0
      (record sample_proc { ttable = runner ∷ asking ∷ [] }) asking runner refl refl refl refl refl
      refl refl refl refl (ground arith) refl refl

unlock_wakes_no_other_process_example :
    (k' : Kernel) × (kthread_mutex_unlock (pos 1) owned ≡ ret (pos 0) k')
    × (k'.procs ≡ owned.procs)
    × (thread_at k'.procs (1, 0) ≡ some waiter)
    × (get_elem? k'.mutexes 0 ≡ some (released_mutex held_mutex))
unlock_wakes_no_other_process_example =
    unlock_wakes_no_other_process (pos 1) 0 held_mutex (1, 0) waiter owned-Runs refl refl refl refl
      refl refl refl

-- Thread 0 of process 1 runs as well, on another CPU.
abbrev two_running : Kernel
two_running = record sample { procs = asked.procs }

dealloc_frees_owned_example :
    (lock_test (pos 1) (on (1, 0) [] two_running)
      ≡ ret (some 0) (on (1, 0) (mutex_lock 0 ∷ []) two_running))
    × (dealloc_test (pos 1) (on (0, 0) [] two_running)
        ≡ ret (some 0) (on (0, 0) (mtable_lock ∷ []) two_running))
    × ((j : Kernel) × (n : Mutex) × (lock_loop 0 (on (1, 0) (mutex_lock 0 ∷ []) two_running)
          ≡ ret (pos 0) (on (1, 0) [] j))
        × (get_elem? j.mutexes 0 ≡ some n)
        × (n.state ≡ close)
        × (n.holding ≡ some (1, 0))
        × ((l : Kernel) × (clear_section 0 (on (0, 0) (mutex_lock 0 ∷ mtable_lock ∷ []) j)
              ≡ ret (pos 0) (on (0, 0) [] l))
            × (get_elem? l.mutexes 0 ≡ some (cleared_mutex n))))
dealloc_frees_owned_example =
    dealloc_frees_owned two_running (pos 1) 0 open_mutex (0, 0) (1, 0)
      (record waiter { state = t_running }) sample_table refl refl refl refl (ground arith)
