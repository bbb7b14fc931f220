-- ===== src/Mutex/Waiters.antt =====
-- proc.c: a thread waits for a mutex, which is unlocked and freed before that thread runs again.
use os192_ass2_multi_thread.Mutex.{
  kthread_mutex_lock, kthread_mutex_unlock, kthread_mutex_dealloc, lock_loop, cleared_mutex,
  released_mutex, find_mid, waits_on,
}
use os192_ass2_multi_thread.Kthread.{kthread_mutex_lock_resume}
use os192_ass2_multi_thread.Exit.{sleep_resume}
use mathlib.Core.Option
use os192_ass2_multi_thread.Mutex.Races.{on}
use os192_ass2_multi_thread.Mutex.Table.{
  lock_loop_free, lock_loop_taken, taken_by, sleeps_on, kthread_mutex_lock_found,
  kthread_mutex_unlock_found, kthread_mutex_dealloc_found,
}
use os192_ass2_multi_thread.Kernel.Spec.{Runs, Runs-thread_at}
use os192_ass2_multi_thread.Kernel.Tables.{thread_at-modify_self}
use os192_ass2_multi_thread.Kernel.Monad.{ret, switched, ◌>>◌}
use os192_ass2_multi_thread.Kernel.Types.{
  Kernel, Thread, Mutex, Proc, thread_at, close, mutex_lock, ptable_lock, update_thread,
  update_mutex, t_runnable, nowhere, modify_thread,
}
use os192_ass2_multi_thread.Base.{
  ℕ, ℤ, List, Bool, ◌≡◌, ◌≢◌, ◌∙◌, some, none, true, false, get_elem?, modify, ◌∷◌, [], refl, arith,
  pos, get_elem?-modify_self, find_index, find_index-modify, zero, suc, Bool-cases, ap,
  get_elem?-modify_ne, inl, inr, Option-cases,
}

-- A scan that finds nothing finds the one slot that an update makes pass.
find_index-modify_new :
    (f : Thread → Bool) (g : Thread → Thread) (ts : List Thread) (w : ℕ) (u : Thread)
    → find_index f ts ≡ none
    → get_elem? ts w ≡ some u
    → f (g u) ≡ true
    → find_index f (modify ts w g) ≡ some w
find_index-modify_new f g [] w u e at y = absurd (ground arith)
find_index-modify_new f g (t ∷ ts) zero u e at y = ground (arith, y, at)
find_index-modify_new f g (t ∷ ts) (suc w) u e at y = elim (Bool-cases (f t)) [
  | inl q ↦ absurd (ground arith)
  | inr q ↦ elim (Option-cases (find_index f ts)) [
    | inl n ↦ rw (q, find_index-modify_new f g ts w u n at y) refl
    | inr (x, z) ↦ absurd (ground arith)
  ]
]

abbrev pub made_runnable : Thread → Thread
made_runnable t = record t { state = t_runnable }

-- Threads `w` and `j` of process `p`: the second holds mutex `i`, and the first calls kthread_mutex_lock.
module _ (k : Kernel) (id : ℤ) (i : ℕ) (m : Mutex) (p w j : ℕ) (pr : Proc) (u t : Thread)
    (e : find_mid id k.mutexes ≡ some i) (at : get_elem? k.mutexes i ≡ some m)
    (closed : m.state ≡ close) (locked : m.lock ≡ 1) (holder : m.holding ≡ some (p, j))
    (quiet : m.num_of_waiting ≡ 0) (proc : get_elem? k.procs p ≡ some pr)
    (asks : get_elem? pr.ttable w ≡ some u) (owns : get_elem? pr.ttable j ≡ some t)
    (differ : u.tid ≢ t.tid) (nobody : find_index (waits_on i) pr.ttable ≡ none)
    (lives : u.should_die ≡ false) where
  abbrev after_lock : Kernel
  after_lock = update_thread (p, w) (sleeps_on i) (update_mutex i (λ n. record n { lock = 1 }) k)

  abbrev after_unlock : Kernel
  after_unlock = update_thread (p, w) made_runnable (update_mutex i released_mutex after_lock)

  abbrev after_dealloc : Kernel
  after_dealloc = update_mutex i cleared_mutex after_unlock

  abbrev after_resume : Kernel
  after_resume =
      update_mutex i (taken_by (p, w))
        (update_thread (p, w) (λ u. record u { chan = nowhere }) after_dealloc)

  asks-Runs : Runs (on (p, w) [] k) (p, w) pr u
  asks-Runs = record { now = refl; proc = proc; thread = asks; free = refl }

  slept :
      lock_loop i (on (p, w) (mutex_lock i ∷ []) k)
      ≡ switched (on (p, w) (ptable_lock ∷ []) after_lock)
  slept =
      lock_loop_taken (on (p, w) (mutex_lock i ∷ []) k) p w u i m refl (ground arith) refl at
        (omega (arith, locked))

  lock_sleeps :
      kthread_mutex_lock id (on (p, w) [] k) ≡ switched (on (p, w) (ptable_lock ∷ []) after_lock)
  lock_sleeps =
      kthread_mutex_lock_found id i m asks-Runs e at
      ∙ ground (arith, holder, closed, owns, proc, differ, slept)

  abbrev waited_proc : Proc
  waited_proc = modify_thread (sleeps_on i) w pr

  abbrev locked_again : Mutex
  locked_again = record m { lock = 1 }

  apart : w ≢ j
  apart q = differ (ground arith)

  owner-Runs : Runs (on (p, j) [] after_lock) (p, j) waited_proc t
  owner-Runs = record {
    now = refl;
    proc = ground (arith, get_elem?-modify_self k.procs p (modify_thread (sleeps_on i) w));
    thread = get_elem?-modify_ne pr.ttable w j (sleeps_on i) apart ∙ owns;
    free = refl;
  }

  waits : find_index (waits_on i) waited_proc.ttable ≡ some w
  waits = find_index-modify_new (waits_on i) (sleeps_on i) pr.ttable w u nobody asks (ground arith)

  unlock_wakes :
      kthread_mutex_unlock id (on (p, j) [] after_lock) ≡ ret (pos 0) (on (p, j) [] after_unlock)
  unlock_wakes =
      kthread_mutex_unlock_found id i locked_again owner-Runs (rw find_index-modify e)
        (ground (arith, get_elem?-modify_self k.mutexes i (λ n. record n { lock = 1 })))
      ∙ ground (arith, closed, holder, Runs-thread_at owner-Runs, waits)

  abbrev woken_proc : Proc
  woken_proc = modify_thread made_runnable w waited_proc

  freeing-Runs : Runs (on (p, j) [] after_unlock) (p, j) woken_proc t
  freeing-Runs = record {
    now = refl;
    proc =
        get_elem?-modify_self after_lock.procs p (modify_thread made_runnable w)
        ∙ ap (Option.map (modify_thread made_runnable w)) owner-Runs.proc;
    thread = get_elem?-modify_ne waited_proc.ttable w j made_runnable apart ∙ owner-Runs.thread;
    free = refl;
  }

  at_locked : get_elem? after_lock.mutexes i ≡ some locked_again
  at_locked = ground (arith, get_elem?-modify_self k.mutexes i (λ n. record n { lock = 1 }))

  at_released : get_elem? after_unlock.mutexes i ≡ some (released_mutex locked_again)
  at_released =
      get_elem?-modify_self after_lock.mutexes i released_mutex
      ∙ ap (Option.map released_mutex) at_locked

  at_cleared :
      get_elem? after_dealloc.mutexes i ≡ some (cleared_mutex (released_mutex locked_again))
  at_cleared =
      get_elem?-modify_self after_unlock.mutexes i cleared_mutex
      ∙ ap (Option.map cleared_mutex) at_released

  found_still : find_mid id after_unlock.mutexes ≡ some i
  found_still = rw find_index-modify (rw find_index-modify e)

  dealloc_frees :
      kthread_mutex_dealloc id (on (p, j) [] after_unlock)
      ≡ ret (pos 0) (on (p, j) [] after_dealloc)
  dealloc_frees =
      kthread_mutex_dealloc_found id i (released_mutex locked_again) freeing-Runs found_still
        at_released
      ∙ ground (arith, quiet)

  abbrev runnable_again : Thread
  runnable_again = record (sleeps_on i u) { state = t_runnable }

  asks-thread_at : thread_at after_lock.procs (p, w) ≡ some (sleeps_on i u)
  asks-thread_at =
      thread_at-modify_self k.procs p w (sleeps_on i)
      ∙ ap (Option.map (sleeps_on i)) (Runs-thread_at asks-Runs)

  runnable-thread_at : thread_at after_unlock.procs (p, w) ≡ some runnable_again
  runnable-thread_at =
      thread_at-modify_self after_lock.procs p w made_runnable
      ∙ ap (Option.map made_runnable) asks-thread_at

  abbrev runs_again : Kernel
  runs_again = update_thread (p, w) (λ u. record u { chan = nowhere }) after_dealloc

  resume_locks :
      sleep_resume (mutex_lock i) (on (p, w) (ptable_lock ∷ []) after_dealloc)
      ≡ ret tt (on (p, w) (mutex_lock i ∷ []) runs_again)
  unfolding sleep_resume
  resume_locks = ground (arith, runnable-thread_at, lives)

  resume_takes :
      kthread_mutex_lock_resume i (on (p, w) (ptable_lock ∷ []) after_dealloc)
      ≡ ret (pos 0) (on (p, w) [] after_resume)
  unfolding kthread_mutex_lock_resume
  resume_takes =
      ap (λ r. ((λ k. r) >> lock_loop i) k) resume_locks
      ∙ (lock_loop_free (on (p, w) (mutex_lock i ∷ []) runs_again) (p, w) i
          (cleared_mutex (released_mutex locked_again)) refl refl at_cleared refl)

  -- A thread asks for a mutex that a thread with another id of its process holds, that none of them waits for and whose
  -- numOfWaiting is 0, and sleeps; the holder's unlock wakes it. Before it runs again, kthread_mutex_dealloc frees the
  -- mutex and returns 0; the woken thread, if it is not told to die, then takes the freed entry: it is closed
  -- and in use, but its handle is 0.
  pub dealloc_before_waiter :
      (k1 k2 k3 k4 : Kernel) × (n : Mutex) × (kthread_mutex_lock id (on (p, w) [] k)
        ≡ switched (on (p, w) (ptable_lock ∷ []) k1))
      × (thread_at k1.procs (p, w) ≡ some (sleeps_on i u))
      × (kthread_mutex_unlock id (on (p, j) [] k1) ≡ ret (pos 0) (on (p, j) [] k2))
      × (thread_at k2.procs (p, w) ≡ some (made_runnable (sleeps_on i u)))
      × (kthread_mutex_dealloc id (on (p, j) [] k2) ≡ ret (pos 0) (on (p, j) [] k3))
      × (kthread_mutex_lock_resume i (on (p, w) (ptable_lock ∷ []) k3)
          ≡ ret (pos 0) (on (p, w) [] k4))
      × (get_elem? k4.mutexes i ≡ some n)
      × (n.state ≡ close)
      × (n.holding ≡ some (p, w))
      × (n.mid ≡ 0)
  dealloc_before_waiter = (
    after_lock,
    after_unlock,
    after_dealloc,
    after_resume,
    taken_by (p, w) (cleared_mutex (released_mutex locked_again)),
    lock_sleeps,
    asks-thread_at,
    unlock_wakes,
    runnable-thread_at,
    dealloc_frees,
    resume_takes,
    get_elem?-modify_self after_dealloc.mutexes i (taken_by (p, w))
        ∙ ap (Option.map (taken_by (p, w))) at_cleared,
    refl,
    refl,
    refl,
  )
