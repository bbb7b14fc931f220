-- ===== src/Exit.antt =====
-- proc.c: exit, exitThread, kthread_exit and what a thread does when it is switched to again.
pub mod Threads
use os192_ass2_multi_thread.Mutex.{kthread_mutex_dealloc}
use Prim.Native.Nat.{zero}
use os192_ass2_multi_thread.Base.{
  ℕ, true, List, get_elem?, ℤ, suc, none, if◌then◌else◌, Option, Bool, ◌∷◌, modify, find_index, ◌-◌,
  ◌==◌, ltb, not, some, ◌&&◌, minus_one, false, pos, map, ◌+◌, set, [],
}
use os192_ass2_multi_thread.Kernel.Types.{
  Kernel, Thread, Lock, ptable_lock, on_thread, t_unused, max_mutexes, opt_eq, update_thread,
  update_proc, nthread, nproc, in_state, t_zombie, zombie, is_zombie, t_sleeping, nowhere, lock_eq,
  t_runnable,
}
use os192_ass2_multi_thread.Kernel.Monad.{
  M, ◌>>=◌, ◌>>◌, pure, me, modify_kernel, get, deref, mythread, mutex_at, myproc, panicked, null,
  panic, fileclose_panic, init_exiting, ret,
}
use os192_ass2_multi_thread.Kernel.Locks.{acquire, release}
use os192_ass2_multi_thread.Kalloc.{kfree}
use os192_ass2_multi_thread.Sched.{sched, wakeup1, yield_resume, yield}

-- exit, first part: the other threads are told to die, and sleepers are made runnable.
abbrev pub told_to_die : ℕ → Thread → Thread
told_to_die tid t =
    let u = (if t.tid == tid then t else record t { should_die = true }) in
    if in_state t_sleeping t then record u { state = t_runnable } else u

unfoldable pub exit_signal : M (Unit {0})
exit_signal = do
  k ← get
  c ← me
  t ← mythread
  p ← myproc
  if opt_eq k.initproc (some c.0) then panic init_exiting else pure tt
  acquire ptable_lock
  modify_kernel (update_proc c.0 (λ p. record p { ttable = map (told_to_die t.tid) p.ttable }))
  release ptable_lock

-- A zombie's slot is freed; `kfree` may panic.
abbrev pub reaped : Thread → Thread
reaped t = record t { kstack = 0; tid = 0; state = t_unused }

-- One pass of the loop of exit over the threads: zombies are freed and the other threads counted.
-- The result is the new table, that count and the number freed.
unfoldable pub exit_scan : List Thread → M (List Thread × ℕ × ℕ)
unfolding kfree
exit_scan [] = pure ([], 0, 0)
exit_scan (t ∷ ts) =
    if in_state t_zombie t
    then (do kfree t.kstack; r ← exit_scan ts; pure (reaped t ∷ r.0, r.1, r.2 + 1))
    else (do r ← exit_scan ts; pure (t ∷ r.0, (if in_state t_unused t then r.1 else r.1 + 1), r.2))

unfoldable pub exit_pass : M ℕ
unfolding exit_scan
exit_pass = do
  c ← me
  p ← myproc
  r ← exit_scan p.ttable
  modify_kernel
      (update_proc c.0 (λ q. record q { ttable = r.0; num_of_thread = q.num_of_thread - r.2 }))
  pure r.1

-- exit: the mutexes that the process allocated are freed, in table order; `n` are left.
unfoldable pub free_mutexes : ℕ → ℕ → M (Unit {0})
free_mutexes pid zero = pure tt
free_mutexes pid (suc n) = do
  m ← mutex_at (max_mutexes - suc n)
  if m.pid_holder == pid then (do r ← kthread_mutex_dealloc (pos m.mid); pure tt) else pure tt
  free_mutexes pid n

-- fileclose and iput, as they change the reference counts; what they do for the last reference
-- belongs to file.c and fs.c.
unfoldable pub fileclose : ℕ → M (Unit {0})
fileclose f k = elim (get_elem? k.file_refs f) [
  | none ↦ panicked null
  | some r ↦ elim (ltb r 1) [
    | true ↦ panicked fileclose_panic
    | false ↦ ret tt (record k { file_refs = set k.file_refs f (r - 1) })
  ]
]

unfoldable pub close_files : List (Option ℕ) → M (List (Option ℕ))
unfolding fileclose
close_files [] = pure []
close_files (none ∷ fs) = do rest ← close_files fs; pure (none ∷ rest)
close_files (some f ∷ fs) = do fileclose f; rest ← close_files fs; pure (none ∷ rest)

unfoldable pub iput : ℕ → M (Unit {0})
iput i = modify_kernel (λ k. record k { inode_refs = modify k.inode_refs i (λ r. r - 1) })

-- A call of wakeup1 on each of the `n` last threads of process `p`.
unfoldable pub wake_threads : ℕ → ℕ → M (Unit {0})
unfolding wakeup1
wake_threads p zero = pure tt
wake_threads p (suc n) = do wakeup1 (on_thread p (nthread - suc n)); wake_threads p n

-- The scan of exit for children of `cur`: `n` processes are left.
unfoldable pub pass_children : ℕ → ℕ → ℕ → M (Unit {0})
unfolding wake_threads
pass_children cur init zero = pure tt
pass_children cur init (suc n) = do
  k ← get
  p ← deref (get_elem? k.procs (nproc - suc n))
  if opt_eq p.parent (some cur)
      then (do
        modify_kernel (update_proc (nproc - suc n) (λ q. record q { parent = some init }))
        if is_zombie p then wake_threads init nthread else pure tt)
      else pure tt
  pass_children cur init n

abbrev pub killed_thread : Thread → Thread
killed_thread t = if in_state t_unused t then t else record t { state = t_zombie }

-- exit, last part: no other thread of the process is left.
unfoldable pub exit_rest : M ℤ
unfolding free_mutexes close_files iput wake_threads pass_children sched
exit_rest = do
  c ← me
  p ← myproc
  free_mutexes p.pid max_mutexes
  files ← close_files p.ofile
  cwd ← deref p.cwd
  iput cwd
  modify_kernel (update_proc c.0 (λ q. record q { ofile = files; cwd = none }))
  acquire ptable_lock
  parent ← deref p.parent
  wake_threads parent nthread
  k ← get
  init ← deref k.initproc
  pass_children c.0 init nproc
  modify_kernel
      (update_proc c.0 (λ q. record q { state = zombie; ttable = map killed_thread q.ttable }))
  sched

-- The loop of exit, which spins until the count is at most 1. A thread that spins is shown as one
-- that the timer preempts after each pass.
unfoldable pub exit_loop : M ℤ
unfolding exit_pass exit_rest yield
exit_loop = do n ← exit_pass; if ltb 1 n then (do yield; pure minus_one) else exit_rest

unfoldable pub exit : M ℤ
unfolding exit_signal exit_loop
exit = do exit_signal; exit_loop

unfoldable pub exit_resume : M ℤ
unfolding exit_loop yield_resume
exit_resume = do yield_resume; exit_loop

unfoldable pub repeat : ℕ → M (Unit {0}) → M (Unit {0})
repeat zero m = pure tt
repeat (suc n) m = do m; repeat n m

unfoldable pub exit_thread : M ℤ
unfolding sched
exit_thread = do
  acquire ptable_lock
  c ← me
  repeat nthread (wakeup1 (on_thread c.0 c.1))
  modify_kernel (update_thread c (λ t. record t { should_die = false; state = t_zombie }))
  sched

-- Another thread of the process that is neither a zombie nor unused.
abbrev pub lives_beside : ℕ → Thread → Bool
lives_beside tid t = not (tid == t.tid) && (not (in_state t_zombie t) && not (in_state t_unused t))

unfoldable pub kthread_exit : M ℤ
unfolding exit exit_thread
kthread_exit = do
  t ← mythread
  p ← myproc
  elim (find_index (lives_beside t.tid) p.ttable) [ none ↦ exit | some i ↦ exit_thread ]

-- sleep, from the return of sched.
unfoldable pub sleep_resume : Lock → M (Unit {0})
unfolding kthread_exit
sleep_resume lk = do
  c ← me
  t ← mythread
  if t.should_die then (do release ptable_lock; r ← kthread_exit; pure tt) else pure tt
  modify_kernel (update_thread c (λ u. record u { chan = nowhere }))
  if lock_eq lk ptable_lock then pure tt else (do release ptable_lock; acquire lk)
