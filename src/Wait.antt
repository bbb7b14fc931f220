-- ===== src/Wait.antt =====
-- proc.c: wait, which frees the slot of a child that has exited.
pub mod Reap
use os192_ass2_multi_thread.Kernel.Locks.{acquire, release}
use os192_ass2_multi_thread.Exit.{sleep_resume, reaped}
use os192_ass2_multi_thread.Kalloc.{kfree}
use os192_ass2_multi_thread.Sched.{sleep}
use os192_ass2_multi_thread.Base.{
  ℕ, true, List, ℤ, Bool, none, ◌∷◌, [], if◌then◌else◌, find_index, some, ◌&&◌, false, get_elem?,
  pos, minus_one,
}
use os192_ass2_multi_thread.Kernel.Types.{
  Kernel, Proc, Thread, ptable_lock, opt_eq, in_state, is_zombie, unused, t_zombie, update_proc,
  on_thread,
}
use os192_ass2_multi_thread.Kernel.Monad.{
  M, ◌>>=◌, ◌>>◌, pure, me, get, deref, modify_kernel, myproc,
}

abbrev pub is_child : ℕ → Proc → Bool
is_child cur p = opt_eq p.parent (some cur)

-- The threads of an exited child: each zombie's stack and slot are freed.
unfoldable pub reap_threads : List Thread → M (List Thread)
unfolding kfree
reap_threads [] = pure []
reap_threads (t ∷ ts) =
    if in_state t_zombie t
    then (do kfree t.kstack; rest ← reap_threads ts; pure (reaped t ∷ rest))
    else (do rest ← reap_threads ts; pure (t ∷ rest))

abbrev pub freed_proc : List Thread → Proc → Proc
freed_proc ts p = record p {
  ttable = ts;
  pid = 0;
  parent = none;
  name = [];
  killed = false;
  state = unused;
}

-- `freevm pgdir` of vm.c.
module _ (freevm : ℕ → M (Unit {0})) where
  -- The loop of wait at its head, the process table locked.
  unfoldable pub wait_loop : M ℤ
  unfolding reap_threads sleep
  wait_loop = do
    c ← me
    k ← get
    elim (find_index (λ (p : Proc). is_child c.0 p && is_zombie p) k.procs) [
      | some i ↦ do
        p ← deref (get_elem? k.procs i)
        ts ← reap_threads p.ttable
        freevm p.pgdir
        modify_kernel (update_proc i (freed_proc ts))
        release ptable_lock
        pure (pos p.pid)
      | none ↦ do
        cur ← myproc
        elim (find_index (is_child c.0) k.procs) [
          | none ↦ do release ptable_lock; pure minus_one
          | some i ↦
              if cur.killed
              then (do release ptable_lock; pure minus_one)
              else sleep (on_thread c.0 c.1) ptable_lock
        ]
    ]

  unfoldable pub wait : M ℤ
  unfolding wait_loop
  wait = do acquire ptable_lock; wait_loop

  unfoldable pub wait_resume : M ℤ
  unfolding wait_loop sleep_resume
  wait_resume = do sleep_resume ptable_lock; wait_loop
