-- ===== src/Kthread.antt =====
-- proc.c: kthread_create, kthread_id and kthread_join, and kthread_mutex_lock after a sleep.
pub mod Create
pub mod Join
use mathlib.Core.Option
use os192_ass2_multi_thread.Kernel.Locks.{acquire, release}
use os192_ass2_multi_thread.Sched.{sleep}
use os192_ass2_multi_thread.Mutex.{lock_loop}
use os192_ass2_multi_thread.Exit.{kthread_exit, sleep_resume}
use os192_ass2_multi_thread.Kalloc.{kfree}
use os192_ass2_multi_thread.Proc.{allocthread}
use os192_ass2_multi_thread.Base.{
  ℕ, true, List, ℤ, none, ◌∷◌, false, [], Option, if◌then◌else◌, minus_one, ◌==◌, ◌||◌, some, pos,
  suc, find_index, eq_int,
}
use os192_ass2_multi_thread.Kernel.Types.{
  Kernel, Thread, TrapFrame, mutex_lock, t_runnable, Proc, ptable_lock, t_unused, ThreadPtr,
  thread_at, in_state, update_thread, t_zombie, on_thread, is_unused,
}
use os192_ass2_multi_thread.Kernel.Monad.{
  M, ◌>>=◌, ◌>>◌, pure, mythread, me, ret, get, deref, panicked, modify_kernel, panic, null,
  join_unused,
}

-- The bytes of "thread".
abbrev pub thread_name : List ℕ
thread_name = 116 ∷ 104 ∷ 114 ∷ 101 ∷ 97 ∷ 100 ∷ []

abbrev pub started : TrapFrame → ℕ → ℕ → Thread → Thread
started tf start_func stack t = record t {
  name = thread_name;
  tf = record tf { esp = stack; eip = start_func };
  state = t_runnable;
}

unfoldable pub kthread_create : ℕ → ℕ → M ℤ
unfolding allocthread
kthread_create start_func stack = do
  curthread ← mythread
  c ← me
  if start_func == 0 || stack == 0 then pure minus_one else (do
    slot ← allocthread c.0
    elim slot [
      | none ↦ pure minus_one
      | some i ↦ do
        acquire ptable_lock
        k ← get
        t ← deref (thread_at k.procs (c.0, i))
        modify_kernel (update_thread (c.0, i) (started curthread.tf start_func stack))
        release ptable_lock
        pure (pos t.tid)
    ])

unfoldable pub kthread_id : M ℤ
kthread_id k = elim k.cur [
  | none ↦ ret minus_one k
  | some c ↦ elim (thread_at k.procs c) [ none ↦ panicked null | some t ↦ ret (pos t.tid) k ]
]

-- The scan of kthread_join: processes that are not UNUSED, in order, and their threads.
abbrev pub find_thread : ℤ → List Proc → Option ThreadPtr
find_thread id [] = none
find_thread id (p ∷ ps) =
    let later = Option.map (λ (c : ThreadPtr). (suc c.0, c.1)) (find_thread id ps) in
    if is_unused p then later else elim (find_index (λ (t : Thread). eq_int t.tid id) p.ttable) [
      | some i ↦ some (0, i)
      | none ↦ later
    ]

abbrev pub joined : Thread → Thread
joined t = record t { kstack = 0; tid = 0; should_die = false; state = t_unused }

-- The loop of kthread_join behind the test of `shouldDie`, the process table locked.
unfoldable pub join_scan : ℤ → M ℤ
unfolding kfree sleep
join_scan id = do
  k ← get
  elim (find_thread id k.procs) [
    | none ↦ do release ptable_lock; pure minus_one
    | some c ↦ do
      t ← deref (thread_at k.procs c)
      if in_state t_unused t
          then panic join_unused
          else if in_state t_zombie t
          then (do
            release ptable_lock
            kfree t.kstack
            modify_kernel (update_thread c joined)
            pure (pos 0))
          else sleep (on_thread c.0 c.1) ptable_lock
  ]

unfoldable pub join_loop : ℤ → M ℤ
unfolding join_scan kthread_exit
join_loop id = do
  t ← mythread
  if t.should_die then (do release ptable_lock; kthread_exit) else join_scan id

unfoldable pub kthread_join : ℤ → M ℤ
unfolding join_loop
kthread_join id = do acquire ptable_lock; join_loop id

unfoldable pub kthread_join_resume : ℤ → M ℤ
unfolding join_loop sleep_resume
kthread_join_resume id = do sleep_resume ptable_lock; join_loop id

unfoldable pub kthread_mutex_lock_resume : ℕ → M ℤ
unfolding lock_loop sleep_resume
kthread_mutex_lock_resume i = do sleep_resume (mutex_lock i); lock_loop i
