-- ===== src/Sched.antt =====
-- proc.c: giving up the CPU and waking up; sched, sleep, wakeup1, wakeup, yield, scheduler, kill.
pub mod Wakeup
use os192_ass2_multi_thread.Base
use os192_ass2_multi_thread.Base.{
  ℕ, ◌≡◌, refl, Bool, true, false, not, ◌&&◌, ◌||◌, Option, none, some, List, [], ◌∷◌, ◌==◌, map,
  if◌then◌else◌, modify, length, find_index, ℤ, pos, minus_one, eq_int,
}
use os192_ass2_multi_thread.Kernel.Types.{
  Kernel, Thread, Proc, ThreadPtr, Chan, nowhere, chan_eq, in_state, t_sleeping, t_runnable,
  t_running, used, Lock, ptable_lock, lock_eq, update_thread, update_proc, modify_thread, thread_at,
}
use os192_ass2_multi_thread.Kernel.Monad.{
  M, Result, ret, switched, panicked, pure, ◌>>=◌, ◌>>◌, panic, get, modify_kernel, me, mythread,
  sched_ptable, sched_locks, sched_running,
}
use os192_ass2_multi_thread.Kernel.Locks.{holding, acquire, release}

-- The body of the inner loop of wakeup1, for one thread.
abbrev pub wakes : Chan → Thread → Bool
wakes c t = in_state t_sleeping t && chan_eq t.chan c

unfoldable pub wake_thread : Chan → Thread → Thread
wake_thread c t = if wakes c t then record t { state = t_runnable } else t

abbrev pub any_wakes : Chan → List Thread → Bool
any_wakes c [] = false
any_wakes c (t ∷ ts) = wakes c t || any_wakes c ts

unfoldable pub wake_proc : Chan → Proc → Proc
unfolding wake_thread
wake_proc c p = record p {
  ttable = map (wake_thread c) p.ttable;
  state = if any_wakes c p.ttable then used else p.state;
}

-- wakeup1: the whole table is scanned.
unfoldable pub wakeup1 : Chan → M (Unit {0})
unfolding wake_proc
wakeup1 c k = ret tt (record k { procs = map (wake_proc c) k.procs })

unfoldable pub wakeup : Chan → M (Unit {0})
unfolding wakeup1
wakeup c = do acquire ptable_lock; wakeup1 c; release ptable_lock

-- sched: the checks, then the switch to the scheduler. `ncli` is the number of locks held, and
-- interrupts are off while one is held.
unfoldable pub sched : {A : Type 0} → M A
sched = do
  k ← get
  t ← mythread
  if not (holding ptable_lock k.held)
      then panic sched_ptable
      else if not (length k.held == 1)
      then panic sched_locks
      else if in_state t_running t
      then panic sched_running
      else switched

-- sleep, up to the switch.
unfoldable pub sleep : {A : Type 0} → Chan → Lock → M A
unfolding sched
sleep chan lk = do
  c ← me
  if lock_eq lk ptable_lock then pure tt else (do acquire ptable_lock; release lk)
  modify_kernel (update_thread c (λ t. record t { chan = chan; state = t_sleeping }))
  sched

-- yield, up to the switch and from there.
unfoldable pub yield : M (Unit {0})
unfolding sched
yield = do
  acquire ptable_lock
  c ← me
  modify_kernel (update_proc c.0 (λ p. record p { state = used }))
  modify_kernel (update_thread c (λ t. record t { state = t_runnable }))
  sched

unfoldable pub yield_resume : M (Unit {0})
yield_resume = release ptable_lock

-- One round of the inner loop of scheduler on a runnable thread: the CPU runs it, and it finds
-- itself behind its call of `swtch`, the process table locked. A thread in another state is skipped.
unfoldable pub dispatch : ThreadPtr → Kernel → Option Kernel
dispatch c k = elim (thread_at k.procs c) [
  | none ↦ none
  | some t ↦
      if in_state t_runnable t
      then some (
          update_proc c.0 (λ p. record p { state = used })
            (update_thread c (λ u. record u { state = t_running })
              (record k { cur = some c; held = ptable_lock ∷ [] })))
      else none
]

-- kill
abbrev pub wake_sleeping : Thread → Thread
wake_sleeping t = if in_state t_sleeping t then record t { state = t_runnable } else t

abbrev pub kill_proc : Proc → Proc
kill_proc p = record p { killed = true; ttable = map wake_sleeping p.ttable }

unfoldable pub kill : ℤ → M ℤ
kill pid = do
  acquire ptable_lock
  k ← get
  elim (find_index (λ (p : Proc). eq_int p.pid pid) k.procs) [
    | some i ↦ do modify_kernel (update_proc i kill_proc); release ptable_lock; pure (pos 0)
    | none ↦ do release ptable_lock; pure minus_one
  ]
