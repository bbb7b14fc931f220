-- ===== src/Exit/Threads.antt =====
-- proc.c: how a thread ends while others of its process go on.
use os192_ass2_multi_thread.Kernel.Tables.{thread_at-modify_self, thread_at-modify_ne}
use os192_ass2_multi_thread.Kernel.Monad.{ret, switched}
use os192_ass2_multi_thread.Kernel.Spec.{Runs, Runs-thread_at}
use mathlib.Core.Option
use mathlib.Core.Path.{ap₂}
use os192_ass2_multi_thread.Sched.Wakeup.{thread_at-wake}
use os192_ass2_multi_thread.Exit.{repeat, kthread_exit, lives_beside}
use os192_ass2_multi_thread.Kernel.Types.{
  Chan, Thread, Proc, Kernel, t_running, thread_at, ptable_lock, t_zombie, on_thread, t_runnable,
  modify_thread,
}
use os192_ass2_multi_thread.Sched.{wakeup1, wake_proc, wake_thread, any_wakes, wakes}
use os192_ass2_multi_thread.Base.{
  ℕ, List, map, suc, ◌≡◌, ◌∷◌, false, arith, Bool-cases, ◌∙◌, inl, [], ap, refl, inr, find_index,
  zero, some, ◌≢◌, ◌⊎◌, if◌then◌else◌, modify,
}

wake_thread-wake_thread :
    (c : Chan) (t : Thread) → wake_thread c (wake_thread c t) ≡ wake_thread c t
unfolding wake_thread
wake_thread-wake_thread c t = elim (Bool-cases (wakes c t)) [
  | inl y ↦ ground arith
  | inr n ↦ ground arith
]

asleep_no_more : (c : Chan) (t : Thread) → wakes c (wake_thread c t) ≡ false
unfolding wake_thread
asleep_no_more c t = elim (Bool-cases (wakes c t)) [ inl y ↦ ground arith | inr n ↦ ground arith ]

wake_all-twice :
    (c : Chan) (ts : List Thread)
    → (map (wake_thread c) (map (wake_thread c) ts) ≡ map (wake_thread c) ts)
      × (any_wakes c (map (wake_thread c) ts) ≡ false)
wake_all-twice c [] = (refl, refl)
wake_all-twice c (t ∷ ts) = (
  ap₂ ◌∷◌ (wake_thread-wake_thread c t) (wake_all-twice c ts).0,
  ground (arith, wake_all-twice c ts, asleep_no_more c t),
)

wake_proc-wake_proc : (c : Chan) (p : Proc) → wake_proc c (wake_proc c p) ≡ wake_proc c p
unfolding wake_proc
wake_proc-wake_proc c p = ground (arith, wake_all-twice c p.ttable)

wake_table-twice :
    (c : Chan) (ps : List Proc) → map (wake_proc c) (map (wake_proc c) ps) ≡ map (wake_proc c) ps
wake_table-twice c [] = refl
wake_table-twice c (p ∷ ps) = ap₂ ◌∷◌ (wake_proc-wake_proc c p) (wake_table-twice c ps)

-- A call of wakeup1 again and again does what one call does.
repeat-wakeup1 :
    (n : ℕ) (c : Chan) (k : Kernel)
    → repeat (suc n) (wakeup1 c) k ≡ ret tt (record k { procs = map (wake_proc c) k.procs })
unfolding repeat wakeup1
repeat-wakeup1 zero c k = refl
repeat-wakeup1 (suc n) c k =
    repeat-wakeup1 n c (record k { procs = map (wake_proc c) k.procs })
    ∙ ap (λ ps. ret tt (record k { procs = ps })) (wake_table-twice c k.procs)

awake : (c : Chan) (t : Thread) → t.state ≡ t_running → wake_thread c t ≡ t
unfolding wake_thread
awake c t h = ground arith

-- A thread that calls kthread_exit while another of its process lives gives up the CPU for good,
-- with the process table locked: it is a zombie, and a thread that slept on it, waiting to join it, is runnable.
pub kthread_exit_alone :
    {k : Kernel} {p j : ℕ} {pr : Proc} {t : Thread} (i q s : ℕ) (u : Thread)
    → Runs k (p, j) pr t
    → t.state ≡ t_running
    → find_index (lives_beside t.tid) pr.ttable ≡ some i
    → (p ≢ q) ⊎ (j ≢ s)
    → thread_at k.procs (q, s) ≡ some u
    → (k' : Kernel) × (kthread_exit k ≡ switched k')
      × (k'.held ≡ ptable_lock ∷ [])
      × (thread_at k'.procs (p, j) ≡ some (record t { should_die = false; state = t_zombie }))
      × (thread_at k'.procs (q, s)
          ≡ some (if wakes (on_thread p j) u then record u { state = t_runnable } else u))
unfolding kthread_exit
kthread_exit_alone {k} {p} {j} {pr} {t} i q s u r run e ne at = (
  record k { procs = modify woken_table p (modify_thread ended j); held = ptable_lock ∷ [] },
  ground (
    arith,
    Runs-thread_at r,
    repeat-wakeup1 15 (on_thread p j) (record k { held = ptable_lock ∷ [] }),
    slept,
    thread_at-modify_self woken_table p j ended,
  ),
  refl,
  ground (arith, slept, thread_at-modify_self woken_table p j ended),
  thread_at-modify_ne woken_table p j q s ended ne
      ∙ (thread_at-wake (on_thread p j) k.procs q s
          ∙ unfold wake_thread in ap (Option.map (wake_thread (on_thread p j))) at),
)
  where
    woken_table : List Proc
    woken_table = map (wake_proc (on_thread p j)) k.procs

    ended : Thread → Thread
    ended t = record t { should_die = false; state = t_zombie }

    slept : thread_at woken_table (p, j) ≡ some t
    slept =
        thread_at-wake (on_thread p j) k.procs p j
        ∙ ground (arith, Runs-thread_at r, awake (on_thread p j) t run)
