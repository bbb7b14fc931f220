-- ===== src/Tests/Processes.antt =====
-- Threads and processes of a sample kernel.
use os192_ass2_multi_thread.Exit.Threads.{kthread_exit_alone}
use os192_ass2_multi_thread.Kthread.Create.{kthread_create_lem}
use os192_ass2_multi_thread.Kthread.Join.{kthread_join_zombie, kthread_join_zero}
use os192_ass2_multi_thread.Sched.Wakeup.{sleep-wakeup}
use os192_ass2_multi_thread.Proc.{allocproc}
use os192_ass2_multi_thread.Exit.{kthread_exit}
use os192_ass2_multi_thread.Kernel.Monad.{M, ret, switched, panicked, join_unused}
use os192_ass2_multi_thread.Kernel.Types.{
  ThreadPtr, Kernel, Thread, is_unused, t_runnable, Proc, on_addr, thread_at, other_lock,
  ptable_lock, zero_thread, t_unused, used, unused, t_zombie, t_sleeping, on_thread, nthread,
}
use os192_ass2_multi_thread.Kthread.{kthread_join, kthread_create}
use os192_ass2_multi_thread.Sched.{sleep, wakeup, kill, wakes}
use os192_ass2_multi_thread.Tests.Fixture.{
  sample, sample_proc, runner, dead_proc, other_proc, ended, page, sample-Runs, joiner,
}
use os192_ass2_multi_thread.Proc.Alloc.{PidsAreValid, allocproc_lem, kill_zero-allocproc}
use os192_ass2_multi_thread.Base.{
  ℕ, find_index, pos, ℤ, ◌≢◌, ◌≡◌, ◌∷◌, get_elem?, [], none, some, refl, if◌then◌else◌, ◌<◌, ◌⊎◌,
  false, ◌+◌, replicate, arith, true, suc, inl, inr, zero,
}

sleep-wakeup_example :
    (k' : Kernel) × (sleep {A = ℤ}
        (on_addr 7)
        (other_lock 0)
        (record sample { held = other_lock 0 ∷ [] })
      ≡ switched k')
    × (k'.held ≡ ptable_lock ∷ [])
    × (thread_at k'.procs (0, 0) ≡ some (record runner { chan = (on_addr 7); state = t_sleeping }))
    × ((k'' : Kernel) × (wakeup (on_addr 7) (record k' { held = [] }) ≡ ret tt k'')
        × (thread_at k''.procs (0, 0)
            ≡ some (record runner { chan = (on_addr 7); state = t_runnable })))
sleep-wakeup_example =
    sleep-wakeup (record sample { held = other_lock 0 ∷ [] }) (on_addr 7) (other_lock 0) 0 0 runner
      refl refl refl

sample_pids : PidsAreValid sample.procs sample.nextpid
sample_pids = record { started = omega arith; below = below; unique = unique }
  where
    below : (i : ℕ) (p : Proc) → get_elem? sample.procs i ≡ some p → p.pid < 3
    below zero p h = ground arith
    below (suc zero) p h = ground arith
    below (suc (suc zero)) p h = ground arith
    below (suc (suc (suc i))) p h = absurd (ground arith)

    pid_of : (i : ℕ) (p : Proc) → get_elem? sample.procs i ≡ some p → p.pid ≢ 0 → p.pid ≡ i + 1
    pid_of zero p h z = ground arith
    pid_of (suc zero) p h z = ground arith
    pid_of (suc (suc zero)) p h z = absurd (ground arith)
    pid_of (suc (suc (suc i))) p h z = absurd (ground arith)

    unique :
        (i j : ℕ) (p q : Proc)
        → get_elem? sample.procs i ≡ some p
        → get_elem? sample.procs j ≡ some q
        → p.pid ≡ q.pid
        → p.pid ≢ 0
        → i ≡ j
    unique i j p q g h e z = ground (arith, pid_of i p g z, pid_of j q h)

allocproc_lem_example :
    ((find_index is_unused sample.procs ≡ none) × (allocproc sample ≡ ret none sample))
    ⊎ ((i : ℕ) × (p : Proc) × (k' : Kernel) × (allocproc sample ≡ ret (some i) k')
        × (k'.held ≡ [])
        × (get_elem? sample.procs i ≡ some p)
        × (p.state ≡ unused)
        × (get_elem? k'.procs i ≡ some (record p { state = used; pid = sample.nextpid }))
        × PidsAreValid k'.procs k'.nextpid)
allocproc_lem_example = allocproc_lem {k = sample} refl sample_pids

kill_zero-allocproc_example :
    (k' k'' : Kernel) × (p : Proc) × (kill (pos 0) sample ≡ ret (pos 0) k')
    × (allocproc k' ≡ ret (some 2) k'')
    × (get_elem? k''.procs 2 ≡ some p)
    × (p.state ≡ used)
    × (p.pid ≡ sample.nextpid)
    × (p.killed ≡ true)
kill_zero-allocproc_example = kill_zero-allocproc sample 2 refl refl refl

kthread_exit_alone_example :
    (k' : Kernel) × (kthread_exit sample ≡ switched k')
    × (k'.held ≡ ptable_lock ∷ [])
    × (thread_at k'.procs (0, 0) ≡ some (record runner { should_die = false; state = t_zombie }))
    × (thread_at k'.procs (0, 1)
        ≡ some
            (if wakes (on_thread 0 0) joiner then record joiner { state = t_runnable } else joiner))
kthread_exit_alone_example =
    kthread_exit_alone 1 0 1 joiner sample-Runs refl refl (inr (ground arith)) refl

abbrev bereft : Kernel
bereft = record sample { procs = sample_proc ∷ other_proc ∷ dead_proc ∷ [] }

-- A `freevm` that gives one page back.
abbrev free_one : ℕ → M (Unit {0})
free_one pgdir k = ret tt (record k { free_pages = pgdir ∷ k.free_pages })

kthread_create_lem_example :
    (k' : Kernel) × (u : Thread) × (kthread_create 100 200 sample ≡ ret (pos sample.nexttid) k')
    × (k'.held ≡ [])
    × (thread_at k'.procs (0, 3) ≡ some u)
    × (u.state ≡ t_runnable)
    × (u.tid ≡ sample.nexttid)
    × (u.parent ≡ some 0)
    × (u.kstack ≡ page)
    × (u.tf.eip ≡ 100)
    × (u.tf.esp ≡ 200)
    × (k'.nexttid ≡ sample.nexttid + 1)
    × (k'.free_pages ≡ [])
    × (thread_at k'.procs (0, 0) ≡ thread_at sample.procs (0, 0))
kthread_create_lem_example =
    kthread_create_lem 100 200 3 0 0 page [] sample-Runs (ground arith) (ground arith) refl refl
      (inr (ground arith))

zero_ids :
    (c : ThreadPtr) (w : Thread)
    → thread_at sample.procs c ≡ some w
    → w.tid ≡ 0
    → w.state ≡ t_unused
zero_ids (p, i) w h z = scan p i h
  where
    unused_threads : (n i : ℕ) → get_elem? (replicate n zero_thread) i ≡ some w → w.state ≡ t_unused
    unused_threads zero i h = absurd (ground arith)
    unused_threads (suc n) zero h = ground arith
    unused_threads (suc n) (suc i) h = unused_threads n i h

    scan : (p i : ℕ) → thread_at sample.procs (p, i) ≡ some w → w.state ≡ t_unused
    scan zero zero h = absurd (ground arith)
    scan zero (suc zero) h = absurd (ground arith)
    scan zero (suc (suc zero)) h = absurd (ground arith)
    scan zero (suc (suc (suc zero))) h = ground arith
    scan zero (suc (suc (suc (suc i)))) h = absurd (ground arith)
    scan (suc zero) zero h = absurd (ground arith)
    scan (suc zero) (suc zero) h = ground arith
    scan (suc zero) (suc (suc i)) h = absurd (ground arith)
    scan (suc (suc zero)) i h = unused_threads nthread i h
    scan (suc (suc (suc p))) i h = absurd (ground arith)

kthread_join_zero_example : kthread_join (pos 0) sample ≡ panicked join_unused
kthread_join_zero_example = kthread_join_zero 3 zero_thread sample-Runs refl refl refl refl zero_ids

kthread_join_zombie_example :
    (k' : Kernel) × (kthread_join (pos 4) sample ≡ ret (pos 0) k')
    × (k'.held ≡ [])
    × (k'.free_pages ≡ ended.kstack ∷ sample.free_pages)
    × (thread_at k'.procs (0, 2)
        ≡ some (record ended { kstack = 0; tid = 0; should_die = false; state = t_unused }))
    × (thread_at k'.procs (1, 0) ≡ thread_at sample.procs (1, 0))
kthread_join_zombie_example =
    kthread_join_zombie (pos 4) 0 2 1 0 ended sample-Runs refl refl refl refl refl
      (inl (ground arith))
