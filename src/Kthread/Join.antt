-- ===== src/Kthread/Join.antt =====
-- proc.c: kthread_join on each branch.
use os192_ass2_multi_thread.Kernel.Tables.{thread_at-modify_self, thread_at-modify_ne}
use os192_ass2_multi_thread.Kalloc.{bad_page}
use os192_ass2_multi_thread.Kernel.Monad.{ret, switched, panicked, join_unused}
use mathlib.Core.Option.{some, none}
use os192_ass2_multi_thread.Kernel.Spec.{Runs, Runs-thread_at}
use os192_ass2_multi_thread.Kernel.Types.{
  Kernel, Proc, Thread, ThreadPtr, used, thread_at, t_zombie, is_unused, t_unused, update_thread,
  on_thread, t_sleeping, ptable_lock, modify_thread, in_state,
}
use os192_ass2_multi_thread.Kthread.{kthread_join, find_thread, Kernel, ret, joined}
use os192_ass2_multi_thread.Base.{
  ℕ, true, ℤ, List, ◌≡◌, some, false, none, get_elem?, minus_one, eq_int, ◌⊎◌, pos, arith, ◌≢◌, ◌∷◌,
  [], Option-cases, find_index-none, find_index-some, modify, find_index, inl, suc, inr, zero, refl,
  Bool-cases,
}

-- The scan finds a thread with that id, and its process is in use.
find_thread-some :
    (id : ℤ) (ps : List Proc) (c : ThreadPtr)
    → find_thread id ps ≡ some c
    → (p : Proc) × (t : Thread) × (get_elem? ps c.0 ≡ some p)
      × (get_elem? p.ttable c.1 ≡ some t)
      × (is_unused p ≡ false)
      × (eq_int t.tid id ≡ true)
find_thread-some id [] c e = absurd (ground arith)
find_thread-some id (p ∷ ps) (zero, j) e =
    let (t, at, q) =
      find_index-some (λ (t : Thread). eq_int t.tid id) p.ttable j
        (ground (arith, Option-cases (find_thread id ps))) in
    (p, t, refl, at, ground (arith, Option-cases (find_thread id ps)), q)
find_thread-some id (p ∷ ps) (suc i, j) e =
    find_thread-some id ps (i, j)
      (ground (
        arith,
        Option-cases (find_thread id ps),
        Option-cases (find_index (λ (t : Thread). eq_int t.tid id) p.ttable),
      ))

-- It finds one if a process in use has one.
find_thread-none :
    (id : ℤ) (ps : List Proc) (i j : ℕ) (p : Proc) (t : Thread)
    → find_thread id ps ≡ none
    → get_elem? ps i ≡ some p
    → is_unused p ≡ false
    → get_elem? p.ttable j ≡ some t
    → eq_int t.tid id ≡ false
find_thread-none id [] i j p t e at u th = absurd (ground arith)
find_thread-none id (x ∷ ps) zero j p t e at u th =
    find_index-none (λ (t : Thread). eq_int t.tid id) x.ttable j t
      (ground (
        arith,
        Option-cases (find_index (λ (t : Thread). eq_int t.tid id) x.ttable),
        Option-cases (find_thread id ps),
      ))
      (ground arith)
find_thread-none id (x ∷ ps) (suc i) j p t e at u th =
    find_thread-none id ps i j p t
      (ground (
        arith,
        Option-cases (find_thread id ps),
        Option-cases (find_index (λ (t : Thread). eq_int t.tid id) x.ttable),
      ))
      at u th

-- A call of kthread_join with the id 0, by a running process that has a free thread slot, panics
-- the kernel, if as usual the threads with id 0 are those of free slots.
pub kthread_join_zero :
    {k : Kernel} {p j : ℕ} {pr : Proc} {t : Thread} (i : ℕ) (u : Thread)
    → Runs k (p, j) pr t
    → t.should_die ≡ false
    → pr.state ≡ used
    → get_elem? pr.ttable i ≡ some u
    → u.tid ≡ 0
    → ((c : ThreadPtr) (w : Thread) → thread_at k.procs c ≡ some w → w.tid ≡ 0 → w.state ≡ t_unused)
    → kthread_join (pos 0) k ≡ panicked join_unused
unfolding kthread_join
kthread_join_zero {k} {p} {j} {pr} {t} i u r d live at z zeros =
    elim (Option-cases (find_thread (pos 0) k.procs)) [
      | inl e ↦ absurd (ground (arith, find_thread-none (pos 0) k.procs p i pr u e r.proc))
      | inr (c, e) ↦
          let (q, w, at_q, at_w, _, zero_id) = find_thread-some (pos 0) k.procs c e in
          let free : w.state ≡ t_unused = zeros c w (ground arith) (ground arith) in
          ground (arith, Runs-thread_at r)
    ]

-- kthread_join on a thread that has exited returns 0 with no lock held, and gives the thread's slot and its stack
-- back; any other thread is as it was.
pub kthread_join_zombie :
    {k : Kernel} {p j : ℕ} {pr : Proc} {t : Thread} (id : ℤ) (q i r s : ℕ) (u : Thread)
    → Runs k (p, j) pr t
    → t.should_die ≡ false
    → find_thread id k.procs ≡ some (q, i)
    → thread_at k.procs (q, i) ≡ some u
    → u.state ≡ t_zombie
    → bad_page k.kernel_end u.kstack ≡ false
    → (q ≢ r) ⊎ (i ≢ s)
    → (k' : Kernel) × (kthread_join id k ≡ ret (pos 0) k')
      × (k'.held ≡ [])
      × (k'.free_pages ≡ u.kstack ∷ k.free_pages)
      × (thread_at k'.procs (q, i)
          ≡ some (record u { kstack = 0; tid = 0; should_die = false; state = t_unused }))
      × (thread_at k'.procs (r, s) ≡ thread_at k.procs (r, s))
unfolding kthread_join
kthread_join_zombie {k} id q i r s u run d e at z good ne = (
  record k {
    procs = modify k.procs q (modify_thread joined i);
    free_pages = u.kstack ∷ k.free_pages;
  },
  ground (arith, Runs-thread_at run),
  run.free,
  refl,
  ground (arith, thread_at-modify_self k.procs q i joined),
  thread_at-modify_ne k.procs q i r s joined ne,
)

-- kthread_join returns -1 and changes nothing if no process in use has a thread with that id; if
-- it has one that still lives, the caller goes to sleep on that thread, with the process table locked.
pub kthread_join_waits :
    {k : Kernel} {p j : ℕ} {pr : Proc} {t : Thread} (id : ℤ)
    → Runs k (p, j) pr t
    → t.should_die ≡ false
    → ((find_thread id k.procs ≡ none) × (kthread_join id k ≡ ret minus_one k))
      ⊎ ((c : ThreadPtr) × (u : Thread) × (thread_at k.procs c ≡ some u)
          × (eq_int u.tid id ≡ true)
          × ((u.state ≡ t_unused)
              ⊎ ((u.state ≡ t_zombie)
                  ⊎ (kthread_join id k
                      ≡ switched (
                          update_thread
                            (p, j)
                            (λ w. record w { chan = on_thread c.0 c.1; state = t_sleeping })
                            (record k { held = ptable_lock ∷ [] }))))))
unfolding kthread_join
kthread_join_waits {k} {p} {j} {pr} {t} id r d = elim (Option-cases (find_thread id k.procs)) [
  | inl e ↦ inl (e, ground (arith, Runs-thread_at r))
  | inr (c, e) ↦
      let (q, w, at_q, at_w, _, same) = find_thread-some id k.procs c e in
      inr (
        c,
        w,
        ground arith,
        same,
        elim (Bool-cases (in_state t_unused w)) [
          | inl y ↦ inl (ground arith)
          | inr y ↦ elim (Bool-cases (in_state t_zombie w)) [
            | inl z ↦ inr (inl (ground arith))
            | inr z ↦ inr (
                inr (
                  ground (
                    arith,
                    Runs-thread_at r,
                    thread_at-modify_self k.procs p j
                        (λ w. record w { chan = on_thread c.0 c.1; state = t_sleeping }),
                  )))
          ]
        ],
      )
]
