-- ===== src/Mutex/Calls.antt =====
-- proc.c, every call on mutexes against the invariant of the table.
use native.Mathlib.Decide.{ℕ_discrete}
use os192_ass2_multi_thread.Mutex.Table.{
  kthread_mutex_alloc_full, kthread_mutex_alloc_found, lock_loop_free, taken_by,
  kthread_mutex_lock_missing, kthread_mutex_dealloc_missing, lock_loop_taken, woken_fields,
  kthread_mutex_dealloc_found, kthread_mutex_lock_found, kthread_mutex_unlock_missing,
  kthread_mutex_unlock_found,
}
use os192_ass2_multi_thread.Mutex.{
  kthread_mutex_unlock, kthread_mutex_lock, kthread_mutex_alloc, kthread_mutex_dealloc,
  is_uninitialized, lock_loop, find_mid, woken, opened_mutex, released_mutex, holder_tid,
  cleared_mutex,
}
use os192_ass2_multi_thread.Kernel.Spec.{Runs, Post, Runs-thread_at}
use os192_ass2_multi_thread.Kernel.Monad.{Result}
use os192_ass2_multi_thread.Kernel.Types.{
  Kernel, Thread, Proc, Mutex, ptable_lock, thread_at, mutex_lock, update_mutex, mutex_state_eq,
  close, uninitialized,
}
use os192_ass2_multi_thread.Base.{
  ℕ, ℤ, ◌≡◌, [], some, Option-cases, find_index, ◌∷◌, get_elem?, inl, inr, ◌+◌, arith, refl,
  find_index-some, eq_int, ◌∙◌, Bool-cases, not, ◌||◌, ◌==◌,
}
use os192_ass2_multi_thread.Mutex.Steps.{alloc, dealloc, lock, unlock, Call, run}
use os192_ass2_multi_thread.Mutex.Invariant.{TableIsValid, TableIsValid-modify}

-- After a return no spinlock is held; a thread that gives up the CPU holds the process table's
-- alone. The table is valid in both cases, and there is no panic.
abbrev pub IsClean : Result ℤ → Type 0
IsClean =
    Post (λ a k. TableIsValid k.mutexes k.nextmid × (k.held ≡ []))
      (λ k. TableIsValid k.mutexes k.nextmid × (k.held ≡ ptable_lock ∷ []))

lock_loop-IsClean :
    (k : Kernel) (p j i : ℕ) (t : Thread) (m : Mutex)
    → TableIsValid k.mutexes k.nextmid
    → k.cur ≡ some (p, j)
    → thread_at k.procs (p, j) ≡ some t
    → k.held ≡ mutex_lock i ∷ []
    → get_elem? k.mutexes i ≡ some m
    → IsClean (lock_loop i k)
lock_loop-IsClean k p j i t m v e et h at = elim (ℕ_discrete m.lock 0) [
  | yes z ↦ rw (lock_loop_free k (p, j) i m e h at z) (
    TableIsValid-modify k.mutexes k.nextmid k.nextmid i (taken_by (p, j)) v (omega arith)
        (λ n q. ground (arith, v.coherent i n q)) (λ n. inl refl),
    refl,
  )
  | no z ↦ rw (lock_loop_taken k p j t i m e et h at z) (
    TableIsValid-modify k.mutexes k.nextmid k.nextmid i (λ n. record n { lock = 1 }) v (omega arith)
        (λ n q. ground (arith, v.coherent i n q)) (λ n. inl refl),
    refl,
  )
]

module _ {k : Kernel} {p j : ℕ} {pr : Proc} {t : Thread} (r : Runs k (p, j) pr t)
    (v : TableIsValid k.mutexes k.nextmid) where
  alloc-IsClean : IsClean (kthread_mutex_alloc k)
  alloc-IsClean = elim (Option-cases (find_index is_uninitialized k.mutexes)) [
    | inl e ↦ rw (kthread_mutex_alloc_full r e) (v, r.free)
    | inr (i, e) ↦ rw (kthread_mutex_alloc_found i r e) (
      TableIsValid-modify k.mutexes k.nextmid (k.nextmid + 1) i (opened_mutex k.nextmid pr.pid) v
          (omega arith) (λ n q. (refl, (refl, refl))) (λ n. inr (inr (omega arith, omega arith))),
      r.free,
    )
  ]

  dealloc-IsClean : (id : ℤ) → IsClean (kthread_mutex_dealloc id k)
  dealloc-IsClean id = elim (Option-cases (find_mid id k.mutexes)) [
    | inl e ↦ rw (kthread_mutex_dealloc_missing id r e) (v, r.free)
    | inr (i, e) ↦
        let (m, at, u) = find_index-some (λ (m : Mutex). eq_int m.mid id) k.mutexes i e in
        rw (kthread_mutex_dealloc_found id i m r e at)
          (elim (Bool-cases (mutex_state_eq m.state close || not (m.num_of_waiting == 0))) [
            | inl q ↦ rw q (v, r.free)
            | inr q ↦ rw q (
              TableIsValid-modify k.mutexes k.nextmid k.nextmid i cleared_mutex v (omega arith)
                  (λ n o. (refl, (refl, refl))) (λ n. inr (inl refl)),
              r.free,
            )
          ])
  ]

  lock-IsClean : (id : ℤ) → IsClean (kthread_mutex_lock id k)
  lock-IsClean id = elim (Option-cases (find_mid id k.mutexes)) [
    | inl e ↦ rw (kthread_mutex_lock_missing id r e) (v, r.free)
    | inr (i, e) ↦
        let (m, at, u) = find_index-some (λ (m : Mutex). eq_int m.mid id) k.mutexes i e in
        rw (kthread_mutex_lock_found id i m r e at)
          (elim (Bool-cases (mutex_state_eq m.state uninitialized || holder_tid k m == t.tid)) [
            | inl q ↦ rw q (v, r.free)
            | inr q ↦ rw q (
                lock_loop-IsClean (record k { held = mutex_lock i ∷ [] }) p j i t m v r.now
                  (Runs-thread_at r) refl at)
          ])
  ]

  unlock-IsClean : (id : ℤ) → IsClean (kthread_mutex_unlock id k)
  unlock-IsClean id = elim (Option-cases (find_mid id k.mutexes)) [
    | inl e ↦ rw (kthread_mutex_unlock_missing id r e) (v, r.free)
    | inr (i, e) ↦
        let (m, at, u) = find_index-some (λ (m : Mutex). eq_int m.mid id) k.mutexes i e in
        rw (kthread_mutex_unlock_found id i m r e at)
          (elim (Bool-cases (not (mutex_state_eq m.state close) || not (holder_tid k m == t.tid))) [
            | inl q ↦ rw q (v, r.free)
            | inr q ↦ rw q (released i)
          ])
  ]
    where
      released :
          (i : ℕ)
          → TableIsValid
              (woken (p, j) pr i (update_mutex i released_mutex k)).mutexes
              (woken (p, j) pr i (update_mutex i released_mutex k)).nextmid
            × ((woken (p, j) pr i (update_mutex i released_mutex k)).held ≡ [])
      released i =
          let (a, b, c) = woken_fields (update_mutex i released_mutex k) (p, j) pr i in
          (
            rw (a, b)
                (TableIsValid-modify k.mutexes k.nextmid k.nextmid i released_mutex v (omega arith)
                  (λ n o. ground (arith, v.coherent i n o)) (λ n. inl refl)),
            c ∙ r.free,
          )

-- Every call on mutexes, made by a running thread that holds no spinlock, keeps the table valid:
-- it returns with no spinlock held or gives up the CPU with the process table's alone, and it does
-- not panic.
pub run-IsClean :
    {k : Kernel} {p j : ℕ} {pr : Proc} {t : Thread} (call : Call)
    → Runs k (p, j) pr t
    → TableIsValid k.mutexes k.nextmid
    → IsClean (run call k)
run-IsClean alloc r v = alloc-IsClean r v
run-IsClean (dealloc id) r v = dealloc-IsClean r v id
run-IsClean (lock id) r v = lock-IsClean r v id
run-IsClean (unlock id) r v = unlock-IsClean r v id
