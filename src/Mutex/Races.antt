-- ===== src/Mutex/Races.antt =====
-- proc.c: kthread_mutex_dealloc while kthread_mutex_lock is in the middle on another CPU.
use os192_ass2_multi_thread.Mutex.{
  lock_test, dealloc_test, lock_loop, clear_section, cleared_mutex, find_mid,
}
use os192_ass2_multi_thread.Mutex.Table.{lock_loop_free, taken_by}
use os192_ass2_multi_thread.Mutex.Invariant.{TableIsValid}
use os192_ass2_multi_thread.Kernel.Monad.{ret}
use os192_ass2_multi_thread.Kernel.Types.{
  Kernel, Lock, Thread, Mutex, ThreadPtr, thread_at, opened, close, mutex_lock, mtable_lock,
}
use os192_ass2_multi_thread.Base.{
  ℕ, ℤ, List, ◌≡◌, ◌≢◌, some, get_elem?, modify, ◌∷◌, [], refl, arith, pos, get_elem?-modify_self,
  ==_refl,
}

-- A CPU that runs thread `c` and holds these locks.
abbrev pub on : ThreadPtr → List Lock → Kernel → Kernel
on c locks k = record k { cur = some c; held = locks }

lock_test_passes :
    (k : Kernel) (id : ℤ) (i : ℕ) (m : Mutex) (d : ThreadPtr) (u : Thread)
    → TableIsValid k.mutexes k.nextmid
    → find_mid id k.mutexes ≡ some i
    → get_elem? k.mutexes i ≡ some m
    → m.state ≡ opened
    → thread_at k.procs d ≡ some u
    → k.null_tid ≢ u.tid
    → lock_test id (on d [] k) ≡ ret (some i) (on d (mutex_lock i ∷ []) k)
lock_test_passes k id i m d u v e at o th ne = ground (arith, v.coherent i m at)

dealloc_test_passes :
    (k : Kernel) (id : ℤ) (i : ℕ) (m : Mutex) (c : ThreadPtr)
    → TableIsValid k.mutexes k.nextmid
    → find_mid id k.mutexes ≡ some i
    → get_elem? k.mutexes i ≡ some m
    → m.state ≡ opened
    → dealloc_test id (on c [] k) ≡ ret (some i) (on c (mtable_lock ∷ []) k)
dealloc_test_passes k id i m c v e at o = ground (arith, v.coherent i m at)

-- On two CPUs, with a mutex table in order, a kthread_mutex_lock of an open mutex, by a thread whose id is not the word
-- that a null thread pointer reads, and a kthread_mutex_dealloc of it both pass their tests; the first then takes the
-- mutex and returns 0, and the second frees the entry that is owned, and returns 0 as well.
pub dealloc_frees_owned :
    (k : Kernel) (id : ℤ) (i : ℕ) (m : Mutex) (c d : ThreadPtr) (u : Thread)
    → TableIsValid k.mutexes k.nextmid
    → find_mid id k.mutexes ≡ some i
    → get_elem? k.mutexes i ≡ some m
    → m.state ≡ opened
    → thread_at k.procs d ≡ some u
    → k.null_tid ≢ u.tid
    → (lock_test id (on d [] k) ≡ ret (some i) (on d (mutex_lock i ∷ []) k))
      × (dealloc_test id (on c [] k) ≡ ret (some i) (on c (mtable_lock ∷ []) k))
      × ((j : Kernel) × (n : Mutex) × (lock_loop i (on d (mutex_lock i ∷ []) k)
            ≡ ret (pos 0) (on d [] j))
          × (get_elem? j.mutexes i ≡ some n)
          × (n.state ≡ close)
          × (n.holding ≡ some d)
          × ((l : Kernel) × (clear_section i (on c (mutex_lock i ∷ mtable_lock ∷ []) j)
                ≡ ret (pos 0) (on c [] l))
              × (get_elem? l.mutexes i ≡ some (cleared_mutex n))))
dealloc_frees_owned k id i m c d u v e at o th ne = (
  lock_test_passes k id i m d u v e at o th ne,
  dealloc_test_passes k id i m c v e at o,
  (
    record k { mutexes = modify k.mutexes i (taken_by d) },
    taken_by d m,
    lock_loop_free (on d (mutex_lock i ∷ []) k) d i m refl refl at
        (ground (arith, v.coherent i m at)),
    ground (arith, get_elem?-modify_self k.mutexes i (taken_by d)),
    refl,
    refl,
    (
      record k { mutexes = modify (modify k.mutexes i (taken_by d)) i cleared_mutex },
      ground (arith, ==_refl i),
      ground (
        arith,
        get_elem?-modify_self k.mutexes i (taken_by d),
        get_elem?-modify_self (modify k.mutexes i (taken_by d)) i cleared_mutex,
      ),
    ),
  ),
)
