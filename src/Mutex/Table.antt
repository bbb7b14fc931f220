-- ===== src/Mutex/Table.antt =====
-- proc.c, the mutex table.

use os192_ass2_multi_thread.Base.{
  ℕ, ◌+◌, ◌≡◌, not, ◌||◌, none, some, ◌==◌, if◌then◌else◌, find_index, ℤ, pos, minus_one, get_elem?,
  modify, arith, ◌∷◌, [], ◌≢◌, modify-modify, ==_refl,
}
use os192_ass2_multi_thread.Kernel.Types.{
  Kernel, Thread, Proc, Mutex, ThreadPtr, close, mutex_state_eq, update_mutex, mutex_lock,
  uninitialized, thread_at, update_thread, on_mutex, t_sleeping, ptable_lock,
}
use os192_ass2_multi_thread.Kernel.Monad.{ret, switched, panicked, null}
use os192_ass2_multi_thread.Kernel.Tables.{thread_at-modify_self}
use os192_ass2_multi_thread.Kernel.Spec.{Runs}
use os192_ass2_multi_thread.Mutex.{
  kthread_mutex_alloc, kthread_mutex_dealloc, is_uninitialized, opened_mutex, cleared_mutex,
  find_mid, woken, holder_tid, lock_loop, kthread_mutex_lock, kthread_mutex_unlock, released_mutex,
}

pub kthread_mutex_alloc_full :
    {k : Kernel} {c : ThreadPtr} {p : Proc} {t : Thread}
    → Runs k c p t
    → find_index is_uninitialized k.mutexes ≡ none
    → kthread_mutex_alloc k ≡ ret minus_one k
unfolding kthread_mutex_alloc
kthread_mutex_alloc_full r e = ground arith

pub kthread_mutex_alloc_found :
    {k : Kernel} {c : ThreadPtr} {p : Proc} {t : Thread} (i : ℕ)
    → Runs k c p t
    → find_index is_uninitialized k.mutexes ≡ some i
    → kthread_mutex_alloc k
      ≡ ret (pos k.nextmid) (record k {
        mutexes = modify k.mutexes i (opened_mutex k.nextmid p.pid);
        nextmid = k.nextmid + 1;
      })
unfolding kthread_mutex_alloc
kthread_mutex_alloc_found i r e = ground arith

pub kthread_mutex_dealloc_found :
    {k : Kernel} {c : ThreadPtr} {p : Proc} {t : Thread} (id : ℤ) (i : ℕ) (m : Mutex)
    → Runs k c p t
    → find_mid id k.mutexes ≡ some i
    → get_elem? k.mutexes i ≡ some m
    → kthread_mutex_dealloc id k ≡ (
        if mutex_state_eq m.state close || not (m.num_of_waiting == 0)
        then ret minus_one k
        else ret (pos 0) (record k { mutexes = modify k.mutexes i cleared_mutex }))
unfolding kthread_mutex_dealloc
kthread_mutex_dealloc_found id i m r e f = ground arith

pub kthread_mutex_lock_found :
    {k : Kernel} {c : ThreadPtr} {p : Proc} {t : Thread} (id : ℤ) (i : ℕ) (m : Mutex)
    → Runs k c p t
    → find_mid id k.mutexes ≡ some i
    → get_elem? k.mutexes i ≡ some m
    → kthread_mutex_lock id k ≡ (
        if mutex_state_eq m.state uninitialized || holder_tid k m == t.tid
        then ret minus_one k
        else lock_loop i (record k { held = mutex_lock i ∷ [] }))
unfolding kthread_mutex_lock
kthread_mutex_lock_found id i m r e f = ground arith

abbrev pub taken_by : ThreadPtr → Mutex → Mutex
taken_by c n = record n { lock = 1; state = close; holding = some c }

pub lock_loop_free :
    (k : Kernel) (c : ThreadPtr) (i : ℕ) (m : Mutex)
    → k.cur ≡ some c
    → k.held ≡ mutex_lock i ∷ []
    → get_elem? k.mutexes i ≡ some m
    → m.lock ≡ 0
    → lock_loop i k
      ≡ ret (pos 0) (record k { held = []; mutexes = modify k.mutexes i (taken_by c) })
unfolding lock_loop
lock_loop_free k c i m e h f z = ground (
  arith,
  modify-modify k.mutexes i (λ n. record n { lock = 1 })
      (λ n. record n { state = close; holding = some c }),
  ==_refl i,
)

abbrev pub sleeps_on : ℕ → Thread → Thread
sleeps_on i t = record t { chan = on_mutex i; state = t_sleeping }

pub lock_loop_taken :
    (k : Kernel) (p j : ℕ) (t : Thread) (i : ℕ) (m : Mutex)
    → k.cur ≡ some (p, j)
    → thread_at k.procs (p, j) ≡ some t
    → k.held ≡ mutex_lock i ∷ []
    → get_elem? k.mutexes i ≡ some m
    → m.lock ≢ 0
    → lock_loop i k
      ≡ switched (
          update_thread
            (p, j)
            (sleeps_on i)
            (update_mutex i (λ n. record n { lock = 1 }) (record k { held = ptable_lock ∷ [] })))
unfolding lock_loop
lock_loop_taken k p j t i m e tt' h f z =
    ground (arith, ==_refl i, thread_at-modify_self k.procs p j (sleeps_on i))

pub kthread_mutex_unlock_found :
    {k : Kernel} {c : ThreadPtr} {p : Proc} {t : Thread} (id : ℤ) (i : ℕ) (m : Mutex)
    → Runs k c p t
    → find_mid id k.mutexes ≡ some i
    → get_elem? k.mutexes i ≡ some m
    → kthread_mutex_unlock id k ≡ (
        if not (mutex_state_eq m.state close) || not (holder_tid k m == t.tid)
        then ret minus_one k
        else ret (pos 0) (woken c p i (update_mutex i released_mutex k)))
unfolding kthread_mutex_unlock
kthread_mutex_unlock_found id i m r e f = ground arith

pub kthread_mutex_dealloc_missing :
    {k : Kernel} {c : ThreadPtr} {p : Proc} {t : Thread} (id : ℤ)
    → Runs k c p t
    → find_mid id k.mutexes ≡ none
    → kthread_mutex_dealloc id k ≡ ret minus_one k
unfolding kthread_mutex_dealloc
kthread_mutex_dealloc_missing id r e = ground arith

pub kthread_mutex_lock_missing :
    {k : Kernel} {c : ThreadPtr} {p : Proc} {t : Thread} (id : ℤ)
    → Runs k c p t
    → find_mid id k.mutexes ≡ none
    → kthread_mutex_lock id k ≡ ret minus_one k
unfolding kthread_mutex_lock
kthread_mutex_lock_missing id r e = ground arith

pub kthread_mutex_unlock_missing :
    {k : Kernel} {c : ThreadPtr} {p : Proc} {t : Thread} (id : ℤ)
    → Runs k c p t
    → find_mid id k.mutexes ≡ none
    → kthread_mutex_unlock id k ≡ ret minus_one k
unfolding kthread_mutex_unlock
kthread_mutex_unlock_missing id r e = ground arith

pub lock_loop_outside :
    (k : Kernel) (i : ℕ) → get_elem? k.mutexes i ≡ none → lock_loop i k ≡ panicked null
unfolding lock_loop
lock_loop_outside k i e = ground arith

-- The wake-up of a waiter changes the process table alone.
pub woken_fields :
    (k : Kernel) (c : ThreadPtr) (p : Proc) (i : ℕ)
    → ((woken c p i k).mutexes ≡ k.mutexes)
      × ((woken c p i k).nextmid ≡ k.nextmid)
      × ((woken c p i k).held ≡ k.held)
woken_fields k c p i = ground arith
