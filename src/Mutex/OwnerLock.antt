-- ===== src/Mutex/OwnerLock.antt =====
-- proc.c: the owner of a mutex when kthread_mutex_lock and kthread_mutex_unlock are called.
use os192_ass2_multi_thread.Mutex.Owner.{Owns-update, Owns-thread}
use os192_ass2_multi_thread.Base.{
  ℕ, ◌≡◌, ◌≢◌, some, [], ◌∷◌, ℤ, get_elem?, Bool, true, false, modify, arith, find_index,
  find_index-some, Option-cases, inl, inr, eq_int, refl, subst, ◌||◌, if◌then◌else◌, not, ◌==◌,
  minus_one, pos,
}
use native.Mathlib.Decide.{ℕ_discrete}
use os192_ass2_multi_thread.Kernel.Types.{
  Kernel, Thread, Proc, Mutex, ThreadPtr, thread_at, close, mutex_lock, mutex_state_eq,
  update_mutex, uninitialized, t_runnable,
}
use os192_ass2_multi_thread.Kernel.Monad.{ret}
use os192_ass2_multi_thread.Kernel.Spec.{Runs, Runs-thread_at}
use os192_ass2_multi_thread.Mutex.{
  kthread_mutex_lock, kthread_mutex_unlock, lock_loop, holder_tid, find_mid, woken, waits_on,
  released_mutex,
}
use os192_ass2_multi_thread.Mutex.Table.{
  lock_loop_free, lock_loop_taken, sleeps_on, taken_by, lock_loop_outside,
  kthread_mutex_lock_missing, kthread_mutex_lock_found, kthread_mutex_unlock_missing,
  kthread_mutex_unlock_found,
}
use os192_ass2_multi_thread.Mutex.Steps.{Leaves, Owns}

pub Owns-loop :
    (k k' : Kernel) (i j tid : ℕ) (c d : ThreadPtr) (t : Thread)
    → k.cur ≡ some d
    → thread_at k.procs d ≡ some t
    → k.held ≡ mutex_lock j ∷ []
    → Owns k i c tid
    → Leaves (lock_loop j k) k'
    → Owns k' i c tid
Owns-loop k k' i j tid c (p, s) t e et h o l = elim (Option-cases (get_elem? k.mutexes j)) [
  | inl n ↦ absurd (rw (lock_loop_outside k j n) at l)
  | inr (m, at) ↦ elim (ℕ_discrete m.lock 0) [
    | yes z ↦
        subst (λ x. Owns x i c tid) (rw (lock_loop_free k (p, s) j m e h at z) at l)
          (Owns-update k _ i j tid c (taken_by (p, s)) o refl refl (inl (λ q. ground arith)))
    | no z ↦
        subst (λ x. Owns x i c tid) (rw (lock_loop_taken k p s t j m e et h at z) at l)
          (Owns-thread (record k { mutexes = modify k.mutexes j (λ n. record n { lock = 1 }) }) _ i
            p s tid c (sleeps_on j)
            (Owns-update k _ i j tid c (λ n. record n { lock = 1 }) o refl refl
              (inr (λ m'. (refl, refl, refl))))
            refl refl (λ u. refl))
  ]
]

pub Owns-lock :
    (k k' : Kernel) (i tid : ℕ) (c d : ThreadPtr) (p : Proc) (t : Thread) (id : ℤ)
    → Runs k d p t
    → Owns k i c tid
    → Leaves (kthread_mutex_lock id k) k'
    → Owns k' i c tid
Owns-lock k k' i tid c d p t id r o l = elim (Option-cases (find_mid id k.mutexes)) [
  | inl e ↦ subst (λ x. Owns x i c tid) (rw (kthread_mutex_lock_missing id r e) at l) o
  | inr (j, e) ↦
      let (m, at, u) = find_index-some (λ (m : Mutex). eq_int m.mid id) k.mutexes j e in
      go j (mutex_state_eq m.state uninitialized || holder_tid k m == t.tid)
        (rw (kthread_mutex_lock_found id j m r e at) at l)
]
  where
    o' : (j : ℕ) → Owns (record k { held = mutex_lock j ∷ [] }) i c tid
    o' j = record {
      entry = o.entry;
      thread = o.thread;
      at_entry = o.at_entry;
      closed = o.closed;
      locked = o.locked;
      holder = o.holder;
      at_thread = o.at_thread;
      same_id = o.same_id;
    }

    go :
        (j : ℕ) (b : Bool)
        → Leaves
            (if b then ret minus_one k else lock_loop j (record k { held = mutex_lock j ∷ [] }))
            k'
        → Owns k' i c tid
    go j true l = subst (λ x. Owns x i c tid) l o
    go j false l =
        Owns-loop (record k { held = mutex_lock j ∷ [] }) k' i j tid c d t r.now (Runs-thread_at r)
          refl (o' j) l

pub Owns-woken :
    (k : Kernel) (i j tid : ℕ) (c d : ThreadPtr) (p : Proc)
    → Owns k i c tid
    → Owns (woken d p j k) i c tid
Owns-woken k i j tid c d p o = elim (Option-cases (find_index (waits_on j) p.ttable)) [
  | inl e ↦ rw (e, woken) o
  | inr (s, e) ↦
      rw (e, woken)
        (Owns-thread k _ i d.0 s tid c (λ t. record t { state = t_runnable }) o refl refl
          (λ u. refl))
]

-- No thread with another id can release what the owner holds.
pub Owns-unlock :
    (k k' : Kernel) (i tid : ℕ) (c d : ThreadPtr) (p : Proc) (t : Thread) (id : ℤ)
    → Runs k d p t
    → t.tid ≢ tid
    → Owns k i c tid
    → Leaves (kthread_mutex_unlock id k) k'
    → Owns k' i c tid
Owns-unlock k k' i tid c d p t id r ne o l = elim (Option-cases (find_mid id k.mutexes)) [
  | inl e ↦ subst (λ x. Owns x i c tid) (rw (kthread_mutex_unlock_missing id r e) at l) o
  | inr (j, e) ↦
      let (m, at, u) = find_index-some (λ (m : Mutex). eq_int m.mid id) k.mutexes j e in
      go j m at (not (mutex_state_eq m.state close) || not (holder_tid k m == t.tid)) refl
        (rw (kthread_mutex_unlock_found id j m r e at) at l)
]
  where
    go :
        (j : ℕ) (m : Mutex)
        → get_elem? k.mutexes j ≡ some m
        → (b : Bool) → (not (mutex_state_eq m.state close) || not (holder_tid k m == t.tid)) ≡ b
        → Leaves
            (if b
              then ret minus_one k
              else ret (pos 0) (woken d p j (update_mutex j released_mutex k)))
            k'
        → Owns k' i c tid
    go j m at true q l = subst (λ x. Owns x i c tid) l o
    go j m at false q l =
        subst (λ x. Owns x i c tid) l
          (Owns-woken _ i j tid c d p
            (Owns-update k _ i j tid c released_mutex o refl refl (inl (λ e. ground arith))))
