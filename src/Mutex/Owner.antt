-- ===== src/Mutex/Owner.antt =====
-- proc.c: the owner of a mutex while the tables change, and when others call kthread_mutex_alloc and
-- kthread_mutex_dealloc.
use os192_ass2_multi_thread.Base.{
  ℕ, ◌≡◌, ◌≢◌, ◌⊎◌, some, List, ℤ, get_elem?, Bool, true, false, modify, get_elem?-modify_self,
  get_elem?-modify_ne, arith, find_index, find_index-some, Option-cases, inl, inr, eq_int, ◌∙◌,
  refl, subst, ◌||◌, if◌then◌else◌, not, ◌==◌, minus_one, pos,
}
use native.Mathlib.Decide.{ℕ_discrete}
use os192_ass2_multi_thread.Kernel.Types.{
  Kernel, Thread, Proc, Mutex, ThreadPtr, thread_at, close, modify_thread, mutex_state_eq,
}
use os192_ass2_multi_thread.Kernel.Monad.{ret}
use os192_ass2_multi_thread.Kernel.Spec.{Runs}
use os192_ass2_multi_thread.Kernel.Tables.{thread_at-modify_self, thread_at-modify_ne}
use os192_ass2_multi_thread.Mutex.{
  kthread_mutex_alloc, kthread_mutex_dealloc, opened_mutex, is_uninitialized, cleared_mutex,
  find_mid,
}
use os192_ass2_multi_thread.Mutex.Table.{
  kthread_mutex_alloc_full, kthread_mutex_alloc_found, kthread_mutex_dealloc_missing,
  kthread_mutex_dealloc_found,
}
use os192_ass2_multi_thread.Mutex.Steps.{Leaves, Owns}

-- An update of one slot that keeps thread ids keeps the id of every thread.
tid-modify :
    (ps : List Proc) (c : ThreadPtr) (p i : ℕ) (f : Thread → Thread) (t : Thread)
    → ((u : Thread) → (f u).tid ≡ u.tid)
    → thread_at ps c ≡ some t
    → (u : Thread) × (thread_at (modify ps p (modify_thread f i)) c ≡ some u) × (u.tid ≡ t.tid)
tid-modify ps (q, j) p i f t keep e = elim (ℕ_discrete p q) [
  | no n ↦ (t, ground (arith, thread_at-modify_ne ps p i q j f (inl n)), refl)
  | yes y ↦ elim (ℕ_discrete i j) [
    | no n ↦ (t, ground (arith, thread_at-modify_ne ps p i q j f (inr n)), refl)
    | yes z ↦ (f t, ground (arith, thread_at-modify_self ps p i f), keep t)
  ]
]

-- An update of one mutex that leaves owned ones as they are.
pub Owns-update :
    (k k' : Kernel) (i j tid : ℕ) (c : ThreadPtr) (f : Mutex → Mutex)
    → Owns k i c tid
    → k'.mutexes ≡ modify k.mutexes j f
    → k'.procs ≡ k.procs
    → (j ≢ i)
      ⊎ ((m : Mutex) → ((f m).state ≡ m.state) × ((f m).lock ≡ 1) × ((f m).holding ≡ m.holding))
    → Owns k' i c tid
Owns-update k k' i j tid c f o e h (inl n) = record {
  entry = o.entry;
  thread = o.thread;
  at_entry = ground (arith, get_elem?-modify_ne k.mutexes j i f n);
  closed = o.closed;
  locked = o.locked;
  holder = o.holder;
  at_thread = ground arith;
  same_id = o.same_id;
}
Owns-update k k' i j tid c f o e h (inr s) = elim (ℕ_discrete j i) [
  | no n ↦ record {
    entry = o.entry;
    thread = o.thread;
    at_entry = ground (arith, get_elem?-modify_ne k.mutexes j i f n);
    closed = o.closed;
    locked = o.locked;
    holder = o.holder;
    at_thread = ground arith;
    same_id = o.same_id;
  }
  | yes y ↦ record {
    entry = f o.entry;
    thread = o.thread;
    at_entry = ground (arith, get_elem?-modify_self k.mutexes j f);
    closed = ground (arith, s o.entry);
    locked = (s o.entry).1;
    holder = ground (arith, s o.entry);
    at_thread = ground arith;
    same_id = o.same_id;
  }
]

-- An update of one thread that keeps its id.
pub Owns-thread :
    (k k' : Kernel) (i p j tid : ℕ) (c : ThreadPtr) (f : Thread → Thread)
    → Owns k i c tid
    → k'.mutexes ≡ k.mutexes
    → k'.procs ≡ modify k.procs p (modify_thread f j)
    → ((u : Thread) → (f u).tid ≡ u.tid)
    → Owns k' i c tid
Owns-thread k k' i p j tid c f o e h keep =
    let r = tid-modify k.procs c p j f o.thread keep o.at_thread in
    record {
      entry = o.entry;
      thread = r.0;
      at_entry = ground arith;
      closed = o.closed;
      locked = o.locked;
      holder = o.holder;
      at_thread = rw h r.1;
      same_id = r.2 ∙ o.same_id;
    }

pub Owns-alloc :
    (k k' : Kernel) (i tid : ℕ) (c d : ThreadPtr) (p : Proc) (t : Thread)
    → Runs k d p t
    → Owns k i c tid
    → Leaves (kthread_mutex_alloc k) k'
    → Owns k' i c tid
Owns-alloc k k' i tid c d p t r o l = elim (Option-cases (find_index is_uninitialized k.mutexes)) [
  | inl e ↦ subst (λ x. Owns x i c tid) (rw (kthread_mutex_alloc_full r e) at l) o
  | inr (j, e) ↦
      subst (λ x. Owns x i c tid) (rw (kthread_mutex_alloc_found j r e) at l)
        (Owns-update k _ i j tid c (opened_mutex k.nextmid p.pid) o refl refl (inl (free j e)))
]
  where
    free : (j : ℕ) → find_index is_uninitialized k.mutexes ≡ some j → j ≢ i
    free j e q = let (m, at, u) = find_index-some is_uninitialized k.mutexes j e in ground arith

pub Owns-dealloc :
    (k k' : Kernel) (i tid : ℕ) (c d : ThreadPtr) (p : Proc) (t : Thread) (id : ℤ)
    → Runs k d p t
    → Owns k i c tid
    → Leaves (kthread_mutex_dealloc id k) k'
    → Owns k' i c tid
Owns-dealloc k k' i tid c d p t id r o l = elim (Option-cases (find_mid id k.mutexes)) [
  | inl e ↦ subst (λ x. Owns x i c tid) (rw (kthread_mutex_dealloc_missing id r e) at l) o
  | inr (j, e) ↦
      let (m, at, u) = find_index-some (λ (m : Mutex). eq_int m.mid id) k.mutexes j e in
      go j m at (mutex_state_eq m.state close || not (m.num_of_waiting == 0)) refl
        (rw (kthread_mutex_dealloc_found id j m r e at) at l)
]
  where
    go :
        (j : ℕ) (m : Mutex)
        → get_elem? k.mutexes j ≡ some m
        → (b : Bool) → (mutex_state_eq m.state close || not (m.num_of_waiting == 0)) ≡ b
        → Leaves
            (if b
              then ret minus_one k
              else ret (pos 0) (record k { mutexes = modify k.mutexes j cleared_mutex }))
            k'
        → Owns k' i c tid
    go j m at true q l = subst (λ x. Owns x i c tid) l o
    go j m at false q l =
        subst (λ x. Owns x i c tid) l
          (Owns-update k _ i j tid c cleared_mutex o refl refl (inl (λ e. ground arith)))
