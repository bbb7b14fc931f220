-- ===== src/Mutex/OwnerSection.antt =====
-- proc.c: the owner of a mutex while the calls of other CPUs work on entries with their locks held.
use os192_ass2_multi_thread.Mutex.Owner.{Owns-update}
use os192_ass2_multi_thread.Mutex.OwnerLock.{Owns-woken}
use os192_ass2_multi_thread.Mutex.{
  open_section, clear_section, unlock_section, opened_mutex, cleared_mutex, released_mutex, woken,
  holder_tid,
}
use os192_ass2_multi_thread.Mutex.Steps.{Leaves, Owns, Inside}
use os192_ass2_multi_thread.Kernel.Monad.{ret, panicked, null}
use os192_ass2_multi_thread.Kernel.Types.{
  Kernel, Lock, Thread, Proc, Mutex, ThreadPtr, close, uninitialized, mutex_lock, mtable_lock,
  update_mutex, mutex_state_eq,
}
use os192_ass2_multi_thread.Base.{
  ℕ, ◌≡◌, ◌≢◌, get_elem?, some, none, refl, arith, inl, inr, ◌∷◌, [], subst, ==_refl, pos,
  if◌then◌else◌, modify, not, ◌||◌, ◌+◌, ◌==◌, minus_one, List, Bool, Option-cases, true, false,
}

module _ {k : Kernel} {d : ThreadPtr} {p : Proc} {t : Thread} (j : ℕ) where
  open_section_lem :
      Inside k d p t (mutex_lock j ∷ [])
      → open_section j k
        ≡ ret (pos k.nextmid) (record k {
          mutexes = modify k.mutexes j (opened_mutex k.nextmid p.pid);
          nextmid = k.nextmid + 1;
          held = [];
        })
  open_section_lem r = ground (arith, ==_refl j)

  clear_section_lem :
      Inside k d p t (mutex_lock j ∷ mtable_lock ∷ [])
      → clear_section j k
        ≡ ret (pos 0) (record k { mutexes = modify k.mutexes j cleared_mutex; held = [] })
  clear_section_lem r = ground (arith, ==_refl j)

  unlock_section_lem :
      (m : Mutex)
      → Inside k d p t (mutex_lock j ∷ [])
      → get_elem? k.mutexes j ≡ some m
      → unlock_section j k ≡ (
          if not (mutex_state_eq m.state close) || not (holder_tid k m == t.tid)
          then ret minus_one (record k { held = [] })
          else ret (pos 0) (record (woken d p j (update_mutex j released_mutex k)) { held = [] }))
  unlock_section_lem m r at = ground (arith, ==_refl j)

  unlock_section_outside :
      Inside k d p t (mutex_lock j ∷ [])
      → get_elem? k.mutexes j ≡ none
      → unlock_section j k ≡ panicked null
  unlock_section_outside r at = ground arith

-- Which locks the CPU holds is nothing to the owner.
Owns-held :
    (k : Kernel) (i tid : ℕ) (c : ThreadPtr) (l : List Lock)
    → Owns k i c tid
    → Owns (record k { held = l }) i c tid
Owns-held k i tid c l o = record {
  entry = o.entry;
  thread = o.thread;
  at_entry = o.at_entry;
  closed = o.closed;
  locked = o.locked;
  holder = o.holder;
  at_thread = o.at_thread;
  same_id = o.same_id;
}

module _ (k k' : Kernel) (i j tid : ℕ) (c d : ThreadPtr) (p : Proc) (t : Thread)
    (o : Owns k i c tid) where
  pub Owns-open :
      (m : Mutex)
      → Inside k d p t (mutex_lock j ∷ [])
      → get_elem? k.mutexes j ≡ some m
      → m.state ≡ uninitialized
      → Leaves (open_section j k) k'
      → Owns k' i c tid
  Owns-open m r at u l =
      subst (λ x. Owns x i c tid) (rw (open_section_lem j r) at l)
        (Owns-update k _ i j tid c (opened_mutex k.nextmid p.pid) o refl refl
          (inl (λ q. ground arith)))

  pub Owns-clear :
      (m : Mutex)
      → Inside k d p t (mutex_lock j ∷ mtable_lock ∷ [])
      → get_elem? k.mutexes j ≡ some m
      → m.state ≢ close
      → Leaves (clear_section j k) k'
      → Owns k' i c tid
  Owns-clear m r at n l =
      subst (λ x. Owns x i c tid) (rw (clear_section_lem j r) at l)
        (Owns-update k _ i j tid c cleared_mutex o refl refl
          (inl (λ q. n (ground (arith, o.closed, o.at_entry)))))

  pub Owns-unlocking :
      Inside k d p t (mutex_lock j ∷ [])
      → t.tid ≢ tid
      → Leaves (unlock_section j k) k'
      → Owns k' i c tid
  Owns-unlocking r ne l = elim (Option-cases (get_elem? k.mutexes j)) [
    | inl n ↦ absurd (rw (unlock_section_outside j r n) at l)
    | inr (m, at) ↦
        go m at (not (mutex_state_eq m.state close) || not (holder_tid k m == t.tid)) refl
          (rw (unlock_section_lem j m r at) at l)
  ]
    where
      go :
          (m : Mutex)
          → get_elem? k.mutexes j ≡ some m
          → (b : Bool) → (not (mutex_state_eq m.state close) || not (holder_tid k m == t.tid)) ≡ b
          → Leaves
              (if b
                then ret minus_one (record k { held = [] })
                else ret
                    (pos 0)
                    (record (woken d p j (update_mutex j released_mutex k)) { held = [] }))
              k'
          → Owns k' i c tid
      go m at true q l = subst (λ x. Owns x i c tid) l (Owns-held k i tid c [] o)
      go m at false q l =
          subst (λ x. Owns x i c tid) l
            (Owns-held (woken d p j (update_mutex j released_mutex k)) i tid c [] (
              Owns-woken _ i j tid c d p
                (Owns-update k _ i j tid c released_mutex o refl refl (inl (λ e. ground arith)))))
