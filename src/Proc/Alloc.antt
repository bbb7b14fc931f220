-- ===== src/Proc/Alloc.antt =====
-- proc.c: process slots and ids.
use os192_ass2_multi_thread.Kernel.Monad.{ret}
use native.Mathlib.Decide.{ℕ_discrete}
use os192_ass2_multi_thread.Mutex.Invariant.{Renamed}
use os192_ass2_multi_thread.Kernel.Types.{Proc, Kernel, is_unused, used, unused, update_proc}
use os192_ass2_multi_thread.Sched.{kill, kill_proc}
use os192_ass2_multi_thread.Proc.{allocproc, Kernel, ret}
use os192_ass2_multi_thread.Base.{
  ℕ, true, List, ◌<◌, ◌≤◌, get_elem?, ◌≡◌, [], modify, some, find_index, ◌≢◌, arith,
  get_elem?-modify_ne, eq_int, pos, none, Option-cases, inl, get_elem?-modify_self, ◌⊎◌, inr,
  find_index-some, ◌+◌, find_index-modify, refl,
}

-- Ids are below the next one, and no two slots have one id, but for 0, the id of a freed slot.
pub record PidsAreValid (ps : List Proc) (nextpid : ℕ) : Type 0 where
  pub started : 0 < nextpid
  pub below : (i : ℕ) (p : Proc) → get_elem? ps i ≡ some p → p.pid < nextpid
  pub unique :
      (i j : ℕ) (p q : Proc)
      → get_elem? ps i ≡ some p
      → get_elem? ps j ≡ some q
      → p.pid ≡ q.pid
      → p.pid ≢ 0
      → i ≡ j

data Slot (ps : List Proc) (j : ℕ) (f : Proc → Proc) (i : ℕ) (p : Proc) : Type 0 where
  other : get_elem? ps i ≡ some p → Slot ps j f i p
  changed : (q : Proc) → j ≡ i → get_elem? ps i ≡ some q → p ≡ f q → Slot ps j f i p

Slot-of :
    (ps : List Proc) (j : ℕ) (f : Proc → Proc) (i : ℕ) (p : Proc)
    → get_elem? (modify ps j f) i ≡ some p
    → Slot ps j f i p
Slot-of ps j f i p e = elim (ℕ_discrete j i) [
  | no n ↦ other (ground (arith, get_elem?-modify_ne ps j i f n))
  | yes y ↦ elim (Option-cases (get_elem? ps i)) [
    | inl q ↦ absurd (ground (arith, get_elem?-modify_self ps j f))
    | inr (n, q) ↦ changed n y q (ground (arith, get_elem?-modify_self ps j f))
  ]
]

-- An update of one slot that keeps its id, clears it, or gives it a new one.
pub PidsAreValid-modify :
    (ps : List Proc) (next next' j : ℕ) (f : Proc → Proc)
    → PidsAreValid ps next
    → next ≤ next'
    → ((p : Proc) → Renamed next next' p.pid (f p).pid)
    → PidsAreValid (modify ps j f) next'
PidsAreValid-modify ps next next' j f v le re = record {
  started = omega (arith, v.started);
  below = λ i p e. below i p (Slot-of ps j f i p e);
  unique = λ i l p q e r. unique i l p q (Slot-of ps j f i p e) (Slot-of ps j f l q r);
}
  where
    below : (i : ℕ) (p : Proc) → Slot ps j f i p → p.pid < next'
    below i p (other e) = omega (arith, v.below i p e)
    below i p (changed q y e r) = ground (arith, re q, v.below i q e, v.started)

    unique :
        (i l : ℕ) (p q : Proc)
        → Slot ps j f i p
        → Slot ps j f l q
        → p.pid ≡ q.pid
        → p.pid ≢ 0
        → i ≡ l
    unique i l p q (other e) (other r) s z = v.unique i l p q e r s z
    unique i l p q (other e) (changed o y r h) s z =
        ground (arith, re o, v.below i p e, v.unique i l p o e r)
    unique i l p q (changed o y r h) (other e) s z =
        ground (arith, re o, v.below l q e, v.unique i l o q r e)
    unique i l p q (changed _ y _ _) (changed _ z _ _) s w = omega arith

-- allocproc gives out a slot that was UNUSED, with an id that no slot had, and keeps ids distinct;
-- it gives none exactly when no slot is UNUSED, and then changes nothing.
pub allocproc_lem :
    {k : Kernel}
    → k.held ≡ []
    → PidsAreValid k.procs k.nextpid
    → ((find_index is_unused k.procs ≡ none) × (allocproc k ≡ ret none k))
      ⊎ ((i : ℕ) × (p : Proc) × (k' : Kernel) × (allocproc k ≡ ret (some i) k')
          × (k'.held ≡ [])
          × (get_elem? k.procs i ≡ some p)
          × (p.state ≡ unused)
          × (get_elem? k'.procs i ≡ some (record p { state = used; pid = k.nextpid }))
          × PidsAreValid k'.procs k'.nextpid)
unfolding allocproc
allocproc_lem {k} h v = elim (Option-cases (find_index is_unused k.procs)) [
  | inl e ↦ inl (e, ground arith)
  | inr (i, e) ↦
      let (p, at, u) = find_index-some is_unused k.procs i e in
      let f = λ (p : Proc). record p { state = used; pid = k.nextpid } in
      inr (
        i,
        p,
        record k { procs = modify k.procs i f; nextpid = k.nextpid + 1 },
        ground arith,
        h,
        at,
        ground arith,
        ground (arith, get_elem?-modify_self k.procs i f),
        PidsAreValid-modify k.procs k.nextpid (k.nextpid + 1) i f v (omega arith)
            (λ q. inr (inr (omega arith, omega arith))),
      )
]

-- kill(0) marks the first slot whose id is 0, also one that is not in use, and returns 0; a process
-- that allocproc then puts in that slot starts as killed.
pub kill_zero-allocproc :
    (k : Kernel) (i : ℕ)
    → k.held ≡ []
    → find_index (λ (p : Proc). eq_int p.pid (pos 0)) k.procs ≡ some i
    → find_index is_unused k.procs ≡ some i
    → (k' k'' : Kernel) × (p : Proc) × (kill (pos 0) k ≡ ret (pos 0) k')
      × (allocproc k' ≡ ret (some i) k'')
      × (get_elem? k''.procs i ≡ some p)
      × (p.state ≡ used)
      × (p.pid ≡ k.nextpid)
      × (p.killed ≡ true)
unfolding allocproc kill
kill_zero-allocproc k i h e u =
    let (p, at, q) = find_index-some is_unused k.procs i u in
    (
      update_proc i kill_proc k,
      record k { procs = modify (modify k.procs i kill_proc) i f; nextpid = k.nextpid + 1 },
      f (kill_proc p),
      ground arith,
      ground (arith, find_index-modify is_unused k.procs i kill_proc (λ x. refl)),
      ground (
        arith,
        get_elem?-modify_self k.procs i kill_proc,
        get_elem?-modify_self (modify k.procs i kill_proc) i f,
      ),
      refl,
      refl,
      refl,
    )
  where
    f : Proc → Proc
    f p = record p { state = used; pid = k.nextpid }
