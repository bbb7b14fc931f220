-- ===== src/Spinlock/Exclusion.antt =====
-- spinlock.c: acquire and release on several CPUs, one access to the lock at a time.
use os192_ass2_multi_thread.Base.{
  ℕ, Bool, ◌≡◌, arith, if◌then◌else◌, ◌==◌, true, false, ◌↔◌, some, none, refl,
}
use os192_ass2_multi_thread.Spinlock.{Spinlock, initlock, holding, xchg}

-- Where a CPU stands: outside; in the loop of acquire; behind it, its own number not yet stored;
-- between acquire and release; in release, the number cleared.
pub data Phase : Type 0 where
  outside spinning won inside leaving : Phase

abbrev pub owns : Phase → Bool
owns outside = false
owns spinning = false
owns _ = true

pub record System : Type 0 where
  pub lk : Spinlock
  pub phase : ℕ → Phase

abbrev pub at : (ℕ → Phase) → ℕ → Phase → ℕ → Phase
at f i p j = if i == j then p else f j

-- One access of one CPU. A panic of acquire or release is no step.
pub data Step (s : System) : System → Type 0 where
  enter :
      (i : ℕ)
      → s.phase i ≡ outside
      → holding s.lk i ≡ false
      → Step s (record s { phase = at s.phase i spinning })
  spin :
      (i : ℕ)
      → s.phase i ≡ spinning
      → (xchg s.lk).0 ≡ true
      → Step s (record s { lk = (xchg s.lk).1 })
  win :
      (i : ℕ)
      → s.phase i ≡ spinning
      → (xchg s.lk).0 ≡ false
      → Step s (record { lk = (xchg s.lk).1; phase = at s.phase i won })
  note :
      (i : ℕ)
      → s.phase i ≡ won
      → Step s (record { lk = record (s.lk) { cpu = some i }; phase = at s.phase i inside })
  clear :
      (i : ℕ)
      → s.phase i ≡ inside
      → holding s.lk i ≡ true
      → Step s (record { lk = record (s.lk) { cpu = none }; phase = at s.phase i leaving })
  free :
      (i : ℕ)
      → s.phase i ≡ leaving
      → Step s (record { lk = record (s.lk) { locked = false }; phase = at s.phase i outside })

pub data Reach : System → Type 0 where
  start : Reach (record { lk = initlock; phase = λ _. outside })
  later : {s t : System} → Reach s → Step s t → Reach t

record Inv (s : System) : Type 0 where
  single : (i j : ℕ) → owns (s.phase i) ≡ true → owns (s.phase j) ≡ true → i ≡ j
  taken : (i : ℕ) → owns (s.phase i) ≡ true → s.lk.locked ≡ true
  noted : (i : ℕ) → s.phase i ≡ inside → s.lk.cpu ≡ some i
  named : (i : ℕ) → s.lk.cpu ≡ some i → s.phase i ≡ inside

Step-Inv : {s t : System} → Step s t → Inv s → Inv t
unfolding xchg holding
Step-Inv (enter i o h) v = record {
  single = λ j k. ground (arith, v.single j k);
  taken = λ j. ground (arith, v.taken j);
  noted = λ j. ground (arith, v.noted j);
  named = λ j. ground (arith, v.named j);
}
Step-Inv (spin i o h) v = record {
  single = v.single;
  taken = λ j e. refl;
  noted = v.noted;
  named = v.named;
}
Step-Inv (win i o h) v = record {
  single = λ j k. ground (arith, v.taken j, v.taken k, v.single j k);
  taken = λ j e. refl;
  noted = λ j. ground (arith, v.noted j);
  named = λ j. ground (arith, v.named j);
}
Step-Inv (note i o) v = record {
  single = λ j k. ground (arith, v.single j k);
  taken = λ j. ground (arith, v.taken j, v.taken i);
  noted = λ j. ground (arith, v.noted j, v.single i j);
  named = λ j. ground (arith, v.named j);
}
Step-Inv (clear i o h) v = record {
  single = λ j k. ground (arith, v.single j k);
  taken = λ j. ground (arith, v.taken j, v.taken i);
  noted = λ j. ground (arith, v.noted j, v.single i j);
  named = λ j. ground (arith, v.named j);
}
Step-Inv (free i o) v = record {
  single = λ j k. ground (arith, v.single j k);
  taken = λ j. ground (arith, v.taken j, v.single i j);
  noted = λ j. ground (arith, v.noted j, v.single i j);
  named = λ j. ground (arith, v.named j);
}

Reach-Inv : {s : System} → Reach s → Inv s
Reach-Inv start = record {
  single = λ i j h. cc;
  taken = λ i h. cc;
  noted = λ i h. cc;
  named = λ i h. cc;
}
Reach-Inv (later r st) = Step-Inv st (Reach-Inv r)

-- At most one CPU is between the exchange that takes the lock and the store that frees it, and then
-- the lock word is set.
pub one_holder :
    {s : System} (i j : ℕ)
    → Reach s
    → owns (s.phase i) ≡ true
    → owns (s.phase j) ≡ true
    → (i ≡ j) × (s.lk.locked ≡ true)
one_holder i j r hi hj = ((Reach-Inv r).single i j hi hj, (Reach-Inv r).taken i hi)

-- holding is exact at every moment: it is true on a CPU exactly when that CPU is between acquire and
-- release. So acquire does not panic on a CPU that is outside, nor release on the one inside.
pub holding_exact : {s : System} (i : ℕ) → Reach s → (holding s.lk i ≡ true) ↔ (s.phase i ≡ inside)
unfolding holding
holding_exact {s} i r = (
  λ h. ground (arith, (Reach-Inv r).named i),
  λ h. ground (arith, (Reach-Inv r).noted i, (Reach-Inv r).taken i),
)
