-- ===== src/Tests/Locks.antt =====
-- Spinlocks and sleep locks.
use os192_ass2_multi_thread.Base.{◌≡◌, ℕ, true, refl}
use os192_ass2_multi_thread.Spinlock.Exclusion.{
  Reach, later, start, System, enter, at, one_holder, win, won, outside, spinning,
}
use os192_ass2_multi_thread.Spinlock.{holding, xchg, initlock}

-- CPU 3 has entered acquire and won the lock.
abbrev third : ℕ
third = 3

abbrev spun : System
spun = record { lk = initlock; phase = at (λ _. outside) 3 spinning }

abbrev taken : System
taken = record { lk = (xchg initlock).1; phase = at spun.phase 3 won }

taken-Reach : Reach taken
unfolding xchg holding
taken-Reach = later (later start (enter 3 refl refl)) (win 3 refl refl)

one_holder_example : (third ≡ third) × (taken.lk.locked ≡ true)
one_holder_example = one_holder 3 3 taken-Reach refl refl
