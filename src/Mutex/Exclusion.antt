-- ===== src/Mutex/Exclusion.antt =====
-- proc.c, who owns a mutex, over any sequence of calls.
use os192_ass2_multi_thread.Mutex.OwnerLock.{Owns-lock, Owns-unlock, Owns-loop}
use os192_ass2_multi_thread.Mutex.OwnerSection.{Owns-open, Owns-clear, Owns-unlocking}
use os192_ass2_multi_thread.Mutex.Owner.{Owns-alloc, Owns-dealloc}
use os192_ass2_multi_thread.Base.{ℕ, arith}
use os192_ass2_multi_thread.Kernel.Types.{Kernel, ThreadPtr}
use os192_ass2_multi_thread.Mutex.Steps.{
  alloc, dealloc, lock, unlock, here, next, by_other, by_owner, elsewhere, Owns, Step, locks,
  unlocks, opens, clears, Steps, by_other, next, dealloc, lock, unlock, by_owner, elsewhere,
}

Step-Owns :
    {k k' : Kernel} {c : ThreadPtr} {tid : ℕ} (i : ℕ)
    → Step c tid k k'
    → Owns k i c tid
    → Owns k' i c tid
Step-Owns {k} {k'} {c} {tid} i (by_other alloc d p t r ne l) o = Owns-alloc k k' i tid c d p t r o l
Step-Owns {k} {k'} {c} {tid} i (by_other (dealloc id) d p t r ne l) o =
    Owns-dealloc k k' i tid c d p t id r o l
Step-Owns {k} {k'} {c} {tid} i (by_other (lock id) d p t r ne l) o =
    Owns-lock k k' i tid c d p t id r o l
Step-Owns {k} {k'} {c} {tid} i (by_other (unlock id) d p t r ne l) o =
    Owns-unlock k k' i tid c d p t id r ne o l
Step-Owns {k} {k'} {c} {tid} i (by_owner alloc p t r u l) o = Owns-alloc k k' i tid c c p t r o l
Step-Owns {k} {k'} {c} {tid} i (by_owner (dealloc id) p t r u l) o =
    Owns-dealloc k k' i tid c c p t id r o l
Step-Owns {k} {k'} {c} {tid} i (by_owner (lock id) p t r u l) o =
    Owns-lock k k' i tid c c p t id r o l
Step-Owns {k} {k'} {c} {tid} i (by_owner (unlock id) p t r u l) o = absurd (ground arith)
Step-Owns {k} {k'} {c} {tid} i (locks j d t e et h l) o = Owns-loop k k' i j tid c d t e et h o l
Step-Owns {k} {k'} {c} {tid} i (unlocks j d p t r ne l) o =
    Owns-unlocking k k' i j tid c d p t o r ne l
Step-Owns {k} {k'} {c} {tid} i (opens j d p t m r at u l) o =
    Owns-open k k' i j tid c d p t o m r at u l
Step-Owns {k} {k'} {c} {tid} i (clears j d p t m r at n l) o =
    Owns-clear k k' i j tid c d p t o m r at n l
Step-Owns {k} {k'} {c} {tid} i (elsewhere t m at q) o = record {
  entry = o.entry;
  thread = t;
  at_entry = ground arith;
  closed = o.closed;
  locked = o.locked;
  holder = o.holder;
  at_thread = at;
  same_id = q;
}

-- While the owner of a mutex makes no unlock call, the mutex stays closed and his, whatever calls, parts of calls
-- and wake-ups of other threads come in between.
pub Steps-Owns :
    {c : ThreadPtr} {tid : ℕ} {k : Kernel} (i : ℕ) {k' : Kernel}
    → Owns k i c tid
    → Steps c tid k k'
    → Owns k' i c tid
Steps-Owns i o here = o
Steps-Owns i o (next ss s) = Step-Owns i s (Steps-Owns i o ss)
