-- ===== src/Kernel/Spec.antt =====
-- How statements about kernel calls are made: what holds when a call returns or gives up the CPU.
use os192_ass2_multi_thread.Base.{◌≡◌, Option, none, some, List, [], arith}
use os192_ass2_multi_thread.Base
use os192_ass2_multi_thread.Kernel.Types.{Kernel, Thread, Proc, ThreadPtr, thread_at}
use os192_ass2_multi_thread.Kernel.Monad.{Result, ret, switched, panicked}

-- `R` holds of what the call returns, `S` of the state in which it gives up the CPU, and it does
-- not panic.
abbrev pub Post : {A : Type 0} → (A → Kernel → Type 0) → (Kernel → Type 0) → Result A → Type 0
Post R S (ret a k) = R a k
Post R S (switched k) = S k
Post R S (panicked e) = ⊥

-- The CPU runs thread `t` of process `p`, in the slots `c`, and holds no spinlock.
pub record Runs (k : Kernel) (c : ThreadPtr) (p : Proc) (t : Thread) : Type 0 where
  pub now : k.cur ≡ some c
  pub proc : Base.get_elem? k.procs c.0 ≡ some p
  pub thread : Base.get_elem? p.ttable c.1 ≡ some t
  pub free : k.held ≡ []

pub Runs-thread_at :
    {k : Kernel} {c : ThreadPtr} {p : Proc} {t : Thread}
    → Runs k c p t
    → thread_at k.procs c ≡ some t
Runs-thread_at r = ground arith
