-- ===== src/Kernel/Monad.antt =====
-- Effects of kernel code: it returns, gives up the CPU in `sched`, or panics.
use os192_ass2_multi_thread.Base.{
  ℕ, ◌≡◌, refl, Option, none, some, arith, Bool, true, false, if◌then◌else◌,
}
use os192_ass2_multi_thread.Kernel.Types.{Kernel, Thread, Proc, Mutex, ThreadPtr, thread_at}
use os192_ass2_multi_thread.Base

-- The arguments of the calls of `panic` in the modelled code; `null` is a fault of the model: a
-- pointer that does not point into its table.
pub data Panic : Type 0 where
  acquire_panic release_panic sched_ptable sched_locks sched_running zombie_exit : Panic
  exit_thread_exit init_exiting join_unused kfree_panic filedup_panic fileclose_panic null : Panic

pub data Result (A : Type 0) : Type 0 where
  ret : A → Kernel → Result A
  switched : Kernel → Result A
  panicked : Panic → Result A

abbrev pub M : Type 0 → Type 0
M A = Kernel → Result A

abbrev pub pure : {A : Type 0} → A → M A
pure a k = ret a k

-- A thread that gave up the CPU goes on later, in another state: what follows `sched` in a function
-- is a definition of its own, whose name ends in `_resume`.
infixl 5 ◌>>=◌ ◌>>◌
abbrev pub ◌>>=◌ : {A B : Type 0} → M A → (A → M B) → M B
◌>>=◌ m f k = elim (m k) [ ret a k' ↦ f a k' | switched k' ↦ switched k' | panicked e ↦ panicked e ]

abbrev pub ◌>>◌ : {B : Type 0} → M (Unit {0}) → M B → M B
m >> n = m >>= λ _. n

abbrev pub panic : {A : Type 0} → Panic → M A
panic e k = panicked e

abbrev pub get : M Kernel
get k = ret k k

abbrev pub modify_kernel : (Kernel → Kernel) → M (Unit {0})
modify_kernel f k = ret tt (f k)

-- A pointer that must not be null.
abbrev pub deref : {A : Type 0} → Option A → M A
deref none k = panicked null
deref (some a) k = ret a k

-- `mythread()` and `myproc()` of the code between two switches, as table indices.
abbrev pub me : M ThreadPtr
me k = deref k.cur k

abbrev pub mythread : M Thread
mythread = do c ← me; k ← get; deref (thread_at k.procs c)

abbrev pub myproc : M Proc
myproc = do c ← me; k ← get; deref (Base.get_elem? k.procs c.0)

abbrev pub mutex_at : ℕ → M Mutex
mutex_at i = do k ← get; deref (Base.get_elem? k.mutexes i)
