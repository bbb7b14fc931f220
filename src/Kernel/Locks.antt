-- ===== src/Kernel/Locks.antt =====
-- acquire and release of spinlock.c, as the CPU that calls them sees them: the locks it holds.
use os192_ass2_multi_thread.Base.{Bool, true, false, ◌||◌, List, [], ◌∷◌, if◌then◌else◌}
use os192_ass2_multi_thread.Kernel.Types.{Lock, lock_eq}
use os192_ass2_multi_thread.Kernel.Monad.{M, ret, panicked, acquire_panic, release_panic}

-- `holding(lk)`
abbrev pub holding : Lock → List Lock → Bool
holding l [] = false
holding l (h ∷ hs) = lock_eq h l || holding l hs

abbrev pub without : Lock → List Lock → List Lock
without l [] = []
without l (h ∷ hs) = if lock_eq h l then hs else h ∷ without l hs

-- The spinning is over when `acquire` returns: what other CPUs did before is in the state.
abbrev pub acquire : Lock → M (Unit {0})
acquire l k = elim (holding l k.held) [
  | true ↦ panicked acquire_panic
  | false ↦ ret tt (record k { held = l ∷ k.held })
]

abbrev pub release : Lock → M (Unit {0})
release l k = elim (holding l k.held) [
  | true ↦ ret tt (record k { held = without l k.held })
  | false ↦ panicked release_panic
]
