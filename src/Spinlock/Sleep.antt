-- ===== src/Spinlock/Sleep.antt =====
-- sleeplock.c: the long-term lock, over sleep and wakeup of proc.c. `address` names the lock: its
-- channel and its spinlock.
use os192_ass2_multi_thread.Kernel.Tables.{thread_at-modify_self}
use os192_ass2_multi_thread.Kernel.Spec.{Runs, Runs-thread_at}
use os192_ass2_multi_thread.Kernel.Types.{
  Kernel, other_lock, on_addr, Proc, ThreadPtr, Thread, ptable_lock, thread_at, t_sleeping,
  update_thread,
}
use os192_ass2_multi_thread.Base.{
  ℕ, false, Bool, true, ◌&&◌, ◌==◌, ◌≡◌, [], map, ◌∷◌, arith, some, ==_refl, refl,
}
use os192_ass2_multi_thread.Kernel.Monad.{M, ◌>>=◌, ◌>>◌, pure, myproc, switched, ret}
use os192_ass2_multi_thread.Kernel.Locks.{acquire, release}
use os192_ass2_multi_thread.Sched.{sleep, wakeup, wake_proc}

-- `struct sleeplock`, apart from the spinlock in it.
pub record Sleeplock : Type 0 where
  pub locked : Bool
  pub pid : ℕ

abbrev pub initsleeplock : Sleeplock
initsleeplock = record { locked = false; pid = 0 }

-- The loop of acquiresleep at its head, the spinlock held: the lock is taken, or the thread sleeps.
unfoldable pub acquiresleep_loop : ℕ → Sleeplock → M Sleeplock
unfolding sleep
acquiresleep_loop address lk = elim lk.locked [
  | true ↦ sleep (on_addr address) (other_lock address)
  | false ↦ do
    p ← myproc
    release (other_lock address)
    pure (record { locked = true; pid = p.pid })
]

unfoldable pub acquiresleep : ℕ → Sleeplock → M Sleeplock
unfolding acquiresleep_loop
acquiresleep address lk = do acquire (other_lock address); acquiresleep_loop address lk

unfoldable pub releasesleep : ℕ → Sleeplock → M Sleeplock
unfolding wakeup
releasesleep address lk = do
  acquire (other_lock address)
  wakeup (on_addr address)
  release (other_lock address)
  pure (record { locked = false; pid = 0 })

unfoldable pub holdingsleep : ℕ → Sleeplock → M Bool
holdingsleep address lk = do
  acquire (other_lock address)
  p ← myproc
  release (other_lock address)
  pure (lk.locked && lk.pid == p.pid)

-- acquiresleep on a free lock takes it for the process that calls: holdingsleep is then true for it, and releasesleep frees
-- it again; each call returns with no spinlock held.
pub acquire-release :
    {k : Kernel} {c : ThreadPtr} {p : Proc} {t : Thread} (address : ℕ) (lk : Sleeplock)
    → Runs k c p t
    → lk.locked ≡ false
    → (l : Sleeplock) × (k' : Kernel) × (acquiresleep address lk k ≡ ret l k)
      × (l.locked ≡ true)
      × (holdingsleep address l k ≡ ret true k)
      × (releasesleep address l k ≡ ret initsleeplock k')
      × (k'.held ≡ [])
unfolding acquiresleep releasesleep holdingsleep
acquire-release {k} {c} {p} address lk r f = (
  record { locked = true; pid = p.pid },
  record k { procs = map (wake_proc (on_addr address)) k.procs },
  ground (arith, ==_refl address),
  refl,
  ground (arith, ==_refl address, ==_refl p.pid),
  ground (arith, ==_refl address),
  r.free,
)

-- acquiresleep on a lock that is held puts the thread to sleep on it, with the process table's lock alone held; the lock does
-- not change hands.
pub acquiresleep_held :
    {k : Kernel} {p j : ℕ} {pr : Proc} {t : Thread} (address : ℕ) (lk : Sleeplock)
    → Runs k (p, j) pr t
    → lk.locked ≡ true
    → (k' : Kernel) × (acquiresleep address lk k ≡ switched k')
      × (k'.held ≡ ptable_lock ∷ [])
      × (thread_at k'.procs (p, j) ≡ some (record t { chan = on_addr address; state = t_sleeping }))
unfolding acquiresleep
acquiresleep_held {k} {p} {j} {pr} {t} address lk r f =
    let g = λ (t : Thread). record t { chan = on_addr address; state = t_sleeping } in
    (
      update_thread (p, j) g (record k { held = ptable_lock ∷ [] }),
      ground (arith, ==_refl address, Runs-thread_at r, thread_at-modify_self k.procs p j g),
      refl,
      ground (arith, Runs-thread_at r, thread_at-modify_self k.procs p j g),
    )
