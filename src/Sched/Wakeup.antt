-- ===== src/Sched/Wakeup.antt =====
-- proc.c: what sleep, wakeup, kill and the scheduler do to the process table and the locks.
use mathlib.Core.Option
use os192_ass2_multi_thread.Kernel.Tables.{
  thread_at-modify_self, thread_at-modify_proc, thread_at-modify_ne,
}
use os192_ass2_multi_thread.Kernel.Monad.{ret, panicked, sched_locks, switched}
use os192_ass2_multi_thread.Kernel.Types.{
  Kernel, Chan, Thread, Lock, Proc, thread_at, t_runnable, mutex_lock, ptable_lock, t_sleeping,
  t_running, update_proc, chan_eq, ThreadPtr, update_thread, other_lock, on_thread, on_mutex,
  mtable_lock, on_addr, nowhere, used, in_state, modify_thread,
}
use os192_ass2_multi_thread.Base.{
  ℕ, true, List, ℤ, get_elem?, ◌≢◌, ◌≡◌, map, [], some, find_index, ◌∷◌, none, eq_int, minus_one,
  arith, ◌⊎◌, pos, refl, Option-cases, inl, inr, find_index-some, ==_refl, suc, zero, if◌then◌else◌,
  Bool-cases, modify, ◌∙◌, get_elem?-modify_self,
}
use os192_ass2_multi_thread.Sched.{
  wake_thread, wake_proc, wakeup, sleep, dispatch, kill, Chan, Kernel, ret, wakes, kill_proc,
  wake_sleeping,
}

get_elem?-map {ℓ κ} :
    {A : Type ℓ} {B : Type κ} (f : A → B) (xs : List A) (i : ℕ)
    → get_elem? (map f xs) i ≡ Option.map f (get_elem? xs i)
get_elem?-map f [] i = refl
get_elem?-map f (x ∷ xs) zero = refl
get_elem?-map f (x ∷ xs) (suc i) = get_elem?-map f xs i

pub thread_at-wake :
    (c : Chan) (ps : List Proc) (p i : ℕ)
    → thread_at (map (wake_proc c) ps) (p, i) ≡ Option.map (wake_thread c) (thread_at ps (p, i))
unfolding wake_proc
thread_at-wake c [] p i = refl
thread_at-wake c (x ∷ ps) zero i = get_elem?-map (wake_thread c) x.ttable i
thread_at-wake c (x ∷ ps) (suc p) i = thread_at-wake c ps p i

-- wakeup returns with its lock released; a thread that slept on the channel is runnable, and any
-- other thread is as it was.
pub wakeup_lem :
    (k : Kernel) (c : Chan) (p i : ℕ) (t : Thread)
    → k.held ≡ []
    → thread_at k.procs (p, i) ≡ some t
    → (k' : Kernel) × (u : Thread) × (wakeup c k ≡ ret tt k')
      × (k'.held ≡ [])
      × (thread_at k'.procs (p, i) ≡ some u)
      × (u ≡ (if wakes c t then record t { state = t_runnable } else t))
unfolding wakeup wake_thread
wakeup_lem k c p i t h e = (
  record k { procs = map (wake_proc c) k.procs },
  wake_thread c t,
  ground arith,
  h,
  ground (arith, thread_at-wake c k.procs p i),
  refl,
)

chan_eq_refl : (c : Chan) → chan_eq c c ≡ true
chan_eq_refl nowhere = refl
chan_eq_refl (on_thread p i) = ground (arith, ==_refl p, ==_refl i)
chan_eq_refl (on_mutex m) = ==_refl m
chan_eq_refl (on_addr a) = ==_refl a

abbrev sleeper : Chan → Thread → Thread
sleeper chan t = record t { chan = chan; state = t_sleeping }

abbrev asleep : Chan → ThreadPtr → Kernel → Kernel
asleep chan c k = update_thread c (sleeper chan) (record k { held = ptable_lock ∷ [] })

sleep-switched :
    (k : Kernel) (chan : Chan) (lk : Lock) (p i : ℕ) (t : Thread)
    → k.cur ≡ some (p, i)
    → k.held ≡ lk ∷ []
    → thread_at k.procs (p, i) ≡ some t
    → sleep {A = ℤ} chan lk k ≡ switched (asleep chan (p, i) k)
unfolding sleep
sleep-switched k chan ptable_lock p i t e h at =
    ground (arith, thread_at-modify_self k.procs p i (sleeper chan))
sleep-switched k chan mtable_lock p i t e h at =
    ground (arith, thread_at-modify_self k.procs p i (sleeper chan))
sleep-switched k chan (mutex_lock n) p i t e h at =
    ground (arith, ==_refl n, thread_at-modify_self k.procs p i (sleeper chan))
sleep-switched k chan (other_lock n) p i t e h at =
    ground (arith, ==_refl n, thread_at-modify_self k.procs p i (sleeper chan))

-- A thread that goes to sleep with one lock held gives up the CPU with the process table's lock
-- alone, its own lock released, asleep on the channel; once that lock is free, a wakeup on the channel
-- makes it runnable.
pub sleep-wakeup :
    (k : Kernel) (chan : Chan) (lk : Lock) (p i : ℕ) (t : Thread)
    → k.cur ≡ some (p, i)
    → k.held ≡ lk ∷ []
    → thread_at k.procs (p, i) ≡ some t
    → (k' : Kernel) × (sleep {A = ℤ} chan lk k ≡ switched k')
      × (k'.held ≡ ptable_lock ∷ [])
      × (thread_at k'.procs (p, i) ≡ some (record t { chan = chan; state = t_sleeping }))
      × ((k'' : Kernel) × (wakeup chan (record k' { held = [] }) ≡ ret tt k'')
          × (thread_at k''.procs (p, i) ≡ some (record t { chan = chan; state = t_runnable })))
unfolding wakeup wake_thread
sleep-wakeup k chan lk p i t e h at = (
  asleep chan (p, i) k,
  sleep-switched k chan lk p i t e h at,
  refl,
  slept,
  (
    record (asleep chan (p, i) k) {
      held = [];
      procs = map (wake_proc chan) (asleep chan (p, i) k).procs;
    },
    refl,
    ground (arith, chan_eq_refl chan, slept, thread_at-wake chan (asleep chan (p, i) k).procs p i),
  ),
)
  where
    slept : thread_at (asleep chan (p, i) k).procs (p, i) ≡ some (sleeper chan t)
    slept = ground (arith, thread_at-modify_self k.procs p i (sleeper chan))

-- A thread that holds a second spinlock must not go to sleep: sched panics.
pub sleep_two_locks :
    (k : Kernel) (chan : Chan) (i j : ℕ) (p s : ℕ) (t : Thread)
    → i ≢ j
    → k.cur ≡ some (p, s)
    → thread_at k.procs (p, s) ≡ some t
    → k.held ≡ mutex_lock i ∷ mutex_lock j ∷ []
    → sleep {A = ℤ} chan (mutex_lock i) k ≡ panicked sched_locks
unfolding sleep
sleep_two_locks k chan i j p s t ne e at h =
    ground
      (arith, thread_at-modify_self k.procs p s (λ t. record t { chan = chan; state = t_sleeping }))

abbrev pub run_now : Thread → Thread
run_now u = record u { state = t_running }

abbrev dispatched : ThreadPtr → Kernel → Kernel
dispatched c k =
    update_proc c.0 (λ p. record p { state = used })
      (update_thread c run_now (record k { cur = some c; held = ptable_lock ∷ [] }))

-- The scheduler switches to a thread exactly when it is runnable. That thread is then the one that
-- the CPU runs, with the process table locked, and any other thread is as it was.
pub dispatch_lem :
    (k : Kernel) (p i q j : ℕ) (t : Thread)
    → thread_at k.procs (p, i) ≡ some t
    → (p ≢ q) ⊎ (i ≢ j)
    → ((t.state ≢ t_runnable) × (dispatch (p, i) k ≡ none))
      ⊎ ((t.state ≡ t_runnable)
          × ((k' : Kernel) × (dispatch (p, i) k ≡ some k')
              × (k'.cur ≡ some (p, i))
              × (k'.held ≡ ptable_lock ∷ [])
              × (thread_at k'.procs (p, i) ≡ some (run_now t))
              × (thread_at k'.procs (q, j) ≡ thread_at k.procs (q, j))))
unfolding dispatch
dispatch_lem k p i q j t e ne = elim (Bool-cases (in_state t_runnable t)) [
  | inr n ↦ inl (ground arith, ground arith)
  | inl y ↦ inr (
    ground arith,
    (
      dispatched (p, i) k,
      ground arith,
      refl,
      refl,
      thread_at-modify_proc (modify k.procs p (modify_thread run_now i)) p
            (λ x. record x { state = used }) (p, i) (λ x. refl)
          ∙ ground (arith, thread_at-modify_self k.procs p i run_now),
      thread_at-modify_proc (modify k.procs p (modify_thread run_now i)) p
            (λ x. record x { state = used }) (q, j) (λ x. refl)
          ∙ thread_at-modify_ne k.procs p i q j run_now ne,
    ),
  )
]

-- Marking a process leaves none of its threads asleep and starts none that was not.
kill_threads :
    (ts : List Thread) (j : ℕ) (t : Thread)
    → get_elem? ts j ≡ some t
    → (u : Thread) × (get_elem? (map wake_sleeping ts) j ≡ some u)
      × (((t.state ≡ t_sleeping) × (u ≡ record t { state = t_runnable }))
          ⊎ ((t.state ≢ t_sleeping) × (u ≡ t)))
kill_threads [] j t h = absurd (ground arith)
kill_threads (x ∷ ts) zero t h = elim (Bool-cases (in_state t_sleeping x)) [
  | inl e ↦ (wake_sleeping x, refl, inl (ground arith))
  | inr e ↦ (wake_sleeping x, refl, inr (ground arith))
]
kill_threads (x ∷ ts) (suc j) t h = kill_threads ts j t h

-- kill: without such a process it returns -1 and changes nothing; else the first process with the
-- id is marked as killed, each of its threads that sleeps becomes runnable, and any other thread of it is
-- as it was.
pub kill_lem :
    (k : Kernel) (pid : ℤ)
    → k.held ≡ []
    → ((find_index (λ (p : Proc). eq_int p.pid pid) k.procs ≡ none)
        × (kill pid k ≡ ret minus_one k))
      ⊎ ((i : ℕ) × (p q : Proc) × (k' : Kernel) × (get_elem? k.procs i ≡ some p)
          × (eq_int p.pid pid ≡ true)
          × (kill pid k ≡ ret (pos 0) k')
          × (k'.held ≡ [])
          × (get_elem? k'.procs i ≡ some q)
          × (q.killed ≡ true)
          × ((j : ℕ) (t : Thread)
              → get_elem? p.ttable j ≡ some t
              → (u : Thread) × (get_elem? q.ttable j ≡ some u)
                × (((t.state ≡ t_sleeping) × (u ≡ record t { state = t_runnable }))
                    ⊎ ((t.state ≢ t_sleeping) × (u ≡ t)))))
unfolding kill
kill_lem k pid h = elim (Option-cases (find_index (λ (p : Proc). eq_int p.pid pid) k.procs)) [
  | inl e ↦ inl (e, ground arith)
  | inr (i, e) ↦
      let (p, at, q) = find_index-some (λ (p : Proc). eq_int p.pid pid) k.procs i e in
      inr (
        i,
        p,
        kill_proc p,
        update_proc i kill_proc k,
        at,
        q,
        ground arith,
        h,
        ground (arith, get_elem?-modify_self k.procs i kill_proc),
        refl,
        λ j t g. kill_threads p.ttable j t g,
      )
]
