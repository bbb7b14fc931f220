-- ===== src/Tests/Fixture.antt =====
-- Small kernels to apply the theorems about proc.c to.
use os192_ass2_multi_thread.Base.{
  ℕ, ◌∷◌, get_elem?, refl, some, [], ◌≡◌, arith, suc, ◌<◌, ◌≢◌, zero,
}
use os192_ass2_multi_thread.Kernel.Spec.{Runs}
use os192_ass2_multi_thread.Mutex.Invariant.{TableIsValid, IsCoherent}
use os192_ass2_multi_thread.Kernel.Types.{
  Thread, Proc, Mutex, Kernel, close, boot, zero_thread, zero_proc, zero_mutex, t_sleeping, used,
  t_running, t_zombie, opened, zombie, on_thread, on_mutex,
}

abbrev pub page : ℕ
page = 0x80200000

-- A running thread, two that sleep and one that has exited.
abbrev pub runner : Thread
runner = record zero_thread { state = t_running; tid = 1; kstack = page }

abbrev pub waiter : Thread
waiter = record zero_thread { state = t_sleeping; tid = 2; chan = on_mutex 0 }

abbrev pub joiner : Thread
joiner = record zero_thread { state = t_sleeping; tid = 3; chan = on_thread 0 0 }

abbrev pub ended : Thread
ended = record zero_thread { state = t_zombie; tid = 4; kstack = page }

abbrev pub sample_proc : Proc
sample_proc = record zero_proc {
  state = used;
  pid = 1;
  ttable = runner ∷ joiner ∷ ended ∷ zero_thread ∷ [];
}

abbrev pub other_proc : Proc
other_proc = record zero_proc {
  state = used;
  pid = 2;
  parent = some 0;
  ttable = waiter ∷ zero_thread ∷ [];
}

abbrev pub dead_proc : Proc
dead_proc = record zero_proc {
  state = zombie;
  pid = 3;
  parent = some 0;
  ttable = ended ∷ zero_thread ∷ [];
}

abbrev pub open_mutex : Mutex
open_mutex = record zero_mutex { mid = 1; state = opened; pid_holder = 1 }

abbrev pub held_mutex : Mutex
held_mutex = record open_mutex { lock = 1; state = close; holding = some (0, 0) }

-- A kernel in which thread 0 of process 0 runs, with one mutex that is open.
abbrev pub sample : Kernel
sample = record (boot (page ∷ [])) {
  procs = sample_proc ∷ other_proc ∷ zero_proc ∷ [];
  mutexes = open_mutex ∷ zero_mutex ∷ [];
  nextpid = 3;
  nexttid = 5;
  nextmid = 2;
  cur = some (0, 0);
}

-- The same when the running thread holds the mutex, and when it is another thread that runs.
abbrev pub owned : Kernel
owned = record sample { mutexes = held_mutex ∷ zero_mutex ∷ [] }

pub sample-Runs : Runs sample (0, 0) sample_proc runner
sample-Runs = record { now = refl; proc = refl; thread = refl; free = refl }

pub owned-Runs : Runs owned (0, 0) sample_proc runner
owned-Runs = record { now = refl; proc = refl; thread = refl; free = refl }

pub sample_table : TableIsValid sample.mutexes sample.nextmid
sample_table = record { started = omega arith; coherent = coherent; below = below; unique = unique }
  where
    coherent : (i : ℕ) (m : Mutex) → get_elem? sample.mutexes i ≡ some m → IsCoherent m
    coherent zero m h = ground arith
    coherent (suc zero) m h = ground arith
    coherent (suc (suc i)) m h = absurd (ground arith)

    below : (i : ℕ) (m : Mutex) → get_elem? sample.mutexes i ≡ some m → m.mid < 2
    below zero m h = ground arith
    below (suc zero) m h = ground arith
    below (suc (suc i)) m h = absurd (ground arith)

    unique :
        (i j : ℕ) (m n : Mutex)
        → get_elem? sample.mutexes i ≡ some m
        → get_elem? sample.mutexes j ≡ some n
        → m.mid ≡ n.mid
        → m.mid ≢ 0
        → i ≡ j
    unique zero zero m n g h e z = refl
    unique (suc zero) (suc zero) m n g h e z = refl
    unique zero (suc zero) m n g h e z = absurd (ground arith)
    unique (suc zero) zero m n g h e z = absurd (ground arith)
    unique (suc (suc i)) j m n g h e z = absurd (ground arith)
    unique zero (suc (suc j)) m n g h e z = absurd (ground arith)
    unique (suc zero) (suc (suc j)) m n g h e z = absurd (ground arith)
