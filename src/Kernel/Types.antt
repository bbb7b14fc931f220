-- ===== src/Kernel/Types.antt =====
-- proc.h, kthread.h, param.h: threads, processes, mutexes and the tables of proc.c.
use os192_ass2_multi_thread.Base.{
  ℕ, Bool, true, false, ◌&&◌, Option, none, some, List, [], ◌==◌, get_elem?, modify, replicate,
}

abbrev pub nproc : ℕ
nproc = 64

abbrev pub nthread : ℕ
nthread = 16

abbrev pub nofile : ℕ
nofile = 16

abbrev pub max_mutexes : ℕ
max_mutexes = 64

abbrev pub kstacksize : ℕ
kstacksize = 4096

-- `enum threadstate`
pub data ThreadState : Type 0 where
  t_unused t_embryo t_sleeping t_runnable t_running t_zombie : ThreadState

-- `enum procstate`
pub data ProcState : Type 0 where
  unused used zombie : ProcState

-- `enum mutexState`: UNINITIALIZED, OPEN, CLOSE.
pub data MutexState : Type 0 where
  uninitialized opened close : MutexState

-- A `struct thread *` into the tables: the process's index and the slot in its `ttable`.
abbrev pub ThreadPtr : Type 0
ThreadPtr = ℕ × ℕ

-- What a `void *chan` points at: nothing, a thread, a mutex, or another kernel object.
pub data Chan : Type 0 where
  nowhere : Chan
  on_thread : ℕ → ℕ → Chan
  on_mutex : ℕ → Chan
  on_addr : ℕ → Chan

abbrev pub chan_eq : Chan → Chan → Bool
chan_eq nowhere nowhere = true
chan_eq (on_thread p i) (on_thread q j) = p == q && i == j
chan_eq (on_mutex m) (on_mutex n) = m == n
chan_eq (on_addr a) (on_addr b) = a == b
chan_eq _ _ = false

-- The saved user registers that the modelled code writes, and the others together.
pub record TrapFrame : Type 0 where
  pub eax : ℕ
  pub esp : ℕ
  pub eip : ℕ
  pub other : List ℕ

-- `struct thread`. `context` always points at the same place of the kernel stack.
pub record Thread : Type 0 where
  pub kstack : ℕ
  pub state : ThreadState
  pub tf : TrapFrame
  pub tid : ℕ
  pub parent : Option ℕ
  pub chan : Chan
  pub should_die : Bool
  pub next_thread : Option ThreadPtr
  pub mutex_flag : Bool
  pub name : List ℕ

-- `struct proc`
pub record Proc : Type 0 where
  pub sz : ℕ
  pub pgdir : ℕ
  pub state : ProcState
  pub pid : ℕ
  pub parent : Option ℕ
  pub killed : Bool
  pub ofile : List (Option ℕ)
  pub cwd : Option ℕ
  pub ttable : List Thread
  pub name : List ℕ
  pub num_of_thread : ℕ

-- `struct mutex`; its spinlock is `mutex_lock i` of `Lock`.
pub record Mutex : Type 0 where
  pub mid : ℕ
  pub lock : ℕ
  pub num_of_waiting : ℕ
  pub state : MutexState
  pub holding : Option ThreadPtr
  pub pid_holder : ℕ

-- The spinlocks that proc.c takes.
pub data Lock : Type 0 where
  ptable_lock : Lock
  mtable_lock : Lock
  mutex_lock : ℕ → Lock
  other_lock : ℕ → Lock

abbrev pub lock_eq : Lock → Lock → Bool
lock_eq ptable_lock ptable_lock = true
lock_eq mtable_lock mtable_lock = true
lock_eq (mutex_lock i) (mutex_lock j) = i == j
lock_eq (other_lock i) (other_lock j) = i == j
lock_eq _ _ = false

-- The kernel as one CPU sees it between two switches. `cur` is the process and thread that it runs,
-- `held` the spinlocks that it holds, so that `ncli` is their number. `null_tid` is the word that a
-- read of `tid` through a null thread pointer yields: it lies in the user's memory. `kernel_end` is
-- the linker's symbol `end`; `free_pages` is the free list of kalloc.c, `file_refs` and `inode_refs`
-- the reference counts of the open files and of the cached inodes.
pub record Kernel : Type 0 where
  pub procs : List Proc
  pub mutexes : List Mutex
  pub nextpid : ℕ
  pub nexttid : ℕ
  pub nextmid : ℕ
  pub initproc : Option ℕ
  pub cur : Option ThreadPtr
  pub held : List Lock
  pub free_pages : List ℕ
  pub file_refs : List ℕ
  pub inode_refs : List ℕ
  pub null_tid : ℕ
  pub kernel_end : ℕ

abbrev pub zero_tf : TrapFrame
zero_tf = record { eax = 0; esp = 0; eip = 0; other = [] }

-- The contents of the tables at boot: static storage, all zero.
abbrev pub zero_thread : Thread
zero_thread = record {
  kstack = 0;
  state = t_unused;
  tf = zero_tf;
  tid = 0;
  parent = none;
  chan = nowhere;
  should_die = false;
  next_thread = none;
  mutex_flag = false;
  name = [];
}

abbrev pub zero_proc : Proc
zero_proc = record {
  sz = 0;
  pgdir = 0;
  state = unused;
  pid = 0;
  parent = none;
  killed = false;
  ofile = replicate nofile none;
  cwd = none;
  ttable = replicate nthread zero_thread;
  name = [];
  num_of_thread = 0;
}

abbrev pub zero_mutex : Mutex
zero_mutex = record {
  mid = 0;
  lock = 0;
  num_of_waiting = 0;
  state = uninitialized;
  holding = none;
  pid_holder = 0;
}

abbrev pub boot : List ℕ → Kernel
boot pages = record {
  procs = replicate nproc zero_proc;
  mutexes = replicate max_mutexes zero_mutex;
  nextpid = 1;
  nexttid = 1;
  nextmid = 1;
  initproc = none;
  cur = none;
  held = [];
  free_pages = pages;
  file_refs = [];
  inode_refs = [];
  null_tid = 0;
  kernel_end = 0x801154a8;
}

abbrev pub is_unused : Proc → Bool
is_unused p = elim p.state [ ProcState.unused ↦ true | _ ↦ false ]

abbrev pub is_zombie : Proc → Bool
is_zombie p = elim p.state [ ProcState.zombie ↦ true | _ ↦ false ]

abbrev pub thread_state_eq : ThreadState → ThreadState → Bool
thread_state_eq t_unused t_unused = true
thread_state_eq t_embryo t_embryo = true
thread_state_eq t_sleeping t_sleeping = true
thread_state_eq t_runnable t_runnable = true
thread_state_eq t_running t_running = true
thread_state_eq t_zombie t_zombie = true
thread_state_eq _ _ = false

abbrev pub in_state : ThreadState → Thread → Bool
in_state s t = thread_state_eq t.state s

abbrev pub mutex_state_eq : MutexState → MutexState → Bool
mutex_state_eq uninitialized uninitialized = true
mutex_state_eq opened opened = true
mutex_state_eq close close = true
mutex_state_eq _ _ = false

-- Table access: `ptable.proc[p]`, and `ttable[i]` of it.
abbrev pub thread_of : Proc → ℕ → Option Thread
thread_of p i = get_elem? p.ttable i

abbrev pub thread_at : List Proc → ThreadPtr → Option Thread
thread_at ps (p, i) = elim (get_elem? ps p) [ none ↦ none | some pr ↦ get_elem? pr.ttable i ]

abbrev pub modify_thread : (Thread → Thread) → ℕ → Proc → Proc
modify_thread f i p = record p { ttable = modify p.ttable i f }

abbrev pub update_thread : ThreadPtr → (Thread → Thread) → Kernel → Kernel
update_thread (p, i) f k = record k { procs = modify k.procs p (modify_thread f i) }

abbrev pub update_proc : ℕ → (Proc → Proc) → Kernel → Kernel
update_proc p f k = record k { procs = modify k.procs p f }

abbrev pub update_mutex : ℕ → (Mutex → Mutex) → Kernel → Kernel
update_mutex i f k = record k { mutexes = modify k.mutexes i f }

-- Comparison of two `struct proc *`.
abbrev pub opt_eq : Option ℕ → Option ℕ → Bool
opt_eq none none = true
opt_eq (some a) (some b) = a == b
opt_eq _ _ = false
