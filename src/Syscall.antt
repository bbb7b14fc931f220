-- ===== src/Syscall.antt =====
-- syscall.c and sysproc.c: the arguments of a system call, and the calls on processes and threads.
pub mod Bounds
pub mod Files
use mathlib.Core.Option
use os192_ass2_multi_thread.Kthread.{kthread_id, kthread_create, kthread_join}
use os192_ass2_multi_thread.Sched.{kill}
use os192_ass2_multi_thread.Exit.{kthread_exit}
use os192_ass2_multi_thread.Mutex.{
  kthread_mutex_dealloc, kthread_mutex_alloc, kthread_mutex_unlock, kthread_mutex_lock,
}
use os192_ass2_multi_thread.Base.{
  ℕ, Option, ◌+◌, ℤ, pos, if◌then◌else◌, none, ◌%◌, minus_one, ltb, leb, ◌*◌, negsuc, ◌^◌, suc,
  some, ◌-◌, ◌||◌, ◌==◌, zero,
}
use os192_ass2_multi_thread.Kernel.Monad.{M, ◌>>=◌, ◌>>◌, pure, myproc, mythread}

-- The `int` with this bit pattern.
abbrev pub to_int : ℕ → ℤ
to_int w = if ltb w (2 ^ 31) then pos w else negsuc (2 ^ 32 - w - 1)

-- `uint` addition.
abbrev pub add32 : ℕ → ℕ → ℕ
add32 a b = (a + b) % 2 ^ 32

-- What a handler does with an argument that was not there: it returns -1.
abbrev pub with_arg : {A : Type 0} → M (Option A) → (A → M ℤ) → M ℤ
with_arg m f = do a ← m; elim a [ none ↦ pure minus_one | some x ↦ f x ]

-- `word a` is the 32-bit word at the user's address `a`, and `byte a` the byte.
module _ (word byte : ℕ → ℕ) where
  unfoldable pub fetchint : ℕ → M (Option ℤ)
  fetchint addr = do
    p ← myproc
    if leb p.sz addr || ltb p.sz (add32 addr 4) then pure none else pure (some (to_int (word addr)))

  -- The scan of fetchstr over the `n` bytes up to the end of the process.
  abbrev pub scan : ℕ → ℕ → Option ℕ
  scan zero s = none
  scan (suc n) s = if byte s == 0 then some 0 else Option.map suc (scan n (s + 1))

  unfoldable pub fetchstr : ℕ → M (Option ℕ)
  fetchstr addr = do p ← myproc; if leb p.sz addr then pure none else pure (scan (p.sz - addr) addr)

  unfoldable pub argint : ℕ → M (Option ℤ)
  unfolding fetchint
  argint n = do t ← mythread; fetchint ((t.tf.esp + 4 + 4 * n) % 2 ^ 32)

  -- The word of an `int`, which a cast to `uint` gives back.
  abbrev pub to_uint : ℤ → ℕ
  to_uint (pos n) = n
  to_uint (negsuc n) = 2 ^ 32 - n - 1

  unfoldable pub argptr : ℕ → ℤ → M (Option ℕ)
  unfolding argint
  argptr n size = do
    p ← myproc
    i ← argint n
    elim i [
      | none ↦ pure none
      | some a ↦ elim size [
        | negsuc _ ↦ pure none
        | pos len ↦
            if leb p.sz (to_uint a) || ltb p.sz (add32 (to_uint a) len)
            then pure none
            else pure (some (to_uint a))
      ]
    ]

  unfoldable pub argstr : ℕ → M (Option ℕ)
  unfolding argint fetchstr
  argstr n = do addr ← argint n; elim addr [ none ↦ pure none | some a ↦ fetchstr (to_uint a) ]

  unfoldable pub sys_kill : M ℤ
  unfolding argint kill
  sys_kill = with_arg (argint 0) kill

  unfoldable pub sys_getpid : M ℤ
  sys_getpid = do p ← myproc; pure (pos p.pid)

  -- `growproc` with the functions of vm.c that it calls.
  unfoldable pub sys_sbrk : (ℤ → M ℤ) → M ℤ
  unfolding argint
  sys_sbrk growproc = with_arg (argint 0) (λ n. do
    p ← myproc
    r ← growproc n
    elim r [ pos _ ↦ pure (pos p.sz) | negsuc _ ↦ pure minus_one ])

  unfoldable pub sys_kthread_create : M ℤ
  unfolding argptr kthread_create
  sys_kthread_create =
      with_arg (argptr 0 (pos 1))
        (λ start_func. with_arg (argptr 1 (pos 1)) (λ stack. kthread_create start_func stack))

  unfoldable pub sys_kthread_id : M ℤ
  unfolding kthread_id
  sys_kthread_id = kthread_id

  unfoldable pub sys_kthread_exit : M ℤ
  unfolding kthread_exit
  sys_kthread_exit = do r ← kthread_exit; pure (pos 0)

  unfoldable pub sys_kthread_join : M ℤ
  unfolding argint kthread_join
  sys_kthread_join = with_arg (argint 0) kthread_join

  unfoldable pub sys_kthread_mutex_alloc : M ℤ
  unfolding kthread_mutex_alloc
  sys_kthread_mutex_alloc = kthread_mutex_alloc

  unfoldable pub sys_kthread_mutex_dealloc : M ℤ
  unfolding argint kthread_mutex_dealloc
  sys_kthread_mutex_dealloc = with_arg (argint 0) kthread_mutex_dealloc

  unfoldable pub sys_kthread_mutex_lock : M ℤ
  unfolding argint kthread_mutex_lock
  sys_kthread_mutex_lock = with_arg (argint 0) kthread_mutex_lock

  unfoldable pub sys_kthread_mutex_unlock : M ℤ
  unfolding argint kthread_mutex_unlock
  sys_kthread_mutex_unlock = with_arg (argint 0) kthread_mutex_unlock
