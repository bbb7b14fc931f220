-- ===== src/Proc.antt =====
-- proc.c: allocproc, allocthread, growproc and fork. What vm.c and fs.c do for them is a
-- parameter of the functions that call it.
pub mod Alloc
use mathlib.Core.Option.{none}
use os192_ass2_multi_thread.Base.{
  ℕ, get_elem?, List, ℤ, Option, modify, ◌∷◌, [], take, pos, some, suc, ◌-◌, if◌then◌else◌, none,
  find_index, minus_one, ◌==◌, false, ◌+◌, ltb, ◌%◌, ◌^◌, negsuc, ◌&&◌, set, not, eq_int,
}
use os192_ass2_multi_thread.Kernel.Types.{
  Kernel, Thread, TrapFrame, t_embryo, ptable_lock, update_proc, in_state, thread_at, is_unused,
  unused, t_unused, used, update_thread, t_runnable,
}
use os192_ass2_multi_thread.Kernel.Monad.{
  M, ◌>>=◌, ◌>>◌, pure, modify_kernel, me, myproc, mythread, get, deref, panicked, null,
  filedup_panic, ret,
}
use os192_ass2_multi_thread.Kernel.Locks.{acquire, release}
use os192_ass2_multi_thread.Kalloc.{kalloc, kfree}

unfoldable pub allocproc : M (Option ℕ)
allocproc = do
  acquire ptable_lock
  k ← get
  elim (find_index is_unused k.procs) [
    | none ↦ do release ptable_lock; pure none
    | some i ↦ do
      modify_kernel (λ j.
          update_proc i (λ p. record p { state = used; pid = k.nextpid })
            (record j { nextpid = k.nextpid + 1 }))
      release ptable_lock
      pure (some i)
  ]

-- A fresh page holds the 1s that kfree fills it with.
abbrev pub junk_tf : TrapFrame
junk_tf = record { eax = 0x01010101; esp = 0x01010101; eip = 0x01010101; other = [] }

-- allocthread up to its release: the slot found is claimed.
abbrev pub claimed : ℕ → ℕ → Thread → Thread
claimed p tid t = record t {
  state = t_embryo;
  tid = tid;
  parent = some p;
  next_thread = none;
  mutex_flag = false;
  should_die = false;
}

unfoldable pub claim_thread : ℕ → M (Option ℕ)
claim_thread p = do
  acquire ptable_lock
  k ← get
  pr ← deref (get_elem? k.procs p)
  elim (find_index (in_state t_unused) pr.ttable) [
    | none ↦ do release ptable_lock; pure none
    | some i ↦ do
      modify_kernel
          (λ j. update_thread (p, i) (claimed p k.nexttid) (record j { nexttid = k.nexttid + 1 }))
      release ptable_lock
      pure (some i)
  ]

-- The rest of it: the kernel stack, with the trap frame on it. Without a page the thread's slot and
-- the process are given back.
unfoldable pub give_stack : ℕ → ℕ → M (Option ℕ)
unfolding kalloc
give_stack p i = do
  page ← kalloc
  elim page [
    | none ↦ do
      modify_kernel (update_proc p (λ q. record q { state = unused }))
      modify_kernel (update_thread (p, i) (λ t. record t { kstack = 0; state = t_unused }))
      pure none
    | some v ↦ do
      modify_kernel (update_thread (p, i) (λ t. record t { kstack = v; tf = junk_tf }))
      modify_kernel (update_proc p (λ q. record q { num_of_thread = q.num_of_thread + 1 }))
      pure (some i)
  ]

unfoldable pub allocthread : ℕ → M (Option ℕ)
unfolding claim_thread give_stack
allocthread p = do slot ← claim_thread p; elim slot [ none ↦ pure none | some i ↦ give_stack p i ]

-- safestrcpy into an array of `n` bytes, as it changes the C string in it.
abbrev pub copied_name : ℕ → List ℕ → List ℕ
copied_name n s = take (n - 1) s

-- filedup and idup, as they change the reference counts.
unfoldable pub filedup : ℕ → M (Unit {0})
filedup f k = elim (get_elem? k.file_refs f) [
  | none ↦ panicked null
  | some r ↦
      if ltb r 1
      then panicked filedup_panic
      else ret tt (record k { file_refs = set k.file_refs f (r + 1) })
]

unfoldable pub idup : ℕ → M (Unit {0})
idup i = modify_kernel (λ k. record k { inode_refs = modify k.inode_refs i suc })

-- The loop of fork over the parent's descriptors `fs` and the child's `gs`: one that is not open in
-- the parent stays in the child as it was.
unfoldable pub dup_files : List (Option ℕ) → List (Option ℕ) → M (List (Option ℕ))
unfolding filedup
dup_files [] gs = pure gs
dup_files (f ∷ fs) [] = pure []
dup_files (none ∷ fs) (g ∷ gs) = do rest ← dup_files fs gs; pure (g ∷ rest)
dup_files (some f ∷ fs) (g ∷ gs) = do filedup f; rest ← dup_files fs gs; pure (some f ∷ rest)

-- `copyuvm pgdir sz` of vm.c: a copy of the address space, or 0.
module _ (copyuvm : ℕ → ℕ → M (Option ℕ)) where
  -- fork once both slots are there: `np`, `nt` are the new process and thread.
  unfoldable pub fork_into : ℕ → ℕ → M ℤ
  unfolding kfree idup dup_files
  fork_into np nt = do
    curproc ← myproc
    curthread ← mythread
    c ← me
    copy ← copyuvm curproc.pgdir curproc.sz
    elim copy [
      | none ↦ do
        k ← get
        t ← deref (thread_at k.procs (np, nt))
        kfree t.kstack
        modify_kernel (update_proc np (λ p. record p { state = unused }))
        modify_kernel (update_thread (np, nt) (λ u. record u { kstack = 0; state = t_unused }))
        pure minus_one
      | some pgdir ↦ do
        modify_kernel
            (update_proc np (λ p. record p { pgdir = pgdir; sz = curproc.sz; parent = some c.0 }))
        modify_kernel
            (update_thread (np, nt) (λ u. record u { tf = record (curthread.tf) { eax = 0 } }))
        k ← get
        child ← deref (get_elem? k.procs np)
        files ← dup_files curproc.ofile child.ofile
        cwd ← deref curproc.cwd
        idup cwd
        modify_kernel (
            update_proc np
              (λ p. record p { ofile = files; cwd = some cwd; name = copied_name 16 curproc.name }))
        modify_kernel
            (update_thread (np, nt) (λ u. record u { name = copied_name 16 curthread.name }))
        acquire ptable_lock
        modify_kernel (update_proc np (λ p. record p { state = used }))
        modify_kernel (update_thread (np, nt) (λ u. record u { state = t_runnable }))
        release ptable_lock
        pure (pos child.pid)
    ]

  unfoldable pub fork : M ℤ
  unfolding fork_into allocproc allocthread
  fork = do
    np ← allocproc
    elim np [
      | none ↦ pure minus_one
      | some p ↦ do nt ← allocthread p; elim nt [ none ↦ pure minus_one | some t ↦ fork_into p t ]
    ]

-- `allocuvm` and `deallocuvm` of vm.c, with 0 for failure.
module _ (allocuvm deallocuvm : ℕ → ℕ → ℕ → M ℕ) where
  -- `sz + n` is unsigned and wraps.
  unfoldable pub growproc : ℤ → M ℤ
  growproc n = do
    c ← me
    acquire ptable_lock
    p ← myproc
    sz ← elim n [
      | pos m ↦ if m == 0 then pure p.sz else allocuvm p.pgdir p.sz ((p.sz + m) % 2 ^ 32)
      | negsuc m ↦ deallocuvm p.pgdir p.sz ((p.sz + 2 ^ 32 - (m + 1)) % 2 ^ 32)
    ]
    if sz == 0 && not (eq_int 0 n) then (do release ptable_lock; pure minus_one) else (do
      modify_kernel (update_proc c.0 (λ q. record q { sz = sz }))
      release ptable_lock
      pure (pos 0))
