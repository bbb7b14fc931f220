-- ===== src/Syscall/Files.antt =====
-- sysfile.c: the descriptors of a process; file.c: filealloc. A file is its index in ftable, and what the table
-- keeps of it is its reference count, as in Proc and Exit.
use os192_ass2_multi_thread.Kernel.Types.{update_proc}
use os192_ass2_multi_thread.Syscall.{argint, with_arg}
use os192_ass2_multi_thread.Proc.{filedup}
use os192_ass2_multi_thread.Kernel.Monad.{M, ◌>>◌, ◌>>=◌, get, pure, me, myproc, modify_kernel}
use os192_ass2_multi_thread.Exit.{fileclose}
use os192_ass2_multi_thread.Base.{
  ℕ, Option, none, some, pos, negsuc, Bool, true, ℤ, false, find_index, get_elem?, ◌==◌, set,
}

unfoldable pub filealloc : M (Option ℕ)
filealloc = do
  k ← get
  elim (find_index (λ r. r == 0) k.file_refs) [
    | none ↦ pure none
    | some f ↦ do modify_kernel (λ k. record k { file_refs = set k.file_refs f 1 }); pure (some f)
  ]

abbrev is_closed : Option ℕ → Bool
is_closed none = true
is_closed (some f) = false

unfoldable pub fdalloc : ℕ → M (Option ℕ)
fdalloc f = do
  c ← me
  p ← myproc
  elim (find_index is_closed p.ofile) [
    | none ↦ pure none
    | some fd ↦ do
      modify_kernel (update_proc c.0 (λ p. record p { ofile = set p.ofile fd (some f) }))
      pure (some fd)
  ]

-- `word a` is the 32-bit word at the user's address `a`, and `byte a` the byte.
module _ (word byte : ℕ → ℕ) where
  -- The descriptor and the file.
  unfoldable pub argfd : ℕ → M (Option (ℕ × ℕ))
  unfolding argint
  argfd n = do
    i ← argint word byte n
    elim i [
      | none ↦ pure none
      | some (negsuc _) ↦ pure none
      | some (pos fd) ↦ do
        p ← myproc
        elim (get_elem? p.ofile fd) [
          | none ↦ pure none
          | some none ↦ pure none
          | some (some f) ↦ pure (some (fd, f))
        ]
    ]

  unfoldable pub sys_dup : M ℤ
  unfolding argfd fdalloc filedup
  sys_dup = with_arg (argfd 0) (λ (fd, f). with_arg (fdalloc f) (λ fd. do filedup f; pure (pos fd)))

  unfoldable pub sys_close : M ℤ
  unfolding argfd fileclose
  sys_close = with_arg (argfd 0) (λ (fd, f). do
    c ← me
    modify_kernel (update_proc c.0 (λ p. record p { ofile = set p.ofile fd none }))
    fileclose f
    pure (pos 0))
