-- ===== src/Vm/Copyout.antt =====
-- vm.c: uva2ka and copyout.
use Prim.Native.Nat.{min}
use os192_ass2_multi_thread.Vm.Monad.{
  OnVm, ◌>>=◌, ◌>>◌, pure, stop, done, null_pte, pgrounddown, change, load, is_present, is_user,
  frame_of,
}
use os192_ass2_multi_thread.Vm.Walk.{walkpgdir}
use os192_ass2_multi_thread.Kalloc.{pgsize}
use os192_ass2_multi_thread.Fs.Content.{put_bytes}
use os192_ass2_multi_thread.Base.{
  ℕ, List, Option, Bool, true, length, false, none, suc, ◌==◌, some, ◌%◌, if◌then◌else◌, take, ◌&&◌,
  ◌-◌, ◌+◌, ◌^◌, drop, zero,
}

-- The frame of a user's page, or none. An address without a table is a null pointer that is followed.
unfoldable pub uva2ka : ℕ → ℕ → OnVm (Option ℕ)
unfolding walkpgdir
uva2ka pgdir uva = do
  r ← walkpgdir pgdir uva false
  elim r [
    | none ↦ stop null_pte
    | some (f, i) ↦ do
      w ← load f i
      pure (if is_present w && is_user w then some (frame_of w) else none)
  ]

-- The loop of copyout; each round copies one byte at least.
unfoldable pub copyout_loop : ℕ → ℕ → ℕ → List ℕ → OnVm Bool
unfolding uva2ka
copyout_loop zero pgdir va buf = pure true
copyout_loop (suc fuel) pgdir va buf = elim (length buf == 0) [
  | true ↦ pure true
  | false ↦ do
    pa0 ← uva2ka pgdir (pgrounddown va)
    elim pa0 [
      | none ↦ pure false
      | some f ↦ do
        (λ s. done tt (
            change f
              (put_bytes (va % pgsize) (take (min (pgsize - va % pgsize) (length buf)) buf)
                (s.mem f))
              s))
        copyout_loop fuel pgdir ((pgrounddown va + pgsize) % 2 ^ 32)
            (drop (min (pgsize - va % pgsize) (length buf)) buf)
    ]
]

unfoldable pub copyout : ℕ → ℕ → List ℕ → OnVm Bool
unfolding copyout_loop
copyout pgdir va buf = copyout_loop (length buf) pgdir va buf
