-- ===== src/Vm/Walk.antt =====
-- vm.c: walkpgdir and mappages, and how the kernel's part of a page table is set up.
use os192_ass2_multi_thread.Vm.Monad.{
  OnVm, ◌>>=◌, ◌>>◌, pure, stop, done, kalloc, pgrounddown, load, pdx, is_present, remap, frame_of,
  store, ptx, change, zeroed,
}
use os192_ass2_multi_thread.Kalloc.{pgsize}
use Prim.Native.Nat.{bit_or}
use os192_ass2_multi_thread.Base.{
  ℕ, Bool, ◌*◌, Option, true, ◌+◌, suc, ◌^◌, none, false, ◌-◌, ◌%◌, some, ◌/◌, ◌==◌, zero,
}

-- `V2P(pgtab) | PTE_P | PTE_W | PTE_U`
abbrev pub table_entry : ℕ → ℕ
table_entry f = bit_or (f * pgsize) 7

unfoldable pub walkpgdir : ℕ → ℕ → Bool → OnVm (Option (ℕ × ℕ))
walkpgdir pgdir va alloc = do
  pde ← load pgdir (pdx va)
  elim (is_present pde) [
    | true ↦ pure (some (frame_of pde, ptx va))
    | false ↦ elim alloc [
      | false ↦ pure none
      | true ↦ do
        r ← kalloc
        elim r [
          | none ↦ pure none
          | some pgtab ↦ do
            (λ s. done tt (change pgtab (zeroed (s.mem pgtab)) s))
            store pgdir (pdx va) (table_entry pgtab)
            pure (some (pgtab, ptx va))
        ]
    ]
  ]

-- `pa | perm | PTE_P`
abbrev pub page_entry : ℕ → ℕ → ℕ
page_entry pa perm = bit_or (bit_or pa perm) 1

-- The loop of mappages, with `n` pages to go; false is -1.
unfoldable pub map_loop : ℕ → ℕ → ℕ → ℕ → ℕ → ℕ → OnVm Bool
unfolding walkpgdir
map_loop zero pgdir a last pa perm = pure true
map_loop (suc n) pgdir a last pa perm = do
  r ← walkpgdir pgdir a true
  elim r [
    | none ↦ pure false
    | some (f, i) ↦ do
      w ← load f i
      elim (is_present w) [
        | true ↦ stop remap
        | false ↦ do
          store f i (page_entry pa perm)
          elim (a == last) [
            | true ↦ pure true
            | false ↦ map_loop n pgdir ((a + pgsize) % 2 ^ 32) last ((pa + pgsize) % 2 ^ 32) perm
          ]
      ]
  ]

-- The loop ends at `last`, after one round for each page from the first to the last.
unfoldable pub mappages : ℕ → ℕ → ℕ → ℕ → ℕ → OnVm Bool
unfolding map_loop
mappages pgdir va size pa perm =
    let a = pgrounddown va in
    let last = pgrounddown ((va + size + 2 ^ 32 - 1) % 2 ^ 32) in
    map_loop ((last + 2 ^ 32 - a) % 2 ^ 32 / pgsize + 1) pgdir a last pa perm
