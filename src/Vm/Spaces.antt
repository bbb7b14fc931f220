-- ===== src/Vm/Spaces.antt =====
-- vm.c: address spaces made, grown, shrunk, copied and freed. A result false stands for 0 or -1.
use os192_ass2_multi_thread.Fs.Content.{put_bytes}
use os192_ass2_multi_thread.Vm.Walk.{mappages, walkpgdir}
use os192_ass2_multi_thread.Vm.Monad.{
  phystop_too_high, kfree_panic, OnVm, ◌>>=◌, ◌>>◌, pure, stop, done, kalloc, kfree, change, load,
  zeroed, pdx, clearpteu_panic, pte_should_exist, is_present, more_than_a_page, null_page, frame_of,
  page_not_present, store, flags_of, is_user,
}
use os192_ass2_multi_thread.Kalloc.{pgsize, kernbase, phystop, pgroundup, v2p}
use os192_ass2_multi_thread.Base.{
  ℕ, List, if◌then◌else◌, Option, suc, ◌∷◌, leb, false, true, none, Bool, ◌+◌, length, ltb, some,
  ◌^◌, ◌/◌, ◌-◌, ◌*◌, [], ◌==◌, zero, ◌%◌,
}

-- The permissions of the pages of a process, PTE_W | PTE_U.
abbrev pub user_page : ℕ
user_page = 6

-- `memset(mem, 0, PGSIZE)`
abbrev pub clear_page : ℕ → OnVm (Unit {0})
clear_page f s = done tt (change f (zeroed (s.mem f)) s)

-- The loop of deallocuvm from `a` on; `n` rounds are enough for `n` pages.
unfoldable pub dealloc_loop : ℕ → ℕ → ℕ → ℕ → OnVm (Unit {0})
unfolding walkpgdir
dealloc_loop zero pgdir a oldsz = pure tt
dealloc_loop (suc n) pgdir a oldsz = elim (ltb a oldsz) [
  | false ↦ pure tt
  | true ↦ do
    r ← walkpgdir pgdir a false
    elim r [
      | none ↦ dealloc_loop n pgdir ((pdx a + 1) * 2 ^ 22 % 2 ^ 32) oldsz
      | some (f, i) ↦ do
        w ← load f i
        elim (is_present w) [
          | false ↦ dealloc_loop n pgdir ((a + pgsize) % 2 ^ 32) oldsz
          | true ↦ elim (frame_of w == 0) [
            | true ↦ stop kfree_panic
            | false ↦ do
              kfree (frame_of w)
              store f i 0
              dealloc_loop n pgdir ((a + pgsize) % 2 ^ 32) oldsz
          ]
        ]
    ]
]

unfoldable pub deallocuvm : ℕ → ℕ → ℕ → OnVm ℕ
unfolding dealloc_loop
deallocuvm pgdir oldsz newsz = elim (leb oldsz newsz) [
  | true ↦ pure oldsz
  | false ↦ do dealloc_loop (oldsz / pgsize + 1) pgdir (pgroundup newsz) oldsz; pure newsz
]

-- The loop of allocuvm, for `n` pages at most.
unfoldable pub alloc_loop : ℕ → ℕ → ℕ → ℕ → ℕ → OnVm ℕ
unfolding deallocuvm mappages
alloc_loop zero pgdir a oldsz newsz = pure newsz
alloc_loop (suc n) pgdir a oldsz newsz = elim (ltb a newsz) [
  | false ↦ pure newsz
  | true ↦ do
    r ← kalloc
    elim r [
      | none ↦ do size ← deallocuvm pgdir newsz oldsz; pure 0
      | some mem ↦ do
        clear_page mem
        ok ← mappages pgdir a pgsize (mem * pgsize) user_page
        elim ok [
          | true ↦ alloc_loop n pgdir (a + pgsize) oldsz newsz
          | false ↦ do size ← deallocuvm pgdir newsz oldsz; kfree mem; pure 0
        ]
    ]
]

unfoldable pub allocuvm : ℕ → ℕ → ℕ → OnVm ℕ
unfolding alloc_loop
allocuvm pgdir oldsz newsz =
    if leb kernbase newsz
    then pure 0
    else if ltb newsz oldsz
    then pure oldsz
    else alloc_loop (newsz / pgsize + 1) pgdir (pgroundup oldsz) oldsz newsz

-- The loop of freevm over the directory from entry `i` on, `n` entries to go.
unfoldable pub free_tables : ℕ → ℕ → ℕ → OnVm (Unit {0})
free_tables pgdir i zero = pure tt
free_tables pgdir i (suc n) = do
  w ← load pgdir i
  elim (is_present w) [
    | true ↦ do kfree (frame_of w); free_tables pgdir (i + 1) n
    | false ↦ free_tables pgdir (i + 1) n
  ]

-- freevm, on a pointer that is not null.
unfoldable pub freevm : ℕ → OnVm (Unit {0})
unfolding deallocuvm free_tables
freevm pgdir = do size ← deallocuvm pgdir kernbase 0; free_tables pgdir 0 1024; kfree pgdir

-- `struct kmap`: virt, phys_start, phys_end, perm.
pub record Kmap : Type 0 where
  pub virt : ℕ
  pub phys_start : ℕ
  pub phys_end : ℕ
  pub perm : ℕ

-- `kmap`; `data` is the address of the linker's symbol.
abbrev pub kmaps : ℕ → List Kmap
kmaps data_start =
    record { virt = kernbase; phys_start = 0; phys_end = 0x100000; perm = 2 }
    ∷ record {
      virt = kernbase + 0x100000;
      phys_start = 0x100000;
      phys_end = v2p data_start;
      perm = 0;
    }
    ∷ record { virt = data_start; phys_start = v2p data_start; phys_end = phystop; perm = 2 }
    ∷ record { virt = 0xfe000000; phys_start = 0xfe000000; phys_end = 0; perm = 2 }
    ∷ []

unfoldable pub map_kernel : ℕ → List Kmap → OnVm Bool
unfolding mappages freevm
map_kernel pgdir [] = pure true
map_kernel pgdir (k ∷ ks) = do
  ok ← mappages pgdir k.virt ((k.phys_end + 2 ^ 32 - k.phys_start) % 2 ^ 32) k.phys_start k.perm
  elim ok [ true ↦ map_kernel pgdir ks | false ↦ do freevm pgdir; pure false ]

unfoldable pub setupkvm : ℕ → OnVm (Option ℕ)
unfolding map_kernel
setupkvm data_start = do
  r ← kalloc
  elim r [
    | none ↦ pure none
    | some pgdir ↦ do
      clear_page pgdir
      elim (ltb 0xfe000000 ((phystop + kernbase) % 2 ^ 32)) [
        | true ↦ stop phystop_too_high
        | false ↦ do
          ok ← map_kernel pgdir (kmaps data_start)
          elim ok [ true ↦ pure (some pgdir) | false ↦ pure none ]
      ]
  ]

unfoldable pub inituvm : ℕ → List ℕ → OnVm (Unit {0})
unfolding mappages
inituvm pgdir init = elim (leb pgsize (length init)) [
  | true ↦ stop more_than_a_page
  | false ↦ do
    r ← kalloc
    elim r [
      | none ↦ stop null_page
      | some mem ↦ do
        clear_page mem
        ok ← mappages pgdir 0 pgsize (mem * pgsize) user_page
        (λ s. done tt (change mem (put_bytes 0 init (s.mem mem)) s))
    ]
]

unfoldable pub clearpteu : ℕ → ℕ → OnVm (Unit {0})
unfolding walkpgdir
clearpteu pgdir uva = do
  r ← walkpgdir pgdir uva false
  elim r [
    | none ↦ stop clearpteu_panic
    | some (f, i) ↦ do w ← load f i; store f i (if is_user w then w - 4 else w)
  ]

-- The loop of copyuvm from page `i` on, with `n` pages to go; false is `goto bad`.
unfoldable pub copy_loop : ℕ → ℕ → ℕ → ℕ → OnVm Bool
unfolding walkpgdir mappages
copy_loop zero pgdir d i = pure true
copy_loop (suc n) pgdir d i = do
  r ← walkpgdir pgdir i false
  elim r [
    | none ↦ stop pte_should_exist
    | some (f, e) ↦ do
      w ← load f e
      elim (is_present w) [
        | false ↦ stop page_not_present
        | true ↦ do
          r ← kalloc
          elim r [
            | none ↦ pure false
            | some mem ↦ do
              (λ s.
                  done tt (
                    change mem (λ o. if ltb o pgsize then s.mem (frame_of w) o else s.mem mem o) s))
              ok ← mappages d i pgsize (mem * pgsize) (flags_of w)
              elim ok [ true ↦ copy_loop n pgdir d (i + pgsize) | false ↦ do kfree mem; pure false ]
          ]
      ]
  ]

unfoldable pub copyuvm : ℕ → ℕ → ℕ → OnVm (Option ℕ)
unfolding setupkvm copy_loop freevm
copyuvm data_start pgdir sz = do
  r ← setupkvm data_start
  elim r [
    | none ↦ pure none
    | some d ↦ do
      ok ← copy_loop ((sz + pgsize - 1) / pgsize) pgdir d 0
      elim ok [ true ↦ pure (some d) | false ↦ do freevm d; pure none ]
  ]
