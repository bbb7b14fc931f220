-- ===== src/Kalloc.antt =====
-- kalloc.c: the allocator of physical pages. The list is `kmem.freelist`, the next page first; the
-- links lie in the free pages themselves.
use mathlib.Core.Bool.{false}
use Prim.Native.Nat.{zero}
use os192_ass2_multi_thread.Base.{
  ℕ, ◌/◌, Bool, ◌+◌, Option, ◌-◌, suc, ◌^◌, not, if◌then◌else◌, ◌%◌, ◌*◌, leb, ◌==◌, ◌||◌, ltb, [],
  true, none, ◌∷◌, some,
}
use os192_ass2_multi_thread.Kernel.Monad.{M, ◌>>◌, pure, ret, panicked, kfree_panic}

abbrev pub pgsize : ℕ
pgsize = 4096

abbrev pub kernbase : ℕ
kernbase = 0x80000000

abbrev pub phystop : ℕ
phystop = 0xe000000

-- V2P: an unsigned subtraction, which wraps.
abbrev pub v2p : ℕ → ℕ
v2p a = (a + 2 ^ 32 - kernbase) % 2 ^ 32

-- The test before the panic of kfree.
abbrev pub bad_page : ℕ → ℕ → Bool
bad_page kend v = not (v % pgsize == 0) || ltb v kend || leb phystop (v2p v)

unfoldable pub kfree : ℕ → M (Unit {0})
kfree v k = elim (bad_page k.kernel_end v) [
  | true ↦ panicked kfree_panic
  | false ↦ ret tt (record k { free_pages = v ∷ k.free_pages })
]

unfoldable pub kalloc : M (Option ℕ)
kalloc k = elim k.free_pages [
  | [] ↦ ret none k
  | v ∷ vs ↦ ret (some v) (record k { free_pages = vs })
]

-- PGROUNDUP
abbrev pub pgroundup : ℕ → ℕ
pgroundup a = (a + pgsize - 1) / pgsize * pgsize

-- freerange: its loop, with the number of pages that are left as fuel.
unfoldable pub free_pages_from : ℕ → ℕ → ℕ → M (Unit {0})
free_pages_from zero p vend = pure tt
free_pages_from (suc n) p vend =
    let rest = free_pages_from n (p + pgsize) vend in
    if leb (p + pgsize) vend then kfree p >> rest else pure tt

unfoldable pub freerange : ℕ → ℕ → M (Unit {0})
unfolding free_pages_from
freerange vstart vend = free_pages_from (vend / pgsize + 1) (pgroundup vstart) vend
