-- ===== src/Wait/Reap.antt =====
-- proc.c: wait on each branch.
use os192_ass2_multi_thread.Kernel.Tables.{thread_at-modify_self}
use os192_ass2_multi_thread.Kalloc.{bad_page}
use os192_ass2_multi_thread.Exit.{reaped}
use os192_ass2_multi_thread.Kernel.Monad.{ret, switched, M}
use os192_ass2_multi_thread.Kernel.Spec.{Runs, Runs-thread_at}
use os192_ass2_multi_thread.Kernel.Types.{
  Thread, Proc, Kernel, in_state, t_zombie, is_zombie, update_thread, on_thread, ptable_lock,
  t_sleeping,
}
use os192_ass2_multi_thread.Wait.{wait, is_child, reaped}
use os192_ass2_multi_thread.Base.{
  ℕ, true, List, Bool, ◌∷◌, if◌then◌else◌, ◌≡◌, find_index, ◌&&◌, some, false, none, [], ◌⊎◌,
  Bool-cases, inl, minus_one, arith, inr, Option-cases,
}

-- The stacks of the zombies among these threads can be given back.
abbrev pub GoodStacks : ℕ → List Thread → Type 0
GoodStacks kend [] = Unit
GoodStacks kend (t ∷ ts) =
    ((in_state t_zombie t ≡ false) ⊎ (bad_page kend t.kstack ≡ false)) × GoodStacks kend ts

abbrev pub reap : Thread → Thread
reap t = if in_state t_zombie t then reaped t else t

-- The stacks of the zombies, the last one first, on top of the free list.
abbrev pub freed : List Thread → List ℕ → List ℕ
freed [] vs = vs
freed (t ∷ ts) vs = freed ts (if in_state t_zombie t then t.kstack ∷ vs else vs)

abbrev pub has_exited : ℕ → Proc → Bool
has_exited cur p = is_child cur p && is_zombie p

-- `freevm` gives pages back and changes nothing else.
module _ (freevm : ℕ → M (Unit {0})) where
  -- wait, called while no child has exited: without a child, or once killed, the caller gets -1 and nothing changes;
  -- otherwise it goes to sleep on itself with the process table locked.
  pub wait_blocks :
      {k : Kernel} {p j : ℕ} {pr : Proc} {t : Thread}
      → Runs k (p, j) pr t
      → find_index (has_exited p) k.procs ≡ none
      → (((find_index (is_child p) k.procs ≡ none) ⊎ (pr.killed ≡ true))
          × (wait freevm k ≡ ret minus_one k))
        ⊎ ((i : ℕ) × (find_index (is_child p) k.procs ≡ some i)
            × (pr.killed ≡ false)
            × (wait freevm k
                ≡ switched (
                    update_thread
                      (p, j)
                      (λ w. record w { chan = on_thread p j; state = t_sleeping })
                      (record k { held = ptable_lock ∷ [] }))))
  unfolding wait
  wait_blocks {k} {p} {j} {pr} {t} r e = elim (Option-cases (find_index (is_child p) k.procs)) [
    | inl n ↦ inl (inl n, ground (arith, Runs-thread_at r))
    | inr (i, n) ↦ elim (Bool-cases pr.killed) [
      | inl y ↦ inl (inr y, ground (arith, Runs-thread_at r))
      | inr y ↦ inr (
        i,
        n,
        y,
        ground (
          arith,
          Runs-thread_at r,
          thread_at-modify_self k.procs p j
              (λ w. record w { chan = on_thread p j; state = t_sleeping }),
        ),
      )
    ]
  ]
