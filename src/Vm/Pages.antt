-- ===== src/Vm/Pages.antt =====
-- vm.c: mappages.
use os192_ass2_multi_thread.Vm.Rounds.{
  round_full, round_remap, round_last, round_next, within, Maps, same_page-within, page_entry_lem,
  first_page, more_pages,
}
use mathlib.Core.Path.{ap₂}
use os192_ass2_multi_thread.Vm.Mapping.{Tables-written, entry-written, Finds, walkpgdir_lem}
use os192_ass2_multi_thread.Vm.Tables.{Tables, entry, table_at}
use os192_ass2_multi_thread.Kalloc.{pgsize}
use os192_ass2_multi_thread.Vm.Monad.{
  word, done, stopped, Outcome, set_word, Vm, is_present, pdx, ptx, pgrounddown,
}
use os192_ass2_multi_thread.Vm.Walk.{walkpgdir, map_loop, mappages, page_entry}
use os192_ass2_multi_thread.Base.{
  ℕ, Option, some, none, true, ◌≡◌, suc, arith, false, ◌+◌, ◌%◌, ◌^◌, Bool, ◌<◌, ◌/◌, ◌*◌,
  if◌then◌else◌, ◌-◌, ◌≤◌, ◌∙◌, ap, Bool-cases, inl, inr, refl, sym, subst, zero,
}

-- The first of the pages, mapped in the state `t` that walkpgdir leaves.
module _ (pgdir a pa perm : ℕ) (s t : Vm) (tt' : Tables pgdir t)
    (there : is_present (word t pgdir (pdx a)) ≡ true)
    (same : (v : ℕ) → entry t pgdir v ≡ entry s pgdir v) (low : a < 2 ^ 32)
    (aligned : a % pgsize ≡ 0) (pa_aligned : pa % pgsize ≡ 0) (pa_low : pa + pgsize ≤ 2 ^ 32)
    (flags : perm < pgsize) where
  abbrev one_mapped : Vm
  one_mapped = set_word (table_at t pgdir (pdx a)) (ptx a) (page_entry pa perm) t

  small : page_entry pa perm < 2 ^ 32
  small = omega (arith, page_entry_lem pa perm pa_aligned flags)

  entry-one_mapped :
      (v : ℕ)
      → v < 2 ^ 32
      → entry one_mapped pgdir v ≡ (if within a 1 v then page_entry pa perm else entry s pgdir v)
  entry-one_mapped v h =
      entry-written pgdir a (page_entry pa perm) t tt' there small v
      ∙ ap₂ (λ b x. if b then page_entry pa perm else x) (same_page-within v a h low aligned)
          (same v)

  Maps-one : Maps pgdir a 1 pa perm s (done true one_mapped)
  Maps-one = (
    Tables-written pgdir a (page_entry pa perm) t tt' there small,
    λ v h. entry-one_mapped v h ∙ first_page (λ x. page_entry x perm) a pa v (entry s pgdir v),
  )

  Maps-more :
      (n : ℕ) (r : Outcome Bool)
      → a + (1 + n) * pgsize ≤ 2 ^ 32
      → pa + (1 + n) * pgsize ≤ 2 ^ 32
      → Maps pgdir (a + pgsize) n (pa + pgsize) perm one_mapped r
      → Maps pgdir a (suc n) pa perm s r
  Maps-more n (done true u) ha hp (w, e) = (
    w,
    λ v h.
        e v h
        ∙ (ap
              (λ x.
                if within (a + pgsize) n v
                then page_entry (pa + pgsize + (v - (a + pgsize)) / pgsize * pgsize) perm
                else x)
              (entry-one_mapped v h)
            ∙ more_pages (λ x. page_entry x perm) a pa n v (entry s pgdir v)),
  )
  Maps-more n (done false u) ha hp m = m
  Maps-more n (stopped x) ha hp (q, (v, inside, pr)) =
      let out : within a 1 v ≡ false = ground arith in
      let e = entry-one_mapped v (ground arith) in
      let k : (if within a 1 v then page_entry pa perm else entry s pgdir v) ≡ entry s pgdir v =
        rw out refl in
      (q, (v, ground arith, ap is_present (sym (e ∙ k)) ∙ pr))

-- A round of the loop, up to the case that the entry is free.
round_lem :
    (n pgdir a last pa perm : ℕ) (s : Vm)
    → Tables pgdir s
    → a + pgsize ≤ 2 ^ 32
    → ((u : Vm)
        → walkpgdir pgdir a true s ≡ done (some (table_at u pgdir (pdx a), ptx a)) u
        → Tables pgdir u
        → is_present (word u pgdir (pdx a)) ≡ true
        → ((v : ℕ) → entry u pgdir v ≡ entry s pgdir v)
        → is_present (word u (table_at u pgdir (pdx a)) (ptx a)) ≡ false
        → Maps pgdir a (suc n) pa perm s (map_loop (suc n) pgdir a last pa perm s))
    → Maps pgdir a (suc n) pa perm s (map_loop (suc n) pgdir a last pa perm s)
round_lem n pgdir a last pa perm s t ha free =
    found (walkpgdir pgdir a true s) refl (walkpgdir_lem pgdir a s t)
  where
    found :
        (r : Outcome (Option (ℕ × ℕ)))
        → walkpgdir pgdir a true s ≡ r
        → Finds pgdir a s r
        → Maps pgdir a (suc n) pa perm s (map_loop (suc n) pgdir a last pa perm s)
    found (stopped x) e h = absurd h
    found (done none u) e (q, full) =
        subst (Maps pgdir a (suc n) pa perm s) (sym (round_full n pgdir a last pa perm s u e))
          (subst (Tables pgdir) (sym q) t, ap (λ (x : Vm). x.free) q ∙ full)
    found (done (some (f, i)) u) e (w, there, qf, qi, same) =
        let e' = e ∙ ap₂ (λ f i. done (some (f, i)) u) qf qi in
        elim (Bool-cases (is_present (word u (table_at u pgdir (pdx a)) (ptx a)))) [
          | inr k ↦ free u e' w there same k
          | inl y ↦
              let here : entry u pgdir a ≡ word u (table_at u pgdir (pdx a)) (ptx a) =
                rw there refl in
              subst (Maps pgdir a (suc n) pa perm s)
                (sym
                  (round_remap n pgdir a last pa perm s u (table_at u pgdir (pdx a)) (ptx a) e' y))
                (refl, (a, ground arith, ap is_present (sym (same a) ∙ here) ∙ y))
        ]

map_loop_lem :
    (n pgdir a last pa perm : ℕ) (s : Vm)
    → Tables pgdir s
    → a % pgsize ≡ 0
    → pa % pgsize ≡ 0
    → perm < pgsize
    → a + (1 + n) * pgsize ≤ 2 ^ 32
    → pa + (1 + n) * pgsize ≤ 2 ^ 32
    → last ≡ a + n * pgsize
    → Maps pgdir a (suc n) pa perm s (map_loop (suc n) pgdir a last pa perm s)
map_loop_lem zero pgdir a last pa perm s t al pl fl ha hp end =
    round_lem zero pgdir a last pa perm s t (omega arith) (λ u e w there same k.
      subst (Maps pgdir a 1 pa perm s)
        (sym (
          round_last zero pgdir a last pa perm s u (table_at u pgdir (pdx a)) (ptx a) e k
            (omega arith)))
        (Maps-one pgdir a pa perm s u w there same (omega arith) al pl (omega arith) fl))
map_loop_lem (suc n) pgdir a last pa perm s t al pl fl ha hp end =
    round_lem (suc n) pgdir a last pa perm s t (omega arith) (λ u e w there same k.
      let one = one_mapped pgdir a pa perm s u w there same (omega arith) al pl (omega arith) fl in
      let w' = (Maps-one pgdir a pa perm s u w there same (omega arith) al pl (omega arith) fl).0 in
      let ih =
        map_loop_lem n pgdir (a + pgsize) last (pa + pgsize) perm one w' (omega arith) (omega arith)
          fl (omega arith) (omega arith) (omega arith) in
      let go =
        round_next (suc n) pgdir a last pa perm s u (table_at u pgdir (pdx a)) (ptx a) e k
          (omega arith)
        ∙ ap₂ (λ x y. map_loop (suc n) pgdir x last y perm one) (omega arith) (omega arith) in
      subst (Maps pgdir a (suc (suc n)) pa perm s) (sym go) (
        Maps-more pgdir a pa perm s u w there same (omega arith) al pl (omega arith) fl (suc n) _
          (omega arith) (omega arith) ih))

-- mappages of a range of pages, page-aligned, in a page table whose tables are apart: if it returns 0, each address
-- of the range has the entry for its page from `pa` on, with the flags, and every other address has the entry
-- that it had; if -1, no page is free. It panics only if an address of the range was mapped. The tables stay apart.
pub mappages_lem :
    (pgdir va n pa perm : ℕ) (s : Vm)
    → Tables pgdir s
    → va % pgsize ≡ 0
    → pa % pgsize ≡ 0
    → perm < pgsize
    → 0 < n
    → va + n * pgsize ≤ 2 ^ 32
    → pa + n * pgsize ≤ 2 ^ 32
    → Maps pgdir va n pa perm s (mappages pgdir va (n * pgsize) pa perm s)
unfolding mappages
mappages_lem pgdir va zero pa perm s t al pl fl pos ha hp = absurd (omega arith)
mappages_lem pgdir va (suc n) pa perm s t al pl fl pos ha hp =
    let last = pgrounddown ((va + suc n * pgsize + 2 ^ 32 - 1) % 2 ^ 32) in
    subst (Maps pgdir va (suc n) pa perm s)
      (sym (
        ap₂ (λ m a. map_loop m pgdir a last pa perm s) {y = suc n} {v = va} (omega arith)
          (omega arith)))
      (map_loop_lem n pgdir va last pa perm s t al pl fl (omega arith) (omega arith) (omega arith))
