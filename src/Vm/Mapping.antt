-- ===== src/Vm/Mapping.antt =====
-- vm.c: what walkpgdir finds, and what an entry that is written changes.
use native.Mathlib.Decide.{ℕ_discrete}
use mathlib.Core.Path.{ap₂}
use os192_ass2_multi_thread.Vm.Walking.{with_table, new_here, Tables-with_table, entry-with_table}
use os192_ass2_multi_thread.Vm.Tables.{
  Tables, table_at, entry, word-set_word, same_page, free-set_word,
}
use os192_ass2_multi_thread.Vm.Walk.{walkpgdir}
use os192_ass2_multi_thread.Vm.Monad.{
  word, done, stopped, Outcome, Vm, is_present, pdx, ptx, set_word, frame_of,
}
use os192_ass2_multi_thread.Base.{
  ℕ, Option, some, none, true, List, ◌≡◌, Bool-cases, inl, inr, [], ◌<◌, false, Bool, ◌^◌, ◌∷◌,
  subst, sym, if◌then◌else◌, ◌∙◌, arith, refl, ap, ◌≢◌, All, count, ◌==◌,
}

-- walkpgdir gives the place of the address's entry and changes no entry; or no page is free for a table.
abbrev pub Finds : ℕ → ℕ → Vm → Outcome (Option (ℕ × ℕ)) → Type 0
Finds pgdir va s (done (some (f, i)) t) =
    Tables pgdir t
    × (is_present (word t pgdir (pdx va)) ≡ true)
    × (f ≡ table_at t pgdir (pdx va))
    × (i ≡ ptx va)
    × ((v : ℕ) → entry t pgdir v ≡ entry s pgdir v)
Finds pgdir va s (done none t) = (t ≡ s) × (s.free ≡ [])
Finds pgdir va s (stopped e) = ⊥

pub walkpgdir_there :
    (pgdir va : ℕ) (alloc : Bool) (s : Vm)
    → is_present (word s pgdir (pdx va)) ≡ true
    → walkpgdir pgdir va alloc s ≡ done (some (table_at s pgdir (pdx va), ptx va)) s
unfolding walkpgdir
walkpgdir_there pgdir va alloc s y = ground arith

walkpgdir_new :
    (pgdir va p : ℕ) (ps : List ℕ) (s : Vm)
    → is_present (word s pgdir (pdx va)) ≡ false
    → s.free ≡ p ∷ ps
    → walkpgdir pgdir va true s ≡ done (some (p, ptx va)) (with_table pgdir (pdx va) p ps s)
unfolding walkpgdir with_table
walkpgdir_new pgdir va p ps s n e = ground arith

walkpgdir_full :
    (pgdir va : ℕ) (s : Vm)
    → is_present (word s pgdir (pdx va)) ≡ false
    → s.free ≡ []
    → walkpgdir pgdir va true s ≡ done none s
unfolding walkpgdir
walkpgdir_full pgdir va s n e = ground arith

-- With alloc set, walkpgdir finds the entry of each address in a page table whose tables are apart,
-- and makes a table for it where there is none, which changes what the page table says of no address and keeps
-- the tables apart; or no page is free.
pub walkpgdir_lem :
    (pgdir va : ℕ) (s : Vm) → Tables pgdir s → Finds pgdir va s (walkpgdir pgdir va true s)
walkpgdir_lem pgdir va s t = elim (Bool-cases (is_present (word s pgdir (pdx va)))) [
  | inl y ↦
      subst (Finds pgdir va s) (sym (walkpgdir_there pgdir va true s y))
        (t, y, refl, refl, λ v. refl)
  | inr n ↦ pages s.free refl n
]
  where
    pages :
        (l : List ℕ)
        → s.free ≡ l
        → is_present (word s pgdir (pdx va)) ≡ false
        → Finds pgdir va s (walkpgdir pgdir va true s)
    pages [] e n = subst (Finds pgdir va s) (sym (walkpgdir_full pgdir va s n e)) (refl, e)
    pages (p ∷ ps) e n =
        let a = new_here pgdir (pdx va) p ps s t e (omega arith) n in
        subst (Finds pgdir va s) (sym (walkpgdir_new pgdir va p ps s n e)) (
          Tables-with_table pgdir (pdx va) p ps s t e (omega arith) n,
          ground arith,
          ground arith,
          refl,
          entry-with_table pgdir (pdx va) p ps s t e (omega arith) n,
        )

-- Writing the entry of an address, whose table is there, changes the entries of its page only.
module _ (pgdir va w : ℕ) (s : Vm) (t : Tables pgdir s)
    (there : is_present (word s pgdir (pdx va)) ≡ true) (small : w < 2 ^ 32) where
  abbrev pub written : Vm
  written = set_word (table_at s pgdir (pdx va)) (ptx va) w s

  dir_kept : (d : ℕ) → word written pgdir d ≡ word s pgdir d
  dir_kept d =
      word-set_word s (table_at s pgdir (pdx va)) (ptx va) w pgdir d small
      ∙ ground (arith, t.not_dir (pdx va) (omega arith) there)

  same_table :
      (v : ℕ)
      → pdx v ≡ pdx va
      → entry written pgdir v ≡ (if same_page v va then w else entry s pgdir v)
  same_table v q =
      let a : word written pgdir (pdx v) ≡ word s pgdir (pdx va) =
        dir_kept (pdx v) ∙ ap (word s pgdir) q in
      ground (
        arith,
        there,
        ap (λ x. word written (frame_of x) (ptx v)) a,
        ap (word s pgdir) q,
        ap (λ d. word s (table_at s pgdir d) (ptx v)) q,
        word-set_word s (table_at s pgdir (pdx va)) (ptx va) w (table_at s pgdir (pdx va)) (ptx v)
            small,
      )

  other_table :
      (v : ℕ)
      → pdx v ≢ pdx va
      → entry written pgdir v ≡ (if same_page v va then w else entry s pgdir v)
  other_table v n = elim (Bool-cases (is_present (word s pgdir (pdx v)))) [
    | inr k ↦ ground (arith, dir_kept (pdx v))
    | inl y ↦ ground (
      arith,
      dir_kept (pdx v),
      ap (λ x. word written (frame_of x) (ptx v)) (dir_kept (pdx v)),
      t.apart (pdx v) (pdx va) (omega arith) (omega arith) y there,
      word-set_word s (table_at s pgdir (pdx va)) (ptx va) w (table_at s pgdir (pdx v)) (ptx v)
          small,
    )
  ]

  pub entry-written :
      (v : ℕ) → entry written pgdir v ≡ (if same_page v va then w else entry s pgdir v)
  entry-written v = elim (ℕ_discrete (pdx v) (pdx va)) [
    | yes q ↦ same_table v q
    | no n ↦ other_table v n
  ]

  pub Tables-written : Tables pgdir written
  Tables-written = record {
    free_fit = subst (All (λ f. f < 2 ^ 20)) (sym free_same) t.free_fit;
    free_once = λ f. ground (arith, ap (count (λ g. g == f)) free_same, t.free_once f);
    dir_taken = ap (count (λ g. g == pgdir)) free_same ∙ t.dir_taken;
    taken = λ d h pr.
        ap₂ (λ x y. count (λ g. g == frame_of x) y) (dir_kept d) free_same
        ∙ t.taken d h (ap is_present (sym (dir_kept d)) ∙ pr);
    not_dir = λ d h pr e.
        t.not_dir d h (ap is_present (sym (dir_kept d)) ∙ pr) (ap frame_of (sym (dir_kept d)) ∙ e);
    apart = λ d e h h' pr pr' q.
        t.apart d e h h' (ap is_present (sym (dir_kept d)) ∙ pr)
          (ap is_present (sym (dir_kept e)) ∙ pr')
          (ap frame_of (sym (dir_kept d)) ∙ (q ∙ ap frame_of (dir_kept e)));
  }
    where
      free_same : written.free ≡ s.free
      free_same = free-set_word s (table_at s pgdir (pdx va)) (ptx va) w
