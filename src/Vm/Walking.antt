-- ===== src/Vm/Walking.antt =====
-- vm.c: walkpgdir on an entry that is there and on a new table.
use native.Mathlib.Decide.{ℕ_discrete}
use os192_ass2_multi_thread.Vm.Flags.{bit_or-page}
use os192_ass2_multi_thread.Vm.Tables.{
  Tables, entry, word-set_word, word-zeroed, table_at, word-free, free_count,
}
use os192_ass2_multi_thread.Vm.Walk.{table_entry}
use os192_ass2_multi_thread.Vm.Monad.{
  word, Vm, set_word, change, zeroed, is_present, pdx, ptx, frame_of,
}
use os192_ass2_multi_thread.Base.{
  ℕ, List, ◌≡◌, ◌*◌, ◌+◌, ◌∷◌, ◌<◌, arith, false, ◌≢◌, if◌then◌else◌, subst, ◌==◌, count, ◌&&◌, ◌∙◌,
  true, All, ◌^◌, refl, sym, ap, ◌⊎◌, inl, Bool-cases, inr,
}

-- The state with a new table in frame `p`.
unfoldable pub with_table : ℕ → ℕ → ℕ → List ℕ → Vm → Vm
with_table pgdir d p ps s =
    set_word pgdir d (table_entry p) (change p (zeroed (s.mem p)) (record s { free = ps }))

table_entry_lem : (p : ℕ) → table_entry p ≡ p * 4096 + 7
table_entry_lem p = bit_or-page p 7 (omega arith)

module _ (pgdir d p : ℕ) (ps : List ℕ) (s : Vm) (t : Tables pgdir s) (e : s.free ≡ p ∷ ps)
    (dsmall : d < 1024) (absent : is_present (word s pgdir d) ≡ false) where
  other : p ≢ pgdir
  other = ground (arith, subst (λ l. count (λ g. g == pgdir) l ≡ 0) e t.dir_taken)

  word-with_table :
      (g j : ℕ)
      → j < 1024
      → word (with_table pgdir d p ps s) g j
        ≡ (if g == pgdir && j == d then p * 4096 + 7 else if g == p then 0 else word s g j)
  unfolding with_table
  word-with_table g j h =
      let s' = record s { free = ps } in
      ground (
        arith,
        word-set_word (change p (zeroed (s.mem p)) s') pgdir d (table_entry p) g j,
        word-zeroed s' p g j h,
        word-free s ps g j,
        table_entry_lem p,
        subst (All (λ f. f < 2 ^ 20)) e t.free_fit,
      )

  pub new_here : word (with_table pgdir d p ps s) pgdir d ≡ p * 4096 + 7
  new_here = word-with_table pgdir d dsmall ∙ ground arith

  old_there : (k : ℕ) → k < 1024 → k ≢ d → word (with_table pgdir d p ps s) pgdir k ≡ word s pgdir k
  old_there k h ne = word-with_table pgdir k h ∙ ground (arith, other)

  -- A table that was there is not the new one.
  table_kept : (k : ℕ) → k < 1024 → is_present (word s pgdir k) ≡ true → table_at s pgdir k ≢ p
  table_kept k h pr =
      ground (arith, subst (λ l. count (λ g. g == table_at s pgdir k) l ≡ 0) e (t.taken k h pr))

  -- The directory's entry `k` in the new state: the new one, or the old one.
  dir_entry :
      (k : ℕ)
      → k < 1024
      → ((k ≡ d) × (word (with_table pgdir d p ps s) pgdir k ≡ p * 4096 + 7))
        ⊎ (k ≢ d) × (word (with_table pgdir d p ps s) pgdir k ≡ word s pgdir k)
  dir_entry k h = elim (ℕ_discrete k d) [
    | yes q ↦ inl (q, ap (word (with_table pgdir d p ps s) pgdir) q ∙ new_here)
    | no n ↦ inr (n, old_there k h n)
  ]

  entry_in_new :
      (v : ℕ)
      → pdx v ≡ d
      → word (with_table pgdir d p ps s) pgdir (pdx v) ≡ p * 4096 + 7
      → entry (with_table pgdir d p ps s) pgdir v ≡ entry s pgdir v
  entry_in_new v q a =
      let fr : table_at (with_table pgdir d p ps s) pgdir (pdx v) ≡ p = ground arith in
      ground (
        arith,
        ap (λ f. word (with_table pgdir d p ps s) f (ptx v)) fr,
        word-with_table p (ptx v) (omega arith),
        other,
        ap (word s pgdir) q,
        absent,
      )

  entry_in_old :
      (v : ℕ)
      → word (with_table pgdir d p ps s) pgdir (pdx v) ≡ word s pgdir (pdx v)
      → entry (with_table pgdir d p ps s) pgdir v ≡ entry s pgdir v
  entry_in_old v a = elim (Bool-cases (is_present (word s pgdir (pdx v)))) [
    | inr n ↦ ground (arith)
    | inl y ↦ ground (
      arith,
      word-with_table (table_at s pgdir (pdx v)) (ptx v) (omega arith),
      ap (λ w. word (with_table pgdir d p ps s) (frame_of w) (ptx v)) a,
      table_kept (pdx v) (omega arith) y,
      t.not_dir (pdx v) (omega arith) y,
    )
  ]

  pub entry-with_table : (v : ℕ) → entry (with_table pgdir d p ps s) pgdir v ≡ entry s pgdir v
  entry-with_table v = elim (dir_entry (pdx v) (omega arith)) [
    | inl (q, a) ↦ entry_in_new v q a
    | inr (n, a) ↦ entry_in_old v a
  ]

  free-with_table : (with_table pgdir d p ps s).free ≡ ps
  unfolding with_table set_word
  free-with_table = refl

  free_count-with_table :
      (f : ℕ)
      → free_count s f ≡ (if p == f then 1 else 0) + free_count (with_table pgdir d p ps s) f
  free_count-with_table f =
      ground (arith, ap (count (λ g. g == f)) e, ap (count (λ g. g == f)) free-with_table)

  taken-with_table :
      (k : ℕ)
      → k < 1024
      → is_present (word (with_table pgdir d p ps s) pgdir k) ≡ true
      → free_count (with_table pgdir d p ps s) (table_at (with_table pgdir d p ps s) pgdir k) ≡ 0
  taken-with_table k h pr = elim (dir_entry k h) [
    | inl (q, a) ↦
        let fr : table_at (with_table pgdir d p ps s) pgdir k ≡ p = ground arith in
        subst (λ f. free_count (with_table pgdir d p ps s) f ≡ 0) (sym fr)
          (ground (arith, free_count-with_table p, t.free_once p))
    | inr (n, a) ↦
        let fr : table_at (with_table pgdir d p ps s) pgdir k ≡ table_at s pgdir k =
          ap frame_of a in
        subst (λ f. free_count (with_table pgdir d p ps s) f ≡ 0) (sym fr)
          (ground (
            arith,
            free_count-with_table (table_at s pgdir k),
            t.taken k h (ap is_present (sym a) ∙ pr),
          ))
  ]

  apart-with_table :
      (k l : ℕ)
      → k < 1024
      → l < 1024
      → is_present (word (with_table pgdir d p ps s) pgdir k) ≡ true
      → is_present (word (with_table pgdir d p ps s) pgdir l) ≡ true
      → table_at (with_table pgdir d p ps s) pgdir k ≡ table_at (with_table pgdir d p ps s) pgdir l
      → k ≡ l
  apart-with_table k l h h' pr pr' same = elim (dir_entry k h) [
    | inl (q, a) ↦ elim (dir_entry l h') [
      | inl (q', b) ↦ q ∙ sym q'
      | inr (n, b) ↦ absurd (table_kept l h' (ap is_present (sym b) ∙ pr') (ground arith))
    ]
    | inr (n, a) ↦ elim (dir_entry l h') [
      | inl (q', b) ↦ absurd (table_kept k h (ap is_present (sym a) ∙ pr) (ground arith))
      | inr (n', b) ↦
          t.apart k l h h' (ap is_present (sym a) ∙ pr) (ap is_present (sym b) ∙ pr')
            (ap frame_of (sym a) ∙ (same ∙ ap frame_of b))
    ]
  ]

  pub Tables-with_table : Tables pgdir (with_table pgdir d p ps s)
  Tables-with_table = record {
    free_fit =
        subst (All (λ f. f < 2 ^ 20)) (sym free-with_table)
          (subst (All (λ f. f < 2 ^ 20)) e t.free_fit).1;
    free_once = λ f. ground (arith, free_count-with_table f, t.free_once f);
    dir_taken = ground (arith, free_count-with_table pgdir, t.dir_taken);
    taken = taken-with_table;
    not_dir = λ k h pr. elim (dir_entry k h) [
      | inl (q, a) ↦ ground (arith, other)
      | inr (n, a) ↦ ground (arith, t.not_dir k h (ap is_present (sym a) ∙ pr))
    ];
    apart = apart-with_table;
  }
