-- ===== src/Vm/Rounds.antt =====
-- vm.c: the rounds of the loop of mappages, and what a range of pages mapped means.
use Prim.Native.Nat.{bit_or}
use os192_ass2_multi_thread.Vm.Flags.{bit_or-one, bit_or-page}
use os192_ass2_multi_thread.Vm.Tables.{same_page, Tables, entry}
use os192_ass2_multi_thread.Kalloc.{pgsize}
use os192_ass2_multi_thread.Vm.Monad.{word, done, stopped, Outcome, set_word, remap, Vm, is_present}
use os192_ass2_multi_thread.Vm.Walk.{walkpgdir, map_loop, page_entry}
use os192_ass2_multi_thread.Base.{
  ℕ, some, none, true, ◌≡◌, suc, arith, false, ◌≢◌, ◌+◌, ◌%◌, ◌^◌, Bool, ◌<◌, leb, ◌/◌, ◌&&◌, ◌*◌,
  if◌then◌else◌, ltb, ◌-◌, [], ◌∙◌, ap, Bool-cases, inl, inr, refl,
}

-- The rounds of the loop, by what walkpgdir gives.
module _ (n pgdir a last pa perm : ℕ) (s t : Vm) where
  pub round_full :
      walkpgdir pgdir a true s ≡ done none t
      → map_loop (suc n) pgdir a last pa perm s ≡ done false t
  unfolding map_loop
  round_full e = ground arith

  module _ (f i : ℕ) (e : walkpgdir pgdir a true s ≡ done (some (f, i)) t) where
    pub round_remap :
        is_present (word t f i) ≡ true → map_loop (suc n) pgdir a last pa perm s ≡ stopped remap
    unfolding map_loop
    round_remap y = ground arith

    pub round_last :
        is_present (word t f i) ≡ false
        → a ≡ last
        → map_loop (suc n) pgdir a last pa perm s ≡ done true (set_word f i (page_entry pa perm) t)
    unfolding map_loop
    round_last k q = ground arith

    pub round_next :
        is_present (word t f i) ≡ false
        → a ≢ last
        → map_loop (suc n) pgdir a last pa perm s
          ≡ map_loop n pgdir
              ((a + pgsize) % 2 ^ 32)
              last
              ((pa + pgsize) % 2 ^ 32)
              perm
              (set_word f i (page_entry pa perm) t)
    unfolding map_loop
    round_next k q = ground arith

-- From `a` on, the addresses of `n` pages.
abbrev pub within : ℕ → ℕ → ℕ → Bool
within a n v = leb a v && ltb v (a + n * pgsize)

-- What mapping `n` pages from `a` on to the pages from `pa` on means.
abbrev pub Maps : ℕ → ℕ → ℕ → ℕ → ℕ → Vm → Outcome Bool → Type 0
Maps pgdir a n pa perm s (done true t) =
    Tables pgdir t
    × ((v : ℕ)
        → v < 2 ^ 32
        → entry t pgdir v ≡ (
            if within a n v
            then page_entry (pa + (v - a) / pgsize * pgsize) perm
            else entry s pgdir v))
Maps pgdir a n pa perm s (done false t) = Tables pgdir t × (t.free ≡ [])
Maps pgdir a n pa perm s (stopped e) =
    (e ≡ remap) × ((v : ℕ) × (within a n v ≡ true) × (is_present (entry s pgdir v) ≡ true))

pub same_page-within :
    (v a : ℕ) → v < 2 ^ 32 → a < 2 ^ 32 → a % pgsize ≡ 0 → same_page v a ≡ within a 1 v
same_page-within v a h l e = ground arith

pub page_entry_lem :
    (pa perm : ℕ) → pa % pgsize ≡ 0 → perm < pgsize → page_entry pa perm ≡ (pa + perm) / 2 * 2 + 1
page_entry_lem pa perm e h =
    bit_or-one (bit_or pa perm)
    ∙ ap (λ x. x / 2 * 2 + 1)
        (ap (λ p. bit_or p perm) (omega arith) ∙ (bit_or-page (pa / 4096) perm h ∙ omega arith))

-- The ranges of the first page and of the others make up the range of all.
pub first_page :
    (g : ℕ → ℕ) (a pa v x : ℕ)
    → (if within a 1 v then g pa else x)
      ≡ (if within a 1 v then g (pa + (v - a) / pgsize * pgsize) else x)
first_page g a pa v x = elim (Bool-cases (within a 1 v)) [
  | inl y ↦ rw y (ap g (ground arith))
  | inr n ↦ rw n refl
]

pub more_pages :
    (g : ℕ → ℕ) (a pa n v x : ℕ)
    → (if within (a + pgsize) n v
        then g (pa + pgsize + (v - (a + pgsize)) / pgsize * pgsize)
        else if within a 1 v
        then g pa
        else x)
      ≡ (if within a (suc n) v then g (pa + (v - a) / pgsize * pgsize) else x)
more_pages g a pa n v x = elim (Bool-cases (within a 1 v)) [
  | inl y ↦
      let rest : within (a + pgsize) n v ≡ false = ground arith in
      let all : within a (suc n) v ≡ true = ground arith in rw (y, rest, all) (ap g (ground arith))
  | inr k ↦ elim (Bool-cases (within (a + pgsize) n v)) [
    | inl y ↦
        let all : within a (suc n) v ≡ true = ground arith in rw (k, y, all) (ap g (ground arith))
    | inr l ↦ let all : within a (suc n) v ≡ false = ground arith in rw (k, l, all) refl
  ]
]
