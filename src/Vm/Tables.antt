-- ===== src/Vm/Tables.antt =====
-- vm.c: what a page table says of each address, and what keeps its tables apart.
use native.Mathlib.Decide.{ℕ_discrete}
use os192_ass2_multi_thread.Fs.Bytes.{read32-write32, read32-write32_ne}
use os192_ass2_multi_thread.Vm.Monad.{
  word, Vm, pdx, frame_of, change, is_present, ptx, zeroed, set_word,
}
use os192_ass2_multi_thread.Base.{
  ℕ, Bool, if◌then◌else◌, ◌<◌, All, count, ◌==◌, ◌^◌, ◌&&◌, ◌≤◌, ◌≡◌, arith, true, ◌≢◌, ◌*◌, refl,
  List,
}

abbrev pub table_at : Vm → ℕ → ℕ → ℕ
table_at s pgdir d = frame_of (word s pgdir d)

-- The entry for an address, or 0 where no table is.
abbrev pub entry : Vm → ℕ → ℕ → ℕ
entry s pgdir va =
    if is_present (word s pgdir (pdx va)) then word s (table_at s pgdir (pdx va)) (ptx va) else 0

abbrev pub free_count : Vm → ℕ → ℕ
free_count s f = count (λ g. g == f) s.free

-- The directory and its tables are pages of their own, and none of them is free; no page is free twice.
pub record Tables (pgdir : ℕ) (s : Vm) : Type 0 where
  pub free_fit : All (λ f. f < 2 ^ 20) s.free
  pub free_once : (f : ℕ) → free_count s f ≤ 1
  pub dir_taken : free_count s pgdir ≡ 0
  pub taken :
      (d : ℕ)
      → d < 1024
      → is_present (word s pgdir d) ≡ true
      → free_count s (table_at s pgdir d) ≡ 0
  pub not_dir : (d : ℕ) → d < 1024 → is_present (word s pgdir d) ≡ true → table_at s pgdir d ≢ pgdir
  pub apart :
      (d e : ℕ)
      → d < 1024
      → e < 1024
      → is_present (word s pgdir d) ≡ true
      → is_present (word s pgdir e) ≡ true
      → table_at s pgdir d ≡ table_at s pgdir e
      → d ≡ e

pub word-set_word :
    (s : Vm) (f i w g j : ℕ)
    → w < 2 ^ 32
    → word (set_word f i w s) g j ≡ (if g == f && j == i then w else word s g j)
unfolding word set_word
word-set_word s f i w g j h = elim (ℕ_discrete g f) [
  | no n ↦ ground arith
  | yes e ↦ elim (ℕ_discrete j i) [
    | yes e' ↦ ground (arith, read32-write32 (s.mem f) (4 * i) w)
    | no n ↦ ground (arith, read32-write32_ne (s.mem f) (4 * i) (4 * j) w)
  ]
]

pub word-zeroed :
    (s : Vm) (f g j : ℕ)
    → j < 1024
    → word (change f (zeroed (s.mem f)) s) g j ≡ (if g == f then 0 else word s g j)
unfolding word
word-zeroed s f g j h = ground arith

-- Two addresses in one page.
abbrev pub same_page : ℕ → ℕ → Bool
same_page v va = pdx v == pdx va && ptx v == ptx va

pub free-set_word : (s : Vm) (f i w : ℕ) → (set_word f i w s).free ≡ s.free
unfolding set_word
free-set_word s f i w = refl

pub word-free : (s : Vm) (l : List ℕ) (g j : ℕ) → word (record s { free = l }) g j ≡ word s g j
unfolding word
word-free s l g j = refl
