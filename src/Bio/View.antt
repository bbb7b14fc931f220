-- ===== src/Bio/View.antt =====
-- bio.c: the blocks as the callers of bread see them, whether they are cached or not.
use os192_ass2_multi_thread.Base.{
  List, ℕ, get_elem?, ◌∷◌, if◌then◌else◌, ◌≡◌, ◌&&◌, arith, some, true, [], ◌≤◌, refl, modify, suc,
  zero, ◌==◌, false, count, All, count_pos,
}
use os192_ass2_multi_thread.Bio.{Bio, Buf, holds, take_out, is_free}

-- The content of a block of disk 1: that of a valid buffer for it, or the disk's.
abbrev pub view_in : List Buf → (ℕ → ℕ) → ℕ → ℕ
view_in [] disk a = disk a
view_in (b ∷ bs) disk a = if holds 1 a b && b.valid then b.contents else view_in bs disk a

abbrev pub view : Bio → ℕ → ℕ
view s = view_in s.bufs s.disk

-- What one buffer says of a block.
abbrev pub local : Buf → (ℕ → ℕ) → ℕ → ℕ
local b disk a = if holds 1 a b && b.valid then b.contents else disk a

pub view_in_uncached :
    (bs : List Buf) (disk : ℕ → ℕ) (a : ℕ) → count (holds 1 a) bs ≡ 0 → view_in bs disk a ≡ disk a
view_in_uncached [] disk a h = refl
view_in_uncached (b ∷ bs) disk a h = ground (arith, view_in_uncached bs disk a)

-- The only buffer for a block says what the view says.
pub view_in-local :
    (bs : List Buf) (disk : ℕ → ℕ) (a i : ℕ) (b : Buf)
    → get_elem? bs i ≡ some b
    → holds 1 a b ≡ true
    → count (holds 1 a) bs ≤ 1
    → view_in bs disk a ≡ local b disk a
view_in-local [] disk a i b e h c = ground arith
view_in-local (x ∷ bs) disk a zero b e h c = ground (arith, view_in_uncached bs disk a)
view_in-local (x ∷ bs) disk a (suc i) b e h c =
    ground (arith, view_in-local bs disk a i b, count_pos (holds 1 a) bs i b)

-- An update of one buffer that says the same of a block before and after.
pub view_in-modify :
    (bs : List Buf) (disk : ℕ → ℕ) (a i : ℕ) (f : Buf → Buf) (b : Buf)
    → get_elem? bs i ≡ some b
    → local (f b) disk a ≡ local b disk a
    → count (holds 1 a) bs ≤ 1
    → count (holds 1 a) (modify bs i f) ≤ 1
    → view_in (modify bs i f) disk a ≡ view_in bs disk a
view_in-modify [] disk a i f b e l c d = refl
view_in-modify (x ∷ bs) disk a zero f b e l c d = ground (arith, view_in_uncached bs disk a)
view_in-modify (x ∷ bs) disk a (suc i) f b e l c d = ground (arith, view_in-modify bs disk a i f b)

-- The order of the buffers does not matter.
pub view_in-take_out :
    (bs : List Buf) (disk : ℕ → ℕ) (a i : ℕ) (b c : Buf)
    → get_elem? bs i ≡ some b
    → c.dev ≡ b.dev
    → c.blockno ≡ b.blockno
    → c.valid ≡ b.valid
    → c.contents ≡ b.contents
    → count (holds 1 a) bs ≤ 1
    → view_in (c ∷ take_out bs i) disk a ≡ view_in bs disk a
view_in-take_out [] disk a i b c e p q r s h = ground arith
view_in-take_out (x ∷ bs) disk a zero b c e p q r s h = ground arith
view_in-take_out (x ∷ bs) disk a (suc i) b c e p q r s h =
    ground (arith, view_in-take_out bs disk a i b c, count_pos (holds 1 a) bs i b)

-- What holds of each buffer: a free one that is valid is a copy of the disk, and one that was not
-- read is not dirty.
pub record Sound (disk : ℕ → ℕ) (b : Buf) : Type 0 where
  pub clean : is_free b ≡ true → b.valid ≡ true → b.dev ≡ 1 → b.contents ≡ disk b.blockno
  pub fresh : b.valid ≡ false → b.dirty ≡ false

pub record CacheIsValid (s : Bio) : Type 0 where
  pub single : (a : ℕ) → count (holds 1 a) s.bufs ≤ 1
  pub ids : (id : ℕ) → count (λ (b : Buf). b.id == id) s.bufs ≤ 1
  pub sound : All (Sound s.disk) s.bufs
