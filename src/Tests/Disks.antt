-- ===== src/Tests/Disks.antt =====
-- The theorems on the file system applied to a small disk.
use os192_ass2_multi_thread.Fs.Inodes.Disk.{Fits, to_disk-from_disk, stored_in}
use Prim.Native.Nat.{min}
use os192_ass2_multi_thread.Fs.Bitmap.Allocation.{balloc_lem}
use os192_ass2_multi_thread.Fs.Content.Reads.{bytes_from}
use os192_ass2_multi_thread.Fs.Paths.Elements.{Parts, skipelem_lem}
use os192_ass2_multi_thread.Fs.Content.Transfer.{writei-readi, readi_lem}
use os192_ass2_multi_thread.Fs.Paths.{skipelem, slash}
use os192_ass2_multi_thread.Fs.Content.{writei, readi}
use os192_ass2_multi_thread.Fs.Bitmap.Marks.{map_block, AreBytes, used}
use os192_ass2_multi_thread.Fs.Inodes.{iget, matches, is_empty, from_disk, to_disk, dinode_at}
use os192_ass2_multi_thread.Fs.Bitmap.{balloc}
use os192_ass2_multi_thread.Fs.Content.Mapping.{Mapped, block_of, content}
use os192_ass2_multi_thread.Fs.Inodes.Cache.{OneEach, Entry, iget_lem}
use os192_ass2_multi_thread.Fs.{Fs, Inode, bsize, done, stopped, F, out_of_blocks, iget_no_inodes}
use os192_ass2_multi_thread.Base.{
  zero, ℕ, arith, ◌*◌, if◌then◌else◌, true, ◌∷◌, [], ◌==◌, refl, replicate, ◌%◌, ◌<◌, ◌≡◌, ◌⊎◌, inl,
  suc, inr, ◌^◌, Option, none, ◌≤◌, List, ◌+◌, some, get_elem?, false, subst, ◌||◌, sym, ◌∙◌, ◌≢◌,
  ◌-◌, find_index, All,
}

-- Block 2 is the map: blocks 0 to 2 are in use. Blocks 10 and 11 are a file's.
abbrev pub test_block : ℕ → ℕ → ℕ
test_block b a = if b == 2 then (if a == 0 then 7 else 0) else (if b == 10 then a % 256 else 0)

abbrev pub test_inode : Inode
test_inode = record {
  dev = 1;
  inum = 4;
  ref = 1;
  locked = true;
  valid = true;
  type = 2;
  major = 0;
  minor = 0;
  nlink = 1;
  size = 600;
  addrs = 10 ∷ 11 ∷ replicate 11 0;
}

abbrev pub test_fs : Fs
test_fs = record {
  sb = record { size = 20; ninodes = 10; inodestart = 1; bmapstart = 2 };
  block = test_block;
  inodes = test_inode ∷ record test_inode { ref = 0 } ∷ [];
}

test_fs-OneEach : OneEach test_fs.inodes
test_fs-OneEach dev inum = ground arith

two_blocks : (bn : ℕ) → bn * bsize < 600 → (bn ≡ 0) ⊎ (bn ≡ 1)
two_blocks zero h = inl refl
two_blocks (suc zero) h = inr refl
two_blocks (suc (suc n)) h = absurd (omega arith)

block_at : (bn : ℕ) → bn * bsize < 600 → block_of test_inode test_block bn ≡ 10 + bn
block_at bn h = elim (two_blocks bn h) [ inl e ↦ rw e refl | inr e ↦ rw e refl ]

pub test_fs-Mapped : Mapped test_fs 0 test_inode 600
test_fs-Mapped = record {
  at_place = refl;
  full = refl;
  bounded = omega arith;
  indirect = λ h. absurd (omega arith);
  there = λ bn h e. ground (arith, block_at bn h);
  apart = λ bn cn h k e. ground (arith, block_at bn h, block_at cn k);
  no_index = λ bn h e. ground (arith, block_at bn h);
}

abbrev pub no_read : ℕ → Option (ℕ → ℕ → F (Option (List ℕ)))
no_read n = none

abbrev pub no_write : ℕ → Option (ℕ → List ℕ → F (Option ℕ))
no_write n = none

writei-readi_example :
    (t : Fs) × (writei no_read no_write 0 510 (1 ∷ 2 ∷ 3 ∷ []) test_fs ≡ done (some 3) t)
    × (t.inodes ≡ test_fs.inodes)
    × (readi no_read no_write 0 510 3 t ≡ done (some (1 ∷ 2 ∷ 3 ∷ [])) t)
writei-readi_example =
    writei-readi no_read no_write test_fs 0 test_inode 510 (1 ∷ 2 ∷ 3 ∷ []) test_fs-Mapped
      (ground arith) (omega arith)

readi_lem_example :
    (((600 < 510) ⊎ (2 ^ 32 ≤ 510 + 100))
      × (readi no_read no_write 0 510 100 test_fs ≡ done none test_fs))
    ⊎ ((510 ≤ 600)
        × (510 + 100 < 2 ^ 32)
        × (readi no_read no_write 0 510 100 test_fs
            ≡ done
                (some (bytes_from (content test_inode test_block) 510 (min 100 (600 - 510))))
                test_fs))
readi_lem_example =
    readi_lem no_read no_write test_fs 0 test_inode 510 100 test_fs-Mapped (ground arith)
      (omega arith) (omega arith)

iget_lem_example :
    ((i : ℕ) × (ip jp : Inode) × (t : Fs) × (iget 1 9 test_fs ≡ done i t)
      × OneEach t.inodes
      × (get_elem? test_fs.inodes i ≡ some ip)
      × (get_elem? t.inodes i ≡ some jp)
      × Entry 1 9 test_fs ip jp
      × ((j : ℕ) → i ≢ j → get_elem? t.inodes j ≡ get_elem? test_fs.inodes j))
    ⊎ ((iget 1 9 test_fs ≡ stopped iget_no_inodes)
        × (find_index (matches 1 9) test_fs.inodes ≡ none)
        × (find_index is_empty test_fs.inodes ≡ none))
iget_lem_example = iget_lem test_fs 1 9 test_fs-OneEach

map_block_at : (b : ℕ) → b < 20 → map_block test_fs b ≡ 2
map_block_at b h = omega arith

test_fs-AreBytes : (b : ℕ) → b < 20 → AreBytes (test_block (map_block test_fs b))
test_fs-AreBytes b h a = ground (arith, map_block_at b h)

map_used : (b c : ℕ) → b < 20 → c ≡ map_block test_fs b → used test_fs c ≡ true
map_used b c h e = subst (λ x. used test_fs x ≡ true) (sym (e ∙ map_block_at b h)) refl

balloc_lem_example :
    ((balloc test_fs ≡ stopped out_of_blocks) × ((c : ℕ) → c < 20 → used test_fs c ≡ true))
    ⊎ ((x : ℕ) × (t : Fs) × (balloc test_fs ≡ done x t)
        × (x < 20)
        × (used test_fs x ≡ false)
        × ((c : ℕ) → c < x → used test_fs c ≡ true)
        × ((c : ℕ) → c < 20 → used t c ≡ (x == c || used test_fs c))
        × ((a : ℕ) → a < bsize → t.block x a ≡ 0)
        × ((c : ℕ) → c ≢ x → c ≢ map_block test_fs x → t.block c ≡ test_block c))
balloc_lem_example = balloc_lem test_fs test_fs-AreBytes map_used

skipelem_lem_example :
    ((skipelem (47 ∷ 97 ∷ 47 ∷ 98 ∷ []) ≡ none)
      × ((n : ℕ) × (47 ∷ 97 ∷ 47 ∷ 98 ∷ [] ≡ replicate n slash)))
    ⊎ ((name rest : List ℕ) × (skipelem (47 ∷ 97 ∷ 47 ∷ 98 ∷ []) ≡ some (name, rest))
        × Parts (47 ∷ 97 ∷ 47 ∷ 98 ∷ []) name rest)
skipelem_lem_example = skipelem_lem (47 ∷ 97 ∷ 47 ∷ 98 ∷ [])

-- The words of an inode without blocks.
zeros-All : (n : ℕ) → All (λ v. v < 2 ^ 32) (replicate n 0)
zeros-All zero = tt
zeros-All (suc n) = (omega arith, zeros-All n)

test_inode-Fits : Fits test_inode
test_inode-Fits = record {
  type_short = omega arith;
  major_short = omega arith;
  minor_short = omega arith;
  nlink_short = omega arith;
  size_word = omega arith;
  count = refl;
  words = (omega arith, (omega arith, zeros-All 11));
}

-- Another entry for the same inode, not read yet.
abbrev stale_inode : Inode
stale_inode = record test_inode {
  valid = false;
  type = 9;
  major = 9;
  minor = 9;
  nlink = 9;
  size = 9;
  addrs = [];
}

to_disk-from_disk_example :
    (from_disk (to_disk test_inode (test_block 10)) stale_inode ≡ stored_in test_inode stale_inode)
    × ((x : ℕ)
        → (x < dinode_at 4) ⊎ (dinode_at 4 + 64 ≤ x)
        → to_disk test_inode (test_block 10) x ≡ test_block 10 x)
to_disk-from_disk_example =
    to_disk-from_disk test_inode stale_inode (test_block 10) test_inode-Fits refl
