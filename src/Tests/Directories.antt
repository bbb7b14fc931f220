-- ===== src/Tests/Directories.antt =====
-- The theorems on files and directories applied to inodes of the small disk.
use os192_ass2_multi_thread.Tests.Disks.{
  test_block, test_inode, test_fs, test_fs-Mapped, no_read, no_write,
}
use os192_ass2_multi_thread.Fs.Files.{File, fd_inode, filewrite, fileread}
use os192_ass2_multi_thread.Fs.Files.Locking.{IsReady, Writes}
use os192_ass2_multi_thread.Fs.Files.Reading.{filewrite-fileread}
use os192_ass2_multi_thread.Fs.Directory.{dirlookup, is_entry_for}
use os192_ass2_multi_thread.Fs.Directory.Search.{dirlookup_lem, answer, Searched, entry_at}
use os192_ass2_multi_thread.Fs.Content.Mapping.{Mapped, block_of}
use os192_ass2_multi_thread.Fs.Content.Reads.{bytes_from}
use os192_ass2_multi_thread.Fs.{Fs, Inode, F, done, bsize}
use os192_ass2_multi_thread.Base.{
  ℕ, List, Option, ◌≡◌, refl, arith, some, none, ◌∷◌, [], false, true, ◌*◌, ◌<◌,
}

abbrev opened_inode : Inode
opened_inode = record test_inode { locked = false }

abbrev open_fs : Fs
open_fs = record test_fs { inodes = opened_inode ∷ [] }

open_fs-IsReady : IsReady open_fs 0 opened_inode
open_fs-IsReady = record {
  mapped = record {
    at_place = refl;
    full = refl;
    bounded = test_fs-Mapped.bounded;
    indirect = test_fs-Mapped.indirect;
    there = test_fs-Mapped.there;
    apart = test_fs-Mapped.apart;
    no_index = test_fs-Mapped.no_index;
  };
  no_device = λ e. omega arith;
  held = omega arith;
  unlocked = refl;
  read = refl;
}

abbrev open_file : File
open_file = record {
  type = fd_inode;
  readable = true;
  writable = true;
  pipe = 0;
  ip = 0;
  off = 510;
}

abbrev no_pipe_read : ℕ → ℕ → F (Option (List ℕ))
no_pipe_read p n s = done none s

abbrev no_pipe_write : ℕ → List ℕ → F (Option ℕ)
no_pipe_write p bytes s = done none s

filewrite-fileread_example :
    (t : Fs) × (g : File) × (filewrite no_read no_write no_pipe_read no_pipe_write open_file
        (7 ∷ 8 ∷ 9 ∷ [])
        open_fs
      ≡ done (some 3, g) t)
    × (fileread no_read no_write no_pipe_read no_pipe_write open_file 3 t
        ≡ done (some (7 ∷ 8 ∷ 9 ∷ []), g) t)
    × Writes open_fs 0 opened_inode 510 (7 ∷ 8 ∷ 9 ∷ []) t
filewrite-fileread_example =
    filewrite-fileread no_read no_write no_pipe_read no_pipe_write open_fs opened_inode open_file
      (7 ∷ 8 ∷ 9 ∷ []) open_fs-IsReady refl refl refl (omega arith)

-- Two entries in block 10.
abbrev directory : Inode
directory = record test_inode { type = 1; size = 32 }

abbrev directory_fs : Fs
directory_fs = record test_fs { inodes = directory ∷ record test_inode { ref = 0 } ∷ [] }

one_block : (bn : ℕ) → bn * bsize < 32 → bn ≡ 0
one_block bn h = omega arith

block_10 : (bn : ℕ) → bn * bsize < 32 → block_of directory test_block bn ≡ 10
block_10 bn h = rw (one_block bn h) refl

directory_fs-Mapped : Mapped directory_fs 0 directory 32
directory_fs-Mapped = record {
  at_place = refl;
  full = refl;
  bounded = omega arith;
  indirect = λ h. absurd (omega arith);
  there = λ bn h e. ground (arith, block_10 bn h);
  apart = λ bn cn h k e. omega arith;
  no_index = λ bn h e. ground (arith, block_10 bn h);
}

-- The name of the second entry.
abbrev second_name : List ℕ
second_name = bytes_from (λ a. a) 18 14

dirlookup_lem_example :
    (r : Option (List ℕ × ℕ)) × (dirlookup no_read no_write 0 second_name directory_fs
      ≡ answer directory r directory_fs)
    × Searched (entry_at directory directory_fs) (is_entry_for second_name) 0 2 r
dirlookup_lem_example =
    dirlookup_lem no_read no_write directory_fs 0 directory directory_fs-Mapped refl 2 refl
      second_name
