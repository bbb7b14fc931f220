-- ===== src/Fs/Directory.antt =====
-- fs.c: directories, files of 16-byte entries: an inode number and a name of 14 bytes.
pub mod Search
use os192_ass2_multi_thread.Fs.Content.{writei, readi}
use os192_ass2_multi_thread.Fs.Inodes.{iget, iput}
use os192_ass2_multi_thread.Fs.{
  F, FsPanic, stop, ◌>>◌, ◌>>=◌, inode_at, out_of_fuel, pure, dirlookup_not_dir, dirlink_read,
  dirlookup_read, dirlink_panic, bad_pointer,
}
use os192_ass2_multi_thread.Strings.{strncmp, strncpy}
use os192_ass2_multi_thread.Base.{
  ℕ, List, Option, Bool, not, ◌==◌, some, ◌&&◌, pos, ◌+◌, ◌-◌, none, drop, true, length, ◌/◌, suc,
  false, ◌*◌, ltb, zero, ◌%◌, ◌∷◌,
}

-- `DIRSIZ`, `T_DIR`, `sizeof(struct dirent)`
abbrev pub dirsiz : ℕ
dirsiz = 14

abbrev pub t_dir : ℕ
t_dir = 1

abbrev pub dirent_size : ℕ
dirent_size = 16

-- The fields of an entry that was read.
abbrev pub entry_inum : List ℕ → ℕ
entry_inum (a ∷ b ∷ name) = a + 256 * b
entry_inum _ = 0

-- `namecmp(s, t) == 0`
abbrev pub same_name : List ℕ → List ℕ → Bool
same_name s t = elim (strncmp s t dirsiz) [ some (pos zero) ↦ true | _ ↦ false ]

abbrev pub is_entry_for : List ℕ → List ℕ → Bool
is_entry_for name de = not (entry_inum de == 0) && same_name name (drop 2 de)

module _ (devsw_read : ℕ → Option (ℕ → ℕ → F (Option (List ℕ))))
    (devsw_write : ℕ → Option (ℕ → List ℕ → F (Option ℕ))) where
  -- `readi(dp, &de, off, sizeof(de))`, with the panic on another count.
  unfoldable pub read_entry : FsPanic → ℕ → ℕ → F (List ℕ)
  unfolding readi
  read_entry e i off = do
    r ← readi devsw_read devsw_write i off dirent_size
    elim r [
      | none ↦ stop e
      | some de ↦ elim (length de == dirent_size) [ true ↦ pure de | false ↦ stop e ]
    ]

  -- The first entry from `off` on that passes a test, with `n` to go.
  unfoldable pub find_entry : (List ℕ → Bool) → FsPanic → ℕ → ℕ → ℕ → ℕ → F (Option (List ℕ × ℕ))
  unfolding read_entry
  find_entry p e zero i size off = stop out_of_fuel
  find_entry p e (suc n) i size off = elim (ltb off size) [
    | false ↦ pure none
    | true ↦ do
      de ← read_entry e i off
      elim (p de) [
        | true ↦ pure (some (de, off))
        | false ↦ find_entry p e n i size (off + dirent_size)
      ]
  ]

  unfoldable pub dirlookup : ℕ → List ℕ → F (Option (ℕ × ℕ))
  unfolding find_entry iget
  dirlookup i name = do
    dp ← inode_at i
    elim (dp.type == t_dir) [
      | false ↦ stop dirlookup_not_dir
      | true ↦ do
        r ← find_entry (is_entry_for name) dirlookup_read (dp.size / dirent_size + 2) i dp.size 0
        elim r [
          | none ↦ pure none
          | some (de, off) ↦ do j ← iget dp.dev (entry_inum de); pure (some (j, off))
        ]
    ]

  -- The offset where a new entry goes: that of the first free one, or the end.
  abbrev pub entry_offset : ℕ → Option (List ℕ × ℕ) → ℕ
  entry_offset size (some (de, off)) = off
  entry_offset size none = (size + dirent_size - 1) / dirent_size * dirent_size

  unfoldable pub dirlink : ℕ → List ℕ → ℕ → F (Option (Unit {0}))
  unfolding dirlookup find_entry writei iput strncpy
  dirlink i name inum = do
    found ← dirlookup i name
    elim found [
      | some (j, _) ↦ do iput j; pure none
      | none ↦ do
        dp ← inode_at i
        free ←
            find_entry (λ de. entry_inum de == 0) dirlink_read (dp.size / dirent_size + 2) i dp.size
              0
        elim (strncpy name dirsiz) [
          | none ↦ stop bad_pointer
          | some bytes ↦ do
            r ←
                writei devsw_read devsw_write i (entry_offset dp.size free)
                  (inum % 256 ∷ inum / 256 % 256 ∷ bytes)
            elim r [
              | none ↦ stop dirlink_panic
              | some n ↦ elim (n == dirent_size) [
                | true ↦ pure (some tt)
                | false ↦ stop dirlink_panic
              ]
            ]
        ]
    ]
