-- ===== src/Fs/Paths.antt =====
-- fs.c: path names, as lists of bytes without the NUL at their end.
pub mod Elements
-- `ROOTDEV`, `ROOTINO`
use os192_ass2_multi_thread.Fs.Directory.{dirsiz, dirlookup, t_dir}
use os192_ass2_multi_thread.Fs.Inodes.{ilock, iget, idup, iunlock, iunlockput, iput}
use os192_ass2_multi_thread.Fs.{F, ◌>>=◌, ◌>>◌, stop, out_of_fuel, pure, inode_at}
use os192_ass2_multi_thread.Base.{
  List, ℕ, ◌∷◌, Bool, Option, if◌then◌else◌, leb, ◌==◌, true, [], none, false, some, length, take,
  ◌+◌, ◌++◌, suc, ◌&&◌, zero,
}

abbrev pub rootdev : ℕ
rootdev = 1

abbrev pub rootino : ℕ
rootino = 1

abbrev pub slash : ℕ
slash = 47

unfoldable pub skip_slashes : List ℕ → List ℕ
skip_slashes [] = []
skip_slashes (c ∷ cs) = let rest = skip_slashes cs in if c == slash then rest else c ∷ cs

-- The bytes before the next slash, and those from it on.
unfoldable pub element : List ℕ → List ℕ
element [] = []
element (c ∷ cs) = let rest = element cs in if c == slash then [] else c ∷ rest

unfoldable pub behind : List ℕ → List ℕ
behind [] = []
behind (c ∷ cs) = let rest = behind cs in if c == slash then c ∷ cs else rest

-- What skipelem leaves in `name`, up to the NUL that it writes if there is room.
abbrev pub kept : List ℕ → List ℕ
kept e = if leb dirsiz (length e) then take dirsiz e else e ++ (0 ∷ [])

-- skipelem: the name, and the path behind it.
unfoldable pub skipelem : List ℕ → Option (List ℕ × List ℕ)
unfolding skip_slashes element behind
skipelem path = elim (skip_slashes path) [
  | [] ↦ none
  | c ∷ cs ↦ some (kept (element (c ∷ cs)), skip_slashes (behind (c ∷ cs)))
]

abbrev pub is_end : List ℕ → Bool
is_end [] = true
is_end (c ∷ cs) = false

module _ (devsw_read : ℕ → Option (ℕ → ℕ → F (Option (List ℕ))))
    (devsw_write : ℕ → Option (ℕ → List ℕ → F (Option ℕ))) where
  -- The loop of namex, with the name that skipelem left last.
  unfoldable pub namex_loop : ℕ → Bool → ℕ → List ℕ → List ℕ → F (Option (ℕ × List ℕ))
  unfolding skipelem ilock iunlock iunlockput iput dirlookup
  namex_loop zero parent i path name = stop out_of_fuel
  namex_loop (suc n) parent i path name = elim (skipelem path) [
    | none ↦ elim parent [ true ↦ do iput i; pure none | false ↦ pure (some (i, name)) ]
    | some (elem, rest) ↦ do
      ilock i
      ip ← inode_at i
      elim (ip.type == t_dir) [
        | false ↦ do iunlockput i; pure none
        | true ↦ elim (parent && is_end rest) [
          | true ↦ do iunlock i; pure (some (i, elem))
          | false ↦ do
            r ← dirlookup devsw_read devsw_write i elem
            elim r [
              | none ↦ do iunlockput i; pure none
              | some (j, _) ↦ do iunlockput i; namex_loop n parent j rest elem
            ]
        ]
      ]
  ]

  -- namex of a process whose directory is inode `cwd`.
  unfoldable pub namex : ℕ → Bool → List ℕ → F (Option (ℕ × List ℕ))
  unfolding namex_loop iget idup
  namex cwd parent [] = do i ← idup cwd; namex_loop 1 parent i [] []
  namex cwd parent (c ∷ cs) = do
    i ← elim (c == slash) [ true ↦ iget rootdev rootino | false ↦ idup cwd ]
    namex_loop (length cs + 2) parent i (c ∷ cs) []
