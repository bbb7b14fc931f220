-- ===== src/Fs/Calls.antt =====
-- sysfile.c: the system calls on links and directories, behind their arguments; each is one transaction of the log.
-- A result false, or none, is -1.
use mathlib.Core.Option
use os192_ass2_multi_thread.Fs.Content.{t_dev, writei}
use os192_ass2_multi_thread.Fs.Directory.{
  dirlink, find_entry, t_dir, dirlookup, entry_inum, same_name, dirent_size,
}
use os192_ass2_multi_thread.Fs.Paths.{namex}
use os192_ass2_multi_thread.Fs.Inodes.{iunlockput, ilock, ialloc, iunlock, iupdate, iput}
use os192_ass2_multi_thread.Fs.{
  F, ◌>>=◌, ◌>>◌, pure, stop, Inode, FsPanic, inode_at, update_inode, isdirempty_readi, create_dots,
  create_dirlink, unlink_nlink, unlink_writei,
}
use os192_ass2_multi_thread.Base.{
  ℕ, List, Option, Bool, ◌∷◌, ◌/◌, [], ◌+◌, false, true, ◌%◌, none, not, ◌^◌, ◌-◌, ◌==◌, some, ◌&&◌,
  ◌||◌, leb, ◌*◌, replicate,
}

-- `T_FILE`, O_WRONLY, O_RDWR and O_CREATE
abbrev pub t_file : ℕ
t_file = 2

-- "." and ".."
abbrev pub dot : List ℕ
dot = 46 ∷ 0 ∷ []

abbrev pub dot_dot : List ℕ
dot_dot = 46 ∷ 46 ∷ 0 ∷ []

-- `ip->nlink++` and `ip->nlink--`, of a short.
abbrev pub one_more_link : Inode → Inode
one_more_link ip = record ip { nlink = (ip.nlink + 1) % 2 ^ 16 }

abbrev pub one_less_link : Inode → Inode
one_less_link ip = record ip { nlink = (ip.nlink + 2 ^ 16 - 1) % 2 ^ 16 }

-- The functions of the devices, and the directory of the process.
module _ (devsw_read : ℕ → Option (ℕ → ℕ → F (Option (List ℕ))))
    (devsw_write : ℕ → Option (ℕ → List ℕ → F (Option ℕ))) (cwd : ℕ) where
  unfoldable pub namei : List ℕ → F (Option ℕ)
  unfolding namex
  namei path = do r ← namex devsw_read devsw_write cwd false path; pure (Option.map (λ p. p.0) r)

  unfoldable pub nameiparent : List ℕ → F (Option (ℕ × List ℕ))
  unfolding namex
  nameiparent path = namex devsw_read devsw_write cwd true path

  -- sys_link behind the label bad.
  unfoldable pub unlinked : ℕ → F Bool
  unfolding ilock iupdate iunlockput
  unlinked i = do ilock i; update_inode i one_less_link; iupdate i; iunlockput i; pure false

  unfoldable pub sys_link : List ℕ → List ℕ → F Bool
  unfolding namei nameiparent ilock iunlock iunlockput iupdate iput dirlink unlinked
  sys_link old new = do
    r ← namei old
    elim r [
      | none ↦ pure false
      | some i ↦ do
        ilock i
        ip ← inode_at i
        elim (ip.type == t_dir) [
          | true ↦ do iunlockput i; pure false
          | false ↦ do
            update_inode i one_more_link
            iupdate i
            iunlock i
            r ← nameiparent new
            elim r [
              | none ↦ unlinked i
              | some (d, name) ↦ do
                ilock d
                dp ← inode_at d
                elim (dp.dev == ip.dev) [
                  | false ↦ do iunlockput d; unlinked i
                  | true ↦ do
                    ok ← dirlink devsw_read devsw_write d name ip.inum
                    elim ok [
                      | none ↦ do iunlockput d; unlinked i
                      | some _ ↦ do iunlockput d; iput i; pure true
                    ]
                ]
            ]
        ]
    ]

  -- Whether a directory has no entry behind the first two.
  unfoldable pub isdirempty : ℕ → F Bool
  unfolding find_entry
  isdirempty i = do
    dp ← inode_at i
    r ←
        find_entry devsw_read devsw_write (λ de. not (entry_inum de == 0)) isdirempty_readi
          (dp.size / dirent_size + 2) i dp.size (2 * dirent_size)
    elim r [ none ↦ pure true | some _ ↦ pure false ]

  -- sys_unlink once the entry is found, at `off` in the directory `d`.
  unfoldable pub unlink_entry : ℕ → ℕ → ℕ → F Bool
  unfolding ilock iunlockput iupdate isdirempty writei
  unlink_entry d i off = do
    ilock i
    ip ← inode_at i
    elim (ip.nlink == 0 || leb (2 ^ 15) ip.nlink) [
      | true ↦ stop unlink_nlink
      | false ↦ do
        kept ← elim (ip.type == t_dir) [
          | false ↦ pure false
          | true ↦ do empty ← isdirempty i; pure (not empty)
        ]
        elim kept [
          | true ↦ do iunlockput i; iunlockput d; pure false
          | false ↦ do
            r ← writei devsw_read devsw_write d off (replicate dirent_size 0)
            elim r [
              | none ↦ stop unlink_writei
              | some n ↦ elim (n == dirent_size) [
                | false ↦ stop unlink_writei
                | true ↦ do
                  elim (ip.type == t_dir) [
                    | true ↦ do update_inode d one_less_link; iupdate d
                    | false ↦ pure tt
                  ]
                  iunlockput d
                  update_inode i one_less_link
                  iupdate i
                  iunlockput i
                  pure true
              ]
            ]
        ]
    ]

  unfoldable pub sys_unlink : List ℕ → F Bool
  unfolding nameiparent ilock iunlockput dirlookup unlink_entry
  sys_unlink path = do
    r ← nameiparent path
    elim r [
      | none ↦ pure false
      | some (d, name) ↦ do
        ilock d
        elim (same_name name dot || same_name name dot_dot) [
          | true ↦ do iunlockput d; pure false
          | false ↦ do
            r ← dirlookup devsw_read devsw_write d name
            elim r [ none ↦ do iunlockput d; pure false | some (i, off) ↦ unlink_entry d i off ]
        ]
    ]

  -- `dirlink(…) < 0` with its panic.
  unfoldable pub link_or_stop : FsPanic → ℕ → List ℕ → ℕ → F (Unit {0})
  unfolding dirlink
  link_or_stop e d name inum = do
    ok ← dirlink devsw_read devsw_write d name inum
    elim ok [ none ↦ stop e | some _ ↦ pure tt ]

  -- create once there is no entry for the name in the directory `d`.
  unfoldable pub create_new : ℕ → List ℕ → ℕ → ℕ → ℕ → F (Option ℕ)
  unfolding ialloc ilock iupdate iunlockput link_or_stop
  create_new d name type major minor = do
    dp ← inode_at d
    i ← ialloc dp.dev type
    ilock i
    update_inode i (λ ip. record ip { major = major; minor = minor; nlink = 1 })
    iupdate i
    ip ← inode_at i
    elim (type == t_dir) [
      | false ↦ pure tt
      | true ↦ do
        update_inode d one_more_link
        iupdate d
        link_or_stop create_dots i dot ip.inum
        link_or_stop create_dots i dot_dot dp.inum
    ]
    link_or_stop create_dirlink d name ip.inum
    iunlockput d
    pure (some i)

  unfoldable pub create : List ℕ → ℕ → ℕ → ℕ → F (Option ℕ)
  unfolding nameiparent ilock iunlockput dirlookup create_new
  create path type major minor = do
    r ← nameiparent path
    elim r [
      | none ↦ pure none
      | some (d, name) ↦ do
        ilock d
        r ← dirlookup devsw_read devsw_write d name
        elim r [
          | none ↦ create_new d name type major minor
          | some (i, _) ↦ do
            iunlockput d
            ilock i
            ip ← inode_at i
            elim (type == t_file && ip.type == t_file) [
              | true ↦ pure (some i)
              | false ↦ do iunlockput i; pure none
            ]
        ]
    ]

  unfoldable pub sys_mkdir : List ℕ → F Bool
  unfolding create iunlockput
  sys_mkdir path = do
    r ← create path t_dir 0 0
    elim r [ none ↦ pure false | some i ↦ do iunlockput i; pure true ]

  unfoldable pub sys_mknod : List ℕ → ℕ → ℕ → F Bool
  unfolding create iunlockput
  sys_mknod path major minor = do
    r ← create path t_dev (major % 2 ^ 16) (minor % 2 ^ 16)
    elim r [ none ↦ pure false | some i ↦ do iunlockput i; pure true ]

  -- sys_chdir: the directory that the process has behind it.
  unfoldable pub sys_chdir : List ℕ → F (Option ℕ)
  unfolding namei ilock iunlock iunlockput iput
  sys_chdir path = do
    r ← namei path
    elim r [
      | none ↦ pure none
      | some i ↦ do
        ilock i
        ip ← inode_at i
        elim (ip.type == t_dir) [
          | false ↦ do iunlockput i; pure none
          | true ↦ do iunlock i; iput cwd; pure (some i)
        ]
    ]

  -- The locked inode that sys_open opens, by its mode.
  unfoldable pub open_inode : List ℕ → ℕ → F (Option ℕ)
  unfolding create namei ilock iunlockput
  open_inode path omode = elim (omode / 0x200 % 2 == 1) [
    | true ↦ create path t_file 0 0
    | false ↦ do
      r ← namei path
      elim r [
        | none ↦ pure none
        | some i ↦ do
          ilock i
          ip ← inode_at i
          elim (ip.type == t_dir && not (omode == 0)) [
            | true ↦ do iunlockput i; pure none
            | false ↦ pure (some i)
          ]
      ]
  ]
