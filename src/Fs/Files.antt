-- ===== src/Fs/Files.antt =====
-- file.c: reads and writes of an open file. Its reference count is in the table of Syscall/Files.
pub mod Locking
pub mod Writing
pub mod Reading
use Prim.Native.Nat.{min}
use os192_ass2_multi_thread.Fs.Inodes.{ilock, iunlock}
use os192_ass2_multi_thread.Fs.Content.{readi, writei}
use os192_ass2_multi_thread.Log.{maxopblocks}
use os192_ass2_multi_thread.Fs.{
  F, ◌>>=◌, ◌>>◌, pure, stop, Inode, inode_at, fileread_panic, filewrite_panic, short_filewrite,
}
use os192_ass2_multi_thread.Base.{
  ℕ, List, Option, Bool, none, some, true, false, length, ◌+◌, ◌%◌, if◌then◌else◌, ◌-◌, ◌/◌, ◌^◌,
  suc, ◌==◌, ◌*◌, take, drop, zero,
}

pub data FileKind : Type 0 where
  fd_none fd_pipe fd_inode : FileKind

-- `struct file`; a pipe and an inode are their indices.
pub record File : Type 0 where
  pub type : FileKind
  pub readable : Bool
  pub writable : Bool
  pub pipe : ℕ
  pub ip : ℕ
  pub off : ℕ

pub record Stat : Type 0 where
  pub type : ℕ
  pub dev : ℕ
  pub ino : ℕ
  pub nlink : ℕ
  pub size : ℕ

abbrev pub stati : Inode → Stat
stati ip = record { type = ip.type; dev = ip.dev; ino = ip.inum; nlink = ip.nlink; size = ip.size }

unfoldable pub filestat : File → F (Option Stat)
unfolding ilock iunlock
filestat f = elim f.type [
  | fd_inode ↦ do ilock f.ip; ip ← inode_at f.ip; iunlock f.ip; pure (some (stati ip))
  | _ ↦ pure none
]

-- `f->off += r`
abbrev pub moved : ℕ → File → File
moved r f = record f { off = (f.off + r) % 2 ^ 32 }

-- The bytes of three blocks, what one transaction writes at most.
abbrev pub max_write : ℕ
max_write = (maxopblocks - 1 - 1 - 2) / 2 * 512

-- The functions of the devices, and piperead and pipewrite of pipe.c. A result none is -1; a read gives
-- its bytes.
module _ (devsw_read : ℕ → Option (ℕ → ℕ → F (Option (List ℕ))))
    (devsw_write : ℕ → Option (ℕ → List ℕ → F (Option ℕ))) (piperead : ℕ → ℕ → F (Option (List ℕ)))
    (pipewrite : ℕ → List ℕ → F (Option ℕ)) where
  unfoldable pub fileread : File → ℕ → F (Option (List ℕ) × File)
  unfolding readi ilock iunlock
  fileread f n = elim f.readable [
    | false ↦ pure (none, f)
    | true ↦ elim f.type [
      | fd_none ↦ stop fileread_panic
      | fd_pipe ↦ do r ← piperead f.pipe n; pure (r, f)
      | fd_inode ↦ do
        ilock f.ip
        r ← readi devsw_read devsw_write f.ip f.off n
        iunlock f.ip
        pure (elim r [ none ↦ (none, f) | some bytes ↦ (some bytes, moved (length bytes) f) ])
    ]
  ]

  -- The locked writei of one round.
  unfoldable pub write_chunk : File → List ℕ → F (Option ℕ)
  unfolding writei ilock iunlock
  write_chunk f bytes = do
    ilock f.ip
    r ← writei devsw_read devsw_write f.ip f.off bytes
    iunlock f.ip
    pure r

  -- The loop of filewrite over what is left to write, each round a transaction; false if a writei gave -1.
  unfoldable pub write_loop : ℕ → File → List ℕ → F (Bool × File)
  unfolding write_chunk
  write_loop zero f bytes = pure (true, f)
  write_loop (suc n) f bytes = elim (length bytes == 0) [
    | true ↦ pure (true, f)
    | false ↦ do
      r ← write_chunk f (take (min (length bytes) max_write) bytes)
      elim r [
        | none ↦ pure (false, f)
        | some m ↦ elim (m == min (length bytes) max_write) [
          | false ↦ stop short_filewrite
          | true ↦ write_loop n (moved m f) (drop m bytes)
        ]
      ]
  ]

  unfoldable pub filewrite : File → List ℕ → F (Option ℕ × File)
  unfolding write_loop
  filewrite f bytes = elim f.writable [
    | false ↦ pure (none, f)
    | true ↦ elim f.type [
      | fd_none ↦ stop filewrite_panic
      | fd_pipe ↦ do r ← pipewrite f.pipe bytes; pure (r, f)
      | fd_inode ↦ do
        (all, g) ← write_loop (length bytes) f bytes
        pure (if all then some (length bytes) else none, g)
    ]
  ]
