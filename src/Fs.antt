-- ===== src/Fs.antt =====
-- fs.c: the state that the file system works on, and the effects its functions are written in. A block is
-- what bread shows of it, a function from offsets to bytes; a log_write is a change of it.
pub mod Steps
pub mod Bytes
pub mod Bitmap
pub mod Inodes
pub mod Content
pub mod Directory
pub mod Paths
pub mod Calls
pub mod Files
use os192_ass2_multi_thread.Base.{ℕ, Bool, modify, if◌then◌else◌, List, get_elem?, ◌==◌, none, some}

-- `BSIZE`, `NDIRECT`, `NINDIRECT`
abbrev pub bsize : ℕ
bsize = 512

abbrev pub ndirect : ℕ
ndirect = 12

abbrev pub nindirect : ℕ
nindirect = 128

-- The fields of `struct superblock` that fs.c uses.
pub record Superblock : Type 0 where
  pub size : ℕ
  pub ninodes : ℕ
  pub inodestart : ℕ
  pub bmapstart : ℕ

-- `struct inode`; `locked` is its sleep lock, and the process that runs is the one that holds it. A short is
-- its bit pattern.
pub record Inode : Type 0 where
  pub dev : ℕ
  pub inum : ℕ
  pub ref : ℕ
  pub locked : Bool
  pub valid : Bool
  pub type : ℕ
  pub major : ℕ
  pub minor : ℕ
  pub nlink : ℕ
  pub size : ℕ
  pub addrs : List ℕ

-- The disk and `icache.inode`.
pub record Fs : Type 0 where
  pub sb : Superblock
  pub block : ℕ → ℕ → ℕ
  pub inodes : List Inode

pub data FsPanic : Type 0 where
  out_of_blocks freeing_free_block ialloc_no_inodes iget_no_inodes ilock_panic ilock_no_type
        iunlock_panic bmap_out_of_range dirlookup_not_dir dirlookup_read dirlink_read dirlink_panic
        unlink_nlink unlink_writei isdirempty_readi create_dots create_dirlink bad_pointer
        fileread_panic filewrite_panic short_filewrite out_of_fuel :
      FsPanic

-- A call returns, waits for a lock that another process holds, or panics.
pub data Out (A : Type 0) : Type 0 where
  done : A → Fs → Out A
  waits : Out A
  stopped : FsPanic → Out A

abbrev pub F : Type 0 → Type 0
F A = Fs → Out A

abbrev pub pure : {A : Type 0} → A → F A
pure a s = done a s

infixl 5 ◌>>=◌ ◌>>◌
abbrev pub ◌>>=◌ : {A B : Type 0} → F A → (A → F B) → F B
◌>>=◌ m f s = elim (m s) [ done a t ↦ f a t | waits ↦ waits | stopped e ↦ stopped e ]

abbrev pub ◌>>◌ : {B : Type 0} → F (Unit {0}) → F B → F B
m >> n = m >>= λ _. n

abbrev pub stop : {A : Type 0} → FsPanic → F A
stop e s = stopped e

abbrev pub get : F Fs
get s = done s s

abbrev pub modify_fs : (Fs → Fs) → F (Unit {0})
modify_fs f s = done tt (f s)

-- The inode that a pointer into the cache names.
abbrev pub inode_at : ℕ → F Inode
inode_at i s = elim (get_elem? s.inodes i) [ none ↦ stopped bad_pointer | some ip ↦ done ip s ]

abbrev pub update_inode : ℕ → (Inode → Inode) → F (Unit {0})
update_inode i f s = done tt (record s { inodes = modify s.inodes i f })

-- A block with one byte changed, and a change of one block.
abbrev pub put_byte : (ℕ → ℕ) → ℕ → ℕ → ℕ → ℕ
put_byte m a v x = if x == a then v else m x

abbrev pub update_block : ℕ → ((ℕ → ℕ) → ℕ → ℕ) → F (Unit {0})
update_block n f s = done tt (record s { block = λ b. if b == n then f (s.block n) else s.block b })
