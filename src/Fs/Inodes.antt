-- ===== src/Fs/Inodes.antt =====
-- fs.c: the cache of inodes, and the inodes on the disk.
pub mod Cache
pub mod Disk
-- `ROOTINO`, `T_DIR`, `T_DEV`, `IPB`
use os192_ass2_multi_thread.Fs.Bytes.{read16, write32, read32, write16}
use os192_ass2_multi_thread.Fs.{
  Inode, Superblock, F, ◌>>◌, stop, pure, ◌>>=◌, ialloc_no_inodes, get, update_inode, inode_at,
  ilock_panic, waits, update_block, ilock_no_type, ndirect, iunlock_panic, iget_no_inodes, stopped,
  done, nindirect, bad_pointer,
}
use os192_ass2_multi_thread.Fs.Bitmap.{bfree}
use os192_ass2_multi_thread.Base.{
  List, ℕ, [], Bool, ◌%◌, ◌+◌, false, ◌∷◌, suc, ltb, ◌*◌, ◌-◌, ◌/◌, ◌==◌, true, zero, ◌&&◌,
  find_index, not, take, ◌||◌, if◌then◌else◌, some, replicate, none, leb, ◌++◌, get_elem?, drop,
}

abbrev pub ipb : ℕ
ipb = 8

abbrev pub iblock : ℕ → Superblock → ℕ
iblock inum sb = inum / ipb + sb.inodestart

-- The offset of `struct dinode` number `inum` in its block.
abbrev pub dinode_at : ℕ → ℕ
dinode_at inum = inum % ipb * 64

abbrev pub matches : ℕ → ℕ → Inode → Bool
matches dev inum ip = ltb 0 ip.ref && ip.dev == dev && ip.inum == inum

abbrev pub is_empty : Inode → Bool
is_empty ip = ip.ref == 0

abbrev pub entered : ℕ → ℕ → Inode → Inode
entered dev inum ip = record ip { dev = dev; inum = inum; ref = 1; valid = false }

unfoldable pub iget : ℕ → ℕ → F ℕ
iget dev inum = do
  s ← get
  elim (find_index (matches dev inum) s.inodes) [
    | some i ↦ do update_inode i (λ ip. record ip { ref = ip.ref + 1 }); pure i
    | none ↦ elim (find_index is_empty s.inodes) [
      | none ↦ stop iget_no_inodes
      | some i ↦ do update_inode i (entered dev inum); pure i
    ]
  ]

unfoldable pub idup : ℕ → F ℕ
idup i = do update_inode i (λ ip. record ip { ref = ip.ref + 1 }); pure i

-- The 13 addresses of an inode on the disk from the address `a` on.
abbrev pub read_addrs : ℕ → (ℕ → ℕ) → ℕ → List ℕ
read_addrs zero m a = []
read_addrs (suc n) m a = read32 m a ∷ read_addrs n m (a + 4)

abbrev pub write_addrs : List ℕ → ℕ → (ℕ → ℕ) → ℕ → ℕ
write_addrs [] a m = m
write_addrs (v ∷ vs) a m = write_addrs vs (a + 4) (write32 a v m)

abbrev pub from_disk : (ℕ → ℕ) → Inode → Inode
from_disk m ip =
    let a = dinode_at ip.inum in
    record ip {
      type = read16 m a;
      major = read16 m (a + 2);
      minor = read16 m (a + 4);
      nlink = read16 m (a + 6);
      size = read32 m (a + 8);
      addrs = read_addrs 13 m (a + 12);
      valid = true;
    }

abbrev pub to_disk : Inode → (ℕ → ℕ) → ℕ → ℕ
to_disk ip m =
    let a = dinode_at ip.inum in
    write_addrs ip.addrs (a + 12) (
      write32 (a + 8) ip.size (
        write16 (a + 6) ip.nlink
          (write16 (a + 4) ip.minor (write16 (a + 2) ip.major (write16 a ip.type m)))))

unfoldable pub iupdate : ℕ → F (Unit {0})
iupdate i = do ip ← inode_at i; s ← get; update_block (iblock ip.inum s.sb) (to_disk ip)

-- ialloc from inode `inum` on, with `n` to go.
unfoldable pub ialloc_loop : ℕ → ℕ → ℕ → ℕ → F ℕ
unfolding iget
ialloc_loop dev type zero inum = stop ialloc_no_inodes
ialloc_loop dev type (suc n) inum = do
  s ← get
  elim (read16 (s.block (iblock inum s.sb)) (dinode_at inum) == 0) [
    | false ↦ ialloc_loop dev type n (inum + 1)
    | true ↦ do
      update_block (iblock inum s.sb) (λ m.
          write16 (dinode_at inum) type
            (λ a. if leb (dinode_at inum) a && ltb a (dinode_at inum + 64) then 0 else m a))
      iget dev inum
  ]

unfoldable pub ialloc : ℕ → ℕ → F ℕ
unfolding ialloc_loop
ialloc dev type s = ialloc_loop dev type (s.sb.ninodes - 1) 1 s

-- ilock, on a pointer that is not null.
unfoldable pub ilock : ℕ → F (Unit {0})
ilock i = do
  ip ← inode_at i
  elim (ltb ip.ref 1) [
    | true ↦ stop ilock_panic
    | false ↦ elim ip.locked [
      | true ↦ (λ s. waits)
      | false ↦ do
        update_inode i (λ ip. record ip { locked = true })
        elim ip.valid [
          | true ↦ pure tt
          | false ↦ do
            s ← get
            update_inode i (from_disk (s.block (iblock ip.inum s.sb)))
            jp ← inode_at i
            elim (jp.type == 0) [ true ↦ stop ilock_no_type | false ↦ pure tt ]
        ]
    ]
  ]

unfoldable pub iunlock : ℕ → F (Unit {0})
iunlock i = do
  ip ← inode_at i
  elim (not ip.locked || ltb ip.ref 1) [
    | true ↦ stop iunlock_panic
    | false ↦ update_inode i (λ ip. record ip { locked = false })
  ]

-- itrunc's loops over addresses: each block that is there is given back.
unfoldable pub free_each : List ℕ → F (Unit {0})
unfolding bfree
free_each [] = pure tt
free_each (a ∷ more) = elim (a == 0) [ true ↦ free_each more | false ↦ do bfree a; free_each more ]

-- itrunc; `entries` are the words of the indirect block.
unfoldable pub itrunc : ℕ → F (Unit {0})
unfolding free_each iupdate bfree
itrunc i = do
  ip ← inode_at i
  free_each (take ndirect ip.addrs)
  update_inode i (λ ip. record ip { addrs = replicate ndirect 0 ++ drop ndirect ip.addrs })
  indirect ←
      (λ s. elim (get_elem? ip.addrs ndirect) [ none ↦ stopped bad_pointer | some a ↦ done a s ])
  elim (indirect == 0) [
    | true ↦ pure tt
    | false ↦ do
      s ← get
      free_each (read_addrs nindirect (s.block indirect) 0)
      bfree indirect
      update_inode i (λ ip. record ip { addrs = replicate (ndirect + 1) 0 })
  ]
  update_inode i (λ ip. record ip { size = 0 })
  iupdate i

-- A pointer to an inode counts as one reference, so that `ref` is not 0 here.
unfoldable pub iput : ℕ → F (Unit {0})
unfolding itrunc iupdate
iput i = do
  ip ← inode_at i
  elim ip.locked [
    | true ↦ (λ s. waits)
    | false ↦ do
      elim (ip.valid && ip.nlink == 0 && ip.ref == 1) [
        | false ↦ pure tt
        | true ↦ do
          itrunc i
          update_inode i (λ ip. record ip { type = 0 })
          iupdate i
          update_inode i (λ ip. record ip { valid = false })
      ]
      update_inode i (λ ip. record ip { ref = ip.ref - 1 })
  ]

unfoldable pub iunlockput : ℕ → F (Unit {0})
unfolding iunlock iput
iunlockput i = do iunlock i; iput i
