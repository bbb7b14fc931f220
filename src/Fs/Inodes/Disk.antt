-- ===== src/Fs/Inodes/Disk.antt =====
-- fs.c: an inode in its block, as iupdate writes it and ilock reads it.
use os192_ass2_multi_thread.Fs.Inodes.{from_disk, to_disk, read_addrs, write_addrs, dinode_at}
use os192_ass2_multi_thread.Fs.{Inode}
use os192_ass2_multi_thread.Base.{
  List, ◌<◌, ℕ, ◌+◌, ◌^◌, ◌⊎◌, All, ◌*◌, length, ◌≡◌, ◌≤◌, true, ◌∷◌, inl, arith, [], refl, ◌∙◌, ap,
  sym,
}
use mathlib.Core.Path.{ap₂}
use os192_ass2_multi_thread.Fs.Bytes.{read16, read32, write16, write32, read32-write32}

-- The fields fit in their places.
pub record Fits (ip : Inode) : Type 0 where
  pub type_short : ip.type < 2 ^ 16
  pub major_short : ip.major < 2 ^ 16
  pub minor_short : ip.minor < 2 ^ 16
  pub nlink_short : ip.nlink < 2 ^ 16
  pub size_word : ip.size < 2 ^ 32
  pub count : length ip.addrs ≡ 13
  pub words : All (λ v. v < 2 ^ 32) ip.addrs

write_addrs_outside :
    (vs : List ℕ) (a x : ℕ) (m : ℕ → ℕ)
    → (x < a) ⊎ (a + 4 * length vs ≤ x)
    → write_addrs vs a m x ≡ m x
write_addrs_outside [] a x m h = refl
write_addrs_outside (v ∷ vs) a x m h =
    ground (arith, write_addrs_outside vs (a + 4) x (write32 a v m))

-- A field before the addresses is as it was.
read16_before :
    (vs : List ℕ) (a x : ℕ) (m : ℕ → ℕ) → x + 2 ≤ a → read16 (write_addrs vs a m) x ≡ read16 m x
read16_before vs a x m h =
    ap₂ (λ u v. u + 256 * v) (write_addrs_outside vs a x m (inl (omega arith)))
      (write_addrs_outside vs a (x + 1) m (inl (omega arith)))

read32_before :
    (vs : List ℕ) (a x : ℕ) (m : ℕ → ℕ) → x + 4 ≤ a → read32 (write_addrs vs a m) x ≡ read32 m x
read32_before vs a x m h =
    ap₂ (λ u v. u + 2 ^ 16 * v) (read16_before vs a x m (omega arith))
      (read16_before vs a (x + 2) m (omega arith))

read_addrs-write_addrs :
    (vs : List ℕ) (a : ℕ) (m : ℕ → ℕ)
    → All (λ v. v < 2 ^ 32) vs
    → read_addrs (length vs) (write_addrs vs a m) a ≡ vs
read_addrs-write_addrs [] a m h = refl
read_addrs-write_addrs (v ∷ vs) a m (h, hs) =
    ap₂ ◌∷◌ (read32_before vs (a + 4) a (write32 a v m) (omega arith) ∙ read32-write32 m a v h)
      (read_addrs-write_addrs vs (a + 4) (write32 a v m) hs)

-- The fields before the addresses.
abbrev heading : Inode → ℕ → (ℕ → ℕ) → ℕ → ℕ
heading ip a m = write32 (a + 8) ip.size (
    write16 (a + 6) ip.nlink
      (write16 (a + 4) ip.minor (write16 (a + 2) ip.major (write16 a ip.type m))))

heading_outside :
    (ip : Inode) (a x : ℕ) (m : ℕ → ℕ) → (x < a) ⊎ (a + 12 ≤ x) → heading ip a m x ≡ m x
heading_outside ip a x m h = ground arith

heading_type : (ip : Inode) (a : ℕ) (m : ℕ → ℕ) → Fits ip → read16 (heading ip a m) a ≡ ip.type
heading_type ip a m f = ground (arith, f.type_short)

heading_major :
    (ip : Inode) (a : ℕ) (m : ℕ → ℕ) → Fits ip → read16 (heading ip a m) (a + 2) ≡ ip.major
heading_major ip a m f = ground (arith, f.major_short)

heading_minor :
    (ip : Inode) (a : ℕ) (m : ℕ → ℕ) → Fits ip → read16 (heading ip a m) (a + 4) ≡ ip.minor
heading_minor ip a m f = ground (arith, f.minor_short)

heading_nlink :
    (ip : Inode) (a : ℕ) (m : ℕ → ℕ) → Fits ip → read16 (heading ip a m) (a + 6) ≡ ip.nlink
heading_nlink ip a m f = ground (arith, f.nlink_short)

heading_size :
    (ip : Inode) (a : ℕ) (m : ℕ → ℕ) → Fits ip → read32 (heading ip a m) (a + 8) ≡ ip.size
heading_size ip a m f = ground (arith, f.size_word)

-- The entry `jp` with the fields that iupdate stores of `ip`.
abbrev pub stored_in : Inode → Inode → Inode
stored_in ip jp = record jp {
  type = ip.type;
  major = ip.major;
  minor = ip.minor;
  nlink = ip.nlink;
  size = ip.size;
  addrs = ip.addrs;
  valid = true;
}

-- What iupdate writes into an inode's place in its block, ilock reads back into any entry of the cache for the same
-- inode number, whatever that entry contained, if the fields fit; the bytes of the block outside that place stay as
-- they are.
pub to_disk-from_disk :
    (ip jp : Inode) (m : ℕ → ℕ)
    → Fits ip
    → jp.inum ≡ ip.inum
    → (from_disk (to_disk ip m) jp ≡ stored_in ip jp)
      × ((x : ℕ) → (x < dinode_at ip.inum) ⊎ (dinode_at ip.inum + 64 ≤ x) → to_disk ip m x ≡ m x)
to_disk-from_disk ip jp m f same = (
  ap (λ n. from_disk (to_disk ip m) (record jp { inum = n })) same
      ∙ (fields ∙ ap (λ n. record (stored_in ip jp) { inum = n }) (sym same)),
  λ x h. outside x h,
)
  where
    a : ℕ
    a = dinode_at ip.inum

    all_addrs : read_addrs 13 (to_disk ip m) (a + 12) ≡ ip.addrs
    all_addrs =
        ap (λ n. read_addrs n (to_disk ip m) (a + 12)) (sym f.count)
        ∙ read_addrs-write_addrs ip.addrs (a + 12) (heading ip a m) f.words

    short :
        (k : ℕ) {v : ℕ}
        → k ≤ 10
        → read16 (heading ip a m) (a + k) ≡ v
        → read16 (to_disk ip m) (a + k) ≡ v
    short k h e = read16_before ip.addrs (a + 12) (a + k) (heading ip a m) (omega arith) ∙ e

    outside : (x : ℕ) → (x < a) ⊎ (a + 64 ≤ x) → to_disk ip m x ≡ m x
    outside x h =
        write_addrs_outside ip.addrs (a + 12) x (heading ip a m) (ground (arith, f.count))
        ∙ heading_outside ip a x m (ground arith)

    fields :
        from_disk (to_disk ip m) (record jp { inum = ip.inum })
        ≡ record (stored_in ip jp) { inum = ip.inum }
    fields = λ i. record (record jp { inum = ip.inum }) {
      type =
          (read16_before ip.addrs (a + 12) a (heading ip a m) (omega arith) ∙ heading_type ip a m f)
            i;
      major = short 2 (omega arith) (heading_major ip a m f) i;
      minor = short 4 (omega arith) (heading_minor ip a m f) i;
      nlink = short 6 (omega arith) (heading_nlink ip a m f) i;
      size =
          (read32_before ip.addrs (a + 12) (a + 8) (heading ip a m) (omega arith)
              ∙ heading_size ip a m f)
            i;
      addrs = all_addrs i;
      valid = true;
    }
