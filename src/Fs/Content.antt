-- ===== src/Fs/Content.antt =====
-- fs.c: the blocks of a file, and reading and writing its bytes.
pub mod Mapping
pub mod Reads
pub mod Writes
pub mod Transfer
-- `T_DEV`, `NDEV`, `MAXFILE * BSIZE`
use os192_ass2_multi_thread.Fs.Bytes.{read32, write32}
use os192_ass2_multi_thread.Fs.Inodes.{iupdate}
use os192_ass2_multi_thread.Fs.{
  ndirect, F, ◌>>◌, bsize, ◌>>=◌, inode_at, put_byte, nindirect, stop, pure, out_of_fuel,
  bmap_out_of_range, update_inode, stopped, get, update_block, done, bad_pointer,
}
use Prim.Native.Nat.{min}
use os192_ass2_multi_thread.Base.{
  ℕ, Option, List, ◌+◌, length, ltb, ◌==◌, [], ◌∷◌, ◌-◌, true, suc, false, ◌*◌, ◌%◌, leb, get_elem?,
  zero, none, set, ◌/◌, some, ◌||◌, ◌++◌, ◌^◌, take, ◌&&◌, if◌then◌else◌, drop,
}
use os192_ass2_multi_thread.Fs.Bitmap.{balloc}

abbrev pub t_dev : ℕ
t_dev = 3

abbrev pub ndev : ℕ
ndev = 10

abbrev pub maxfile_bytes : ℕ
maxfile_bytes = (ndirect + nindirect) * bsize

-- `ip->addrs[n]`
abbrev pub addr_at : ℕ → ℕ → F ℕ
addr_at i n = do
  ip ← inode_at i
  (λ s. elim (get_elem? ip.addrs n) [ none ↦ stopped bad_pointer | some a ↦ done a s ])

-- `if((addr = ip->addrs[n]) == 0) ip->addrs[n] = addr = balloc(ip->dev);`
unfoldable pub slot : ℕ → ℕ → F ℕ
unfolding balloc
slot i n = do
  a ← addr_at i n
  elim (a == 0) [
    | false ↦ pure a
    | true ↦ do b ← balloc; update_inode i (λ ip. record ip { addrs = set ip.addrs n b }); pure b
  ]

unfoldable pub bmap : ℕ → ℕ → F ℕ
unfolding slot balloc
bmap i bn = elim (ltb bn ndirect) [
  | true ↦ slot i bn
  | false ↦ elim (ltb (bn - ndirect) nindirect) [
    | false ↦ stop bmap_out_of_range
    | true ↦ do
      indirect ← slot i ndirect
      s ← get
      elim (read32 (s.block indirect) (4 * (bn - ndirect)) == 0) [
        | false ↦ pure (read32 (s.block indirect) (4 * (bn - ndirect)))
        | true ↦ do b ← balloc; update_block indirect (write32 (4 * (bn - ndirect)) b); pure b
      ]
  ]
]

-- `memmove(dst, bp->data + a, n)`: the bytes.
abbrev pub slice : (ℕ → ℕ) → ℕ → ℕ → List ℕ
slice m a zero = []
slice m a (suc n) = m a ∷ slice m (a + 1) n

-- `memmove(bp->data + a, src, n)`
abbrev pub put_bytes : ℕ → List ℕ → (ℕ → ℕ) → ℕ → ℕ
put_bytes a [] m = m
put_bytes a (b ∷ bs) m = put_bytes (a + 1) bs (put_byte m a b)

-- The bytes of one round of the loops: up to the end of the block, or `n`.
abbrev pub chunk : ℕ → ℕ → ℕ
chunk off n = min n (bsize - off % bsize)

-- The loop of readi, with `n` bytes to go; each round takes one at least, so that `n` rounds are enough.
unfoldable pub readi_loop : ℕ → ℕ → ℕ → ℕ → F (List ℕ)
unfolding bmap
readi_loop zero i off n = elim (n == 0) [ true ↦ pure [] | false ↦ stop out_of_fuel ]
readi_loop (suc fuel) i off n = elim (n == 0) [
  | true ↦ pure []
  | false ↦ do
    a ← bmap i (off / bsize)
    s ← get
    rest ← readi_loop fuel i (off + chunk off n) (n - chunk off n)
    pure (slice (s.block a) (off % bsize) (chunk off n) ++ rest)
]

-- The loop of writei, which returns the offset behind the last byte.
unfoldable pub writei_loop : ℕ → ℕ → ℕ → List ℕ → F ℕ
unfolding bmap
writei_loop zero i off src = elim (length src == 0) [ true ↦ pure off | false ↦ stop out_of_fuel ]
writei_loop (suc fuel) i off src = elim (length src == 0) [
  | true ↦ pure off
  | false ↦ do
    a ← bmap i (off / bsize)
    update_block a (put_bytes (off % bsize) (take (chunk off (length src)) src))
    writei_loop fuel i (off + chunk off (length src)) (drop (chunk off (length src)) src)
]

-- `devsw_read` and `devsw_write` are the functions of the devices. The result `none` is -1.
module _ (devsw_read : ℕ → Option (ℕ → ℕ → F (Option (List ℕ))))
    (devsw_write : ℕ → Option (ℕ → List ℕ → F (Option ℕ))) where
  unfoldable pub readi : ℕ → ℕ → ℕ → F (Option (List ℕ))
  unfolding readi_loop
  readi i off n = do
    ip ← inode_at i
    elim (ip.type == t_dev) [
      | true ↦ elim (leb ndev ip.major) [
        | true ↦ pure none
        | false ↦ elim (devsw_read ip.major) [ none ↦ pure none | some read ↦ read i n ]
      ]
      | false ↦ elim (ltb ip.size off || ltb ((off + n) % 2 ^ 32) off) [
        | true ↦ pure none
        | false ↦ do
          let m = if ltb ip.size ((off + n) % 2 ^ 32) then ip.size - off else n
          bytes ← readi_loop m i off m
          pure (some bytes)
      ]
    ]

  unfoldable pub writei : ℕ → ℕ → List ℕ → F (Option ℕ)
  unfolding writei_loop iupdate
  writei i off src = do
    ip ← inode_at i
    elim (ip.type == t_dev) [
      | true ↦ elim (leb ndev ip.major) [
        | true ↦ pure none
        | false ↦ elim (devsw_write ip.major) [ none ↦ pure none | some write ↦ write i src ]
      ]
      | false ↦
          elim (ltb ip.size off
            || ltb ((off + length src) % 2 ^ 32) off
            || ltb maxfile_bytes ((off + length src) % 2 ^ 32)) [
              | true ↦ pure none
              | false ↦ do
                end ← writei_loop (length src) i off src
                jp ← inode_at i
                elim (ltb 0 (length src) && ltb jp.size end) [
                  | true ↦ do update_inode i (λ ip. record ip { size = end }); iupdate i
                  | false ↦ pure tt
                ]
                pure (some (length src))
            ]
    ]
