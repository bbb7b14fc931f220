-- ===== src/Fs/Content/Mapping.antt =====
-- fs.c: a file whose blocks are all there, as a function from offsets to bytes.
use os192_ass2_multi_thread.Fs.Bytes.{read32}
use os192_ass2_multi_thread.Base.{
  List, ℕ, ◌*◌, ◌<◌, if◌then◌else◌, get_elem?, ◌/◌, ◌≡◌, ltb, length, some, ◌%◌, ◌+◌, Bool-cases,
  get_or, ◌≤◌, arith, inl, inr, ◌∷◌, ◌-◌, suc, ◌≢◌, [], zero, refl,
}
use os192_ass2_multi_thread.Fs.Content.{bmap, maxfile_bytes}
use os192_ass2_multi_thread.Fs.{Fs, Inode, bsize, ndirect, done}

-- The block that holds block `bn` of the file.
abbrev pub block_of : Inode → (ℕ → ℕ → ℕ) → ℕ → ℕ
block_of ip block bn =
    if ltb bn ndirect
    then get_or ip.addrs bn 0
    else read32 (block (get_or ip.addrs ndirect 0)) (4 * (bn - ndirect))

abbrev pub content : Inode → (ℕ → ℕ → ℕ) → ℕ → ℕ
content ip block a = block (block_of ip block (a / bsize)) (a % bsize)

-- The first `limit` bytes of inode `i` lie in blocks that are there, all different, and different from the
-- indirect block.
pub record Mapped (s : Fs) (i : ℕ) (ip : Inode) (limit : ℕ) : Type 0 where
  pub at_place : get_elem? s.inodes i ≡ some ip
  pub full : length ip.addrs ≡ ndirect + 1
  pub bounded : limit ≤ maxfile_bytes
  pub indirect : ndirect * bsize < limit → get_or ip.addrs ndirect 0 ≢ 0
  pub there : (bn : ℕ) → bn * bsize < limit → block_of ip s.block bn ≢ 0
  pub apart :
      (bn cn : ℕ)
      → bn * bsize < limit
      → cn * bsize < limit
      → block_of ip s.block bn ≡ block_of ip s.block cn
      → bn ≡ cn
  pub no_index : (bn : ℕ) → bn * bsize < limit → block_of ip s.block bn ≢ get_or ip.addrs ndirect 0

get_elem?-get_or : (xs : List ℕ) (n : ℕ) → n < length xs → get_elem? xs n ≡ some (get_or xs n 0)
get_elem?-get_or [] n h = absurd (ground arith)
get_elem?-get_or (x ∷ xs) zero h = refl
get_elem?-get_or (x ∷ xs) (suc n) h = get_elem?-get_or xs n (ground arith)

-- bmap finds a block that is there and changes nothing.
pub bmap-Mapped :
    (s : Fs) (i : ℕ) (ip : Inode) (limit bn : ℕ)
    → Mapped s i ip limit
    → bn * bsize < limit
    → bmap i bn s ≡ done (block_of ip s.block bn) s
unfolding bmap
bmap-Mapped s i ip limit bn m h = elim (Bool-cases (ltb bn ndirect)) [
  | inl y ↦ ground (arith, m.at_place, m.there bn h, get_elem?-get_or ip.addrs bn, m.full)
  | inr n ↦ ground (
    arith,
    m.at_place,
    m.there bn h,
    m.indirect,
    get_elem?-get_or ip.addrs ndirect,
    m.full,
    m.bounded,
  )
]
