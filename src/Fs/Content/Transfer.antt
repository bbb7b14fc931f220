-- ===== src/Fs/Content/Transfer.antt =====
-- fs.c: readi and writei against a file's bytes.
use os192_ass2_multi_thread.Fs.Content.Writes.{writei_loop-Mapped}
use os192_ass2_multi_thread.Fs.Content.Reads.{bytes_from, readi_loop-Mapped}
use Prim.Native.Nat.{min}
use os192_ass2_multi_thread.Fs.Content.Mapping.{Mapped, content}
use os192_ass2_multi_thread.Base.{
  ℕ, ◌+◌, List, ◌%◌, ◌≡◌, [], suc, ◌≤◌, ◌∷◌, ap, arith, ◌∙◌, sym, ◌-◌, refl, length, ◌<◌, get_or,
  if◌then◌else◌, leb, ◌&&◌, ltb, ◌≢◌, Option, some, ◌^◌, ◌⊎◌, none, Bool-cases, ◌||◌, inl, inr,
  subst,
}
use os192_ass2_multi_thread.Fs.{Inode, Fs, done, F}
use os192_ass2_multi_thread.Fs.Content.{readi_loop, writei, readi, t_dev, min}

pub back : (k off : ℕ) → off + k - off ≡ k
back k off = omega arith

pub bytes_from-eq :
    (f : ℕ → ℕ) (a : ℕ) (xs : List ℕ)
    → ((k : ℕ) → k < length xs → f (a + k) ≡ get_or xs k 0)
    → bytes_from f a (length xs) ≡ xs
bytes_from-eq f a [] h = refl
bytes_from-eq f a (x ∷ xs) h =
    let e : f a ≡ x = ap f (omega arith) ∙ h 0 (omega arith) in
    let ih = bytes_from-eq f (a + 1) xs (λ k l. ap f (omega arith) ∙ h (suc k) (omega arith)) in
    ground (arith, e, ih)

-- The bytes of a file behind a write of `src` at `off`.
abbrev pub Overwritten : Inode → Fs → Fs → ℕ → List ℕ → Type 0
Overwritten ip s t off src =
    (a : ℕ)
    → a < ip.size
    → content ip t.block a ≡ (
        if leb off a && ltb a (off + length src)
        then get_or src (a - off) 0
        else content ip s.block a)

-- With any functions of the devices.
module _ (devsw_read : ℕ → Option (ℕ → ℕ → F (Option (List ℕ))))
    (devsw_write : ℕ → Option (ℕ → List ℕ → F (Option ℕ))) where
  -- readi, on a file whose blocks are all there: an offset behind the end or a sum that wraps gives -1; otherwise
  -- the bytes of the file from the offset on, up to the count or to the end of the file. Nothing changes.
  pub readi_lem :
      (s : Fs) (i : ℕ) (ip : Inode) (off n : ℕ)
      → Mapped s i ip ip.size
      → ip.type ≢ t_dev
      → off < 2 ^ 32
      → n < 2 ^ 32
      → (((ip.size < off) ⊎ (2 ^ 32 ≤ off + n))
          × (readi devsw_read devsw_write i off n s ≡ done none s))
        ⊎ ((off ≤ ip.size)
            × (off + n < 2 ^ 32)
            × (readi devsw_read devsw_write i off n s
                ≡ done (some (bytes_from (content ip s.block) off (min n (ip.size - off)))) s))
  unfolding readi
  readi_lem s i ip off n m file h k =
      elim (Bool-cases (ltb ip.size off || ltb ((off + n) % 2 ^ 32) off)) [
        | inl y ↦ inl (ground arith, ground (arith, m.at_place))
        | inr z ↦
            let r =
              readi_loop-Mapped s i ip ip.size (min n (ip.size - off)) off (min n (ip.size - off)) m
                (omega arith) (ground arith) in
            let q : (if ltb ip.size ((off + n) % 2 ^ 32) then ip.size - off else n)
                ≡ min n (ip.size - off) =
              ground arith in
            let r' =
              subst
                (λ k.
                  readi_loop k i off k s
                  ≡ done (bytes_from (content ip s.block) off (min n (ip.size - off))) s)
                (sym q) r in
            inr (ground arith, ground arith, ground (arith, m.at_place, r'))
      ]

  -- writei within the blocks of a file that are there changes its bytes in the range and nothing else of it.
  pub writei_lem :
      (s : Fs) (i : ℕ) (ip : Inode) (off : ℕ) (src : List ℕ)
      → Mapped s i ip ip.size
      → ip.type ≢ t_dev
      → off + length src ≤ ip.size
      → (t : Fs) × (writei devsw_read devsw_write i off src s ≡ done (some (length src)) t)
        × Mapped t i ip ip.size
        × (t.inodes ≡ s.inodes)
        × Overwritten ip s t off src
  unfolding writei
  writei_lem s i ip off src m file h =
      let (t, e, mt, is, sbs, c) =
        writei_loop-Mapped s i ip ip.size (length src) off src m (omega arith) h in
      (t, ground (arith, m.at_place, mt.at_place, e, m.bounded), mt, is, c)

  -- writei and then readi of as many bytes at the same offset, within the blocks of a file that are there, gives
  -- back the bytes; the inodes stay as they are.
  pub writei-readi :
      (s : Fs) (i : ℕ) (ip : Inode) (off : ℕ) (src : List ℕ)
      → Mapped s i ip ip.size
      → ip.type ≢ t_dev
      → off + length src ≤ ip.size
      → (t : Fs) × (writei devsw_read devsw_write i off src s ≡ done (some (length src)) t)
        × (t.inodes ≡ s.inodes)
        × (readi devsw_read devsw_write i off (length src) t ≡ done (some src) t)
  unfolding readi
  writei-readi s i ip off src m file h =
      let (t, e, mt, is, c) = writei_lem s i ip off src m file h in
      let own : bytes_from (content ip t.block) off (length src) ≡ src =
        bytes_from-eq (content ip t.block) off src (λ k l.
          c (off + k) (omega arith) ∙ ground (arith, ap (λ k. get_or src k 0) (back k off))) in
      let r = readi_loop-Mapped t i ip ip.size (length src) off (length src) mt (omega arith) h in
      (t, e, is, ground (arith, mt.at_place, r, own, m.bounded))
