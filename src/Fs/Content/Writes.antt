-- ===== src/Fs/Content/Writes.antt =====
-- fs.c: the loop of writei against a file's bytes.
use os192_ass2_multi_thread.Fs.Content.Reads.{put_bytes_lem}
use native.Mathlib.Decide.{ℕ_discrete, dec_le}
use os192_ass2_multi_thread.Fs.Content.Mapping.{Mapped, content, block_of, bmap-Mapped}
use os192_ass2_multi_thread.Base.{
  ℕ, ◌+◌, List, ◌%◌, ◌≡◌, [], suc, ◌≤◌, ◌∷◌, ap, arith, zero, ◌∙◌, ◌/◌, sym, ◌-◌, refl, length, ◌<◌,
  ◌*◌, get_or, if◌then◌else◌, leb, ◌==◌, ◌&&◌, ltb, ◌≢◌, take, length-take, drop, length-drop,
  get_or-drop, get_or-take,
}
use os192_ass2_multi_thread.Fs.{Inode, Fs, bsize, done}
use os192_ass2_multi_thread.Fs.Content.{chunk, put_bytes, writei_loop}

-- One round of writei's loop.
module _ (s : Fs) (i : ℕ) (ip : Inode) (limit off n : ℕ) (bs : List ℕ) (m : Mapped s i ip limit)
    (size : length bs ≡ n) (room : off % bsize + n ≤ bsize)
    (low : off / bsize * bsize < limit) where
  abbrev target : ℕ
  target = block_of ip s.block (off / bsize)

  abbrev written : Fs
  written = record s {
    block = λ b. if b == target then put_bytes (off % bsize) bs (s.block target) else s.block b;
  }

  block_of-written :
      (bn : ℕ) → bn * bsize < limit → block_of ip written.block bn ≡ block_of ip s.block bn
  block_of-written bn h = ground (arith, m.no_index (off / bsize) low)

  written-Mapped : Mapped written i ip limit
  written-Mapped = record {
    at_place = m.at_place;
    full = m.full;
    bounded = m.bounded;
    indirect = m.indirect;
    there = λ bn h z. m.there bn h (sym (block_of-written bn h) ∙ z);
    apart = λ bn cn h k e.
        m.apart bn cn h k (sym (block_of-written bn h) ∙ (e ∙ block_of-written cn k));
    no_index = λ bn h e. m.no_index bn h (sym (block_of-written bn h) ∙ e);
  }

  content-written :
      (a : ℕ)
      → a < limit
      → content ip written.block a
        ≡ (if leb off a && ltb a (off + n) then get_or bs (a - off) 0 else content ip s.block a)
  content-written a h =
      let low_a : a / bsize * bsize < limit = omega arith in
      let u = block_of-written (a / bsize) low_a in
      elim (ℕ_discrete (a / bsize) (off / bsize)) [
        | yes e ↦
            let q : a % bsize - off % bsize ≡ a - off = omega arith in
            let t : block_of ip s.block (a / bsize) ≡ target = ap (block_of ip s.block) e in
            ground (
              arith,
              u,
              t,
              put_bytes_lem (off % bsize) bs (s.block target) (a % bsize),
              size,
              ap (λ k. get_or bs k 0) q,
            )
        | no ne ↦
            let t : block_of ip s.block (a / bsize) ≢ target =
              λ e. ne (m.apart (a / bsize) (off / bsize) low_a low e) in
            ground (arith, u, t)
      ]

-- Two writes one behind the other are one write.
pub joined :
    (src : List ℕ) (off n a before first : ℕ)
    → n ≤ length src
    → first ≡ (if leb off a && ltb a (off + n) then get_or (take n src) (a - off) 0 else before)
    → (if leb (off + n) a && ltb a (off + n + length (drop n src))
        then get_or (drop n src) (a - (off + n)) 0
        else first)
      ≡ (if leb off a && ltb a (off + length src) then get_or src (a - off) 0 else before)
joined src off n a before first h e = elim (dec_le (off + n) a) [
  | yes y ↦
      let q : n + (a - (off + n)) ≡ a - off = omega arith in
      ground
        (arith, length-drop n src, get_or-drop n src (a - (off + n)) 0, ap (λ k. get_or src k 0) q)
  | no z ↦ ground (arith, length-drop n src, get_or-take n src (a - off) 0)
]

-- The loop of writei, within the blocks that are there, writes its bytes in order and no other byte of the
-- file; the inodes stay as they are.
pub writei_loop-Mapped :
    (s : Fs) (i : ℕ) (ip : Inode) (limit fuel off : ℕ) (src : List ℕ)
    → Mapped s i ip limit
    → length src ≤ fuel
    → off + length src ≤ limit
    → (t : Fs) × (writei_loop fuel i off src s ≡ done (off + length src) t)
      × Mapped t i ip limit
      × (t.inodes ≡ s.inodes)
      × (t.sb ≡ s.sb)
      × ((a : ℕ)
          → a < limit
          → content ip t.block a ≡ (
              if leb off a && ltb a (off + length src)
              then get_or src (a - off) 0
              else content ip s.block a))
unfolding writei_loop
writei_loop-Mapped s i ip limit zero off [] m h b =
    (s, ground arith, m, refl, refl, λ a k. ground arith)
writei_loop-Mapped s i ip limit (suc fuel) off [] m h b =
    (s, ground arith, m, refl, refl, λ a k. ground arith)
writei_loop-Mapped s i ip limit zero off (x ∷ src) m h b = absurd (omega arith)
writei_loop-Mapped s i ip limit (suc fuel) off (x ∷ src) m h b =
    let n : ℕ = chunk off (length (x ∷ src)) in
    let bs : List ℕ = take n (x ∷ src) in
    let size : length bs ≡ n = length-take n (x ∷ src) (omega arith) in
    let left : length (drop n (x ∷ src)) ≡ length (x ∷ src) - n = length-drop n (x ∷ src) in
    let w : Fs = written s i ip limit off n bs m size (omega arith) (omega arith) in
    let m' : Mapped w i ip limit =
      written-Mapped s i ip limit off n bs m size (omega arith) (omega arith) in
    let (t, e, mt, is, sbs, c) =
      writei_loop-Mapped w i ip limit fuel (off + n) (drop n (x ∷ src)) m' (omega (arith, left))
        (omega (arith, left)) in
    let found = bmap-Mapped s i ip limit (off / bsize) m (omega arith) in
    let end : off + n + length (drop n (x ∷ src)) ≡ off + length (x ∷ src) = omega (arith, left) in
    (
      t,
      ground (arith, found, e, end),
      mt,
      is,
      sbs,
      λ a k.
          c a k
          ∙ joined (x ∷ src) off n a (content ip s.block a) (content ip w.block a) (omega arith)
              (content-written s i ip limit off n bs m size (omega arith) (omega arith) a k),
    )
