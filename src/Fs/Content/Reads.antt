-- ===== src/Fs/Content/Reads.antt =====
-- fs.c: the loop of readi against a file's bytes.
use os192_ass2_multi_thread.Fs.Content.Mapping.{Mapped, content, block_of, bmap-Mapped}
use os192_ass2_multi_thread.Base.{
  ℕ, ◌+◌, List, ◌%◌, ◌≡◌, [], ◌++◌, suc, ◌≤◌, ◌∷◌, ap, arith, zero, ◌∙◌, ◌/◌, sym, ◌-◌, refl,
  length, ◌<◌, get_or, if◌then◌else◌, leb, ◌&&◌, ltb, get_or-cons,
}
use os192_ass2_multi_thread.Fs.{Inode, Fs, bsize, done, put_byte}
use os192_ass2_multi_thread.Fs.Content.{readi_loop, slice, chunk, put_bytes}

-- `n` values of a function from `a` on.
abbrev pub bytes_from : (ℕ → ℕ) → ℕ → ℕ → List ℕ
bytes_from f a zero = []
bytes_from f a (suc n) = f a ∷ bytes_from f (a + 1) n

bytes_from-add :
    (f : ℕ → ℕ) (a m n : ℕ) → bytes_from f a (m + n) ≡ bytes_from f a m ++ bytes_from f (a + m) n
bytes_from-add f a zero n =
    ap (λ k. bytes_from f a k) (omega arith) ∙ ap (λ k. bytes_from f k n) (omega arith)
bytes_from-add f a (suc m) n =
    let e : suc m + n ≡ suc (m + n) = omega arith in
    let g : a + 1 + m ≡ a + suc m = omega arith in
    ap (λ k. bytes_from f a k) e
    ∙ ap (λ l. f a ∷ l)
        (bytes_from-add f (a + 1) m n ∙ ap (λ k. bytes_from f (a + 1) m ++ bytes_from f k n) g)

-- Within one block, the bytes of the block are those of the file.
slice-content :
    (ip : Inode) (block : ℕ → ℕ → ℕ) (off n : ℕ)
    → off % bsize + n ≤ bsize
    → slice (block (block_of ip block (off / bsize))) (off % bsize) n
      ≡ bytes_from (content ip block) off n
slice-content ip block off zero h = refl
slice-content ip block off (suc zero) h = refl
slice-content ip block off (suc (suc n)) h =
    let e : (off + 1) / bsize ≡ off / bsize = omega arith in
    let f : (off + 1) % bsize ≡ off % bsize + 1 = omega arith in
    let ih = slice-content ip block (off + 1) (suc n) (omega arith) in
    ap (λ l. content ip block off ∷ l)
      (ap (λ k. slice (block (block_of ip block k)) (off % bsize + 1) (suc n)) (sym e)
        ∙ (ap (λ k. slice (block (block_of ip block ((off + 1) / bsize))) k (suc n)) (sym f) ∙ ih))

-- The loop of readi takes the bytes in order, with fuel for a round for each byte, and changes nothing.
pub readi_loop-Mapped :
    (s : Fs) (i : ℕ) (ip : Inode) (limit fuel off n : ℕ)
    → Mapped s i ip limit
    → n ≤ fuel
    → off + n ≤ limit
    → readi_loop fuel i off n s ≡ done (bytes_from (content ip s.block) off n) s
unfolding readi_loop
readi_loop-Mapped s i ip limit zero off n m h b = ground arith
readi_loop-Mapped s i ip limit (suc fuel) off zero m h b = refl
readi_loop-Mapped s i ip limit (suc fuel) off (suc n) m h b =
    let e = bmap-Mapped s i ip limit (off / bsize) m (omega arith) in
    let ih =
      readi_loop-Mapped s i ip limit fuel (off + chunk off (suc n)) (suc n - chunk off (suc n)) m
        (omega arith) (omega arith) in
    let step : readi_loop (suc fuel) i off (suc n) s
        ≡ done
            (slice (s.block (block_of ip s.block (off / bsize))) (off % bsize) (chunk off (suc n))
              ++ bytes_from (content ip s.block) (off + chunk off (suc n))
                  (suc n - chunk off (suc n)))
            s =
      ground (arith, e, ih) in
    let q : chunk off (suc n) + (suc n - chunk off (suc n)) ≡ suc n = omega arith in
    step
    ∙ ap (λ l. done l s)
        (ap
            (λ l.
              l
              ++ bytes_from (content ip s.block) (off + chunk off (suc n))
                  (suc n - chunk off (suc n)))
            (slice-content ip s.block off (chunk off (suc n)) (omega arith))
          ∙ (sym (
                bytes_from-add (content ip s.block) off (chunk off (suc n))
                  (suc n - chunk off (suc n)))
              ∙ ap (λ k. bytes_from (content ip s.block) off k) q))

get_or-bytes_from : (f : ℕ → ℕ) (a n k : ℕ) → k < n → get_or (bytes_from f a n) k 0 ≡ f (a + k)
get_or-bytes_from f a zero k h = absurd (omega arith)
get_or-bytes_from f a (suc n) zero h = ap f (omega arith)
get_or-bytes_from f a (suc n) (suc k) h =
    get_or-bytes_from f (a + 1) n k (omega arith) ∙ ap f (omega arith)

pub put_bytes_lem :
    (a : ℕ) (bs : List ℕ) (m : ℕ → ℕ) (x : ℕ)
    → put_bytes a bs m x ≡ (if leb a x && ltb x (a + length bs) then get_or bs (x - a) 0 else m x)
put_bytes_lem a [] m x = ground arith
put_bytes_lem a (b ∷ bs) m x =
    let e : x - (a + 1) ≡ x - a - 1 = omega arith in
    put_bytes_lem (a + 1) bs (put_byte m a b) x
    ∙ ground (arith, get_or-cons b bs (x - a) 0, ap (λ k. get_or bs k 0) e)
