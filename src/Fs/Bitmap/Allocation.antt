-- ===== src/Fs/Bitmap/Allocation.antt =====
-- fs.c: the map of blocks under balloc and bfree.
use os192_ass2_multi_thread.Fs.Bitmap.Marks.{
  map_block, AreBytes, used, find_clear_lem, in_use-unmark, in_use-mark,
}
use Prim.Native.Nat.{min}
use native.Mathlib.Decide.{ℕ_discrete, dec_lt}
use os192_ass2_multi_thread.Fs.{Fs, bsize, stopped, out_of_blocks, done, freeing_free_block}
use os192_ass2_multi_thread.Base.{
  ℕ, ◌<◌, if◌then◌else◌, ◌/◌, ◌≡◌, ◌%◌, ◌==◌, ◌||◌, ◌+◌, ◌≤◌, ltb, not, ◌&&◌, ◌*◌, true, ◌⊎◌, arith,
  false, ap, inl, suc, Bool-cases, inr, zero, refl, ◌-◌, ◌∙◌, ◌≢◌, sym,
}
use os192_ass2_multi_thread.Fs.Bitmap.{
  balloc_loop, bzero, in_use, unmark, bpb, mark, min, balloc, bfree,
}

-- The state that balloc leaves when it has chosen a block.
abbrev pub allocated : Fs → ℕ → Fs
allocated s b =
    let m = record s {
      block =
          λ x. if x == map_block s b then mark (b % bpb) (s.block (map_block s b)) else s.block x;
    } in
    record m {
      block = λ x. if x == b then (λ a. if ltb a bsize then 0 else m.block b a) else m.block x;
    }

used-here :
    (s : Fs) (b c : ℕ)
    → b % bpb ≡ 0
    → b ≤ c
    → c < b + bpb
    → used s c ≡ in_use (s.block (map_block s b)) (c - b)
used-here s b c z lo hi =
    let e : c / bpb ≡ b / bpb = omega arith in
    let f : c % bpb ≡ c - b = omega arith in
    ap (λ k. in_use (s.block (k + s.sb.bmapstart)) (c % bpb)) e
    ∙ ap (in_use (s.block (map_block s b))) f

chosen :
    (s : Fs) (b x : ℕ)
    → b % bpb ≡ 0
    → x < bpb
    → (map_block s (b + x) ≡ map_block s b) × ((b + x) % bpb ≡ x)
chosen s b x z h = (ap (λ k. k + s.sb.bmapstart) (omega arith), omega arith)

balloc_loop_lem :
    (s : Fs) (n b : ℕ)
    → b % bpb ≡ 0
    → s.sb.size < b + n * bpb
    → ((balloc_loop n b s ≡ stopped out_of_blocks)
        × ((c : ℕ) → b ≤ c → c < s.sb.size → used s c ≡ true))
      ⊎ ((x : ℕ) × (balloc_loop n b s ≡ done x (allocated s x))
          × (b ≤ x)
          × (x < s.sb.size)
          × (used s x ≡ false)
          × ((c : ℕ) → b ≤ c → c < x → used s c ≡ true))
unfolding balloc_loop bzero
balloc_loop_lem s zero b z h = inl (refl, λ c lo hi. absurd (omega arith))
balloc_loop_lem s (suc n) b z h = elim (Bool-cases (ltb b s.sb.size)) [
  | inr k ↦ inl (ground arith, λ c lo hi. absurd (ground arith))
  | inl y ↦ elim (find_clear_lem (s.block (map_block s b)) 0 (min bpb (s.sb.size - b))) [
    | inl (e, all) ↦
        let past : (c : ℕ) → b ≤ c → c < b + bpb → c < s.sb.size → used s c ≡ true =
          λ c lo hi small. used-here s b c z lo hi ∙ all (c - b) (omega arith) (omega arith) in
        elim (balloc_loop_lem s n (b + bpb) (omega arith) (omega arith)) [
          | inl (f, rest) ↦ inl (
            ground arith,
            λ c lo hi. elim (dec_lt c (b + bpb)) [
              | yes l ↦ past c lo l hi
              | no g ↦ rest c (omega arith) hi
            ],
          )
          | inr (x, f, lo, hi, clear, rest) ↦ inr (
            x,
            ground arith,
            omega arith,
            hi,
            clear,
            λ c lo' hi'. elim (dec_lt c (b + bpb)) [
              | yes l ↦ past c lo' l (omega arith)
              | no g ↦ rest c (omega arith) hi'
            ],
          )
        ]
    | inr (x, e, lo, hi, clear, all) ↦ inr (
      b + x,
      ground (arith, chosen s b x z (omega arith)),
      omega arith,
      omega arith,
      used-here s b (b + x) z (omega arith) (omega arith)
          ∙ (ap (in_use (s.block (map_block s b))) (omega arith) ∙ clear),
      λ c l k. used-here s b c z l (omega arith) ∙ all (c - b) (omega arith) (omega arith),
    )
  ]
]

-- balloc returns the first block that the map has free, marks it and no other block, and clears it; every
-- block but that one and its block of the map is as it was. It panics only if all blocks are in use. (The
-- map holds bytes and says that its own blocks are in use.)
pub balloc_lem :
    (s : Fs)
    → ((b : ℕ) → b < s.sb.size → AreBytes (s.block (map_block s b)))
    → ((b c : ℕ) → b < s.sb.size → c ≡ map_block s b → used s c ≡ true)
    → ((balloc s ≡ stopped out_of_blocks) × ((c : ℕ) → c < s.sb.size → used s c ≡ true))
      ⊎ ((x : ℕ) × (t : Fs) × (balloc s ≡ done x t)
          × (x < s.sb.size)
          × (used s x ≡ false)
          × ((c : ℕ) → c < x → used s c ≡ true)
          × ((c : ℕ) → c < s.sb.size → used t c ≡ (x == c || used s c))
          × ((a : ℕ) → a < bsize → t.block x a ≡ 0)
          × ((c : ℕ) → c ≢ x → c ≢ map_block s x → t.block c ≡ s.block c))
unfolding balloc
balloc_lem s bytes own =
    elim (balloc_loop_lem s (s.sb.size / bpb + 1) 0 (omega arith) (omega arith)) [
      | inl (e, all) ↦ inl (e, λ c h. all c (omega arith) h)
      | inr (x, e, lo, hi, clear, all) ↦ inr (
        x,
        allocated s x,
        e,
        hi,
        clear,
        λ c h. all c (omega arith) h,
        λ c h. marks x c hi clear h,
        λ a h. ground arith,
        λ c n k. ground arith,
      )
    ]
  where
    same_block :
        (x c k : ℕ)
        → k ≢ x
        → k ≡ map_block s x
        → in_use ((allocated s x).block k) (c % bpb)
          ≡ in_use (mark (x % bpb) (s.block (map_block s x))) (c % bpb)
    same_block x c k n m =
        let e : (allocated s x).block k ≡ mark (x % bpb) (s.block (map_block s x)) = ground arith in
        ap (λ f. in_use f (c % bpb)) e

    marks :
        (x c : ℕ)
        → x < s.sb.size
        → used s x ≡ false
        → c < s.sb.size
        → used (allocated s x) c ≡ (x == c || used s c)
    marks x c hx clear hc = elim (ℕ_discrete (map_block s c) x) [
      | yes e ↦ absurd (ground (arith, own c x hc (sym e)))
      | no ne ↦ elim (ℕ_discrete (map_block s c) (map_block s x)) [
        | no nm ↦ ground arith
        | yes m ↦
            let r : in_use (mark (x % bpb) (s.block (map_block s x))) (c % bpb)
                ≡ (x % bpb == c % bpb || in_use (s.block (map_block s x)) (c % bpb)) =
              in_use-mark (s.block (map_block s x)) (x % bpb) (c % bpb) (bytes x hx) in
            let q : in_use (s.block (map_block s x)) (c % bpb) ≡ used s c =
              ap (λ k. in_use (s.block k) (c % bpb)) (sym m) in
            let same : (x % bpb == c % bpb) ≡ (x == c) = ground arith in
            same_block x c (map_block s c) ne m
            ∙ (r
                ∙ (ap (λ b. b || in_use (s.block (map_block s x)) (c % bpb)) same
                    ∙ ap (λ b. (x == c) || b) q))
      ]
    ]

-- bfree of a block in use clears its bit and nothing else; of a block that is free it panics. (The map holds
-- bytes.)
pub bfree_lem :
    (s : Fs) (b : ℕ)
    → AreBytes (s.block (map_block s b))
    → ((used s b ≡ false) × (bfree b s ≡ stopped freeing_free_block))
      ⊎ ((used s b ≡ true)
          × ((t : Fs) × (bfree b s ≡ done tt t)
              × ((c : ℕ) → used t c ≡ (not (b == c) && used s c))
              × ((c : ℕ) → c ≢ map_block s b → t.block c ≡ s.block c)))
unfolding bfree
bfree_lem s b bytes = elim (Bool-cases (used s b)) [
  | inr k ↦ inl (k, ground arith)
  | inl y ↦ inr (y, (freed, ground arith, λ c. clears c, λ c n. ground arith))
]
  where
    freed : Fs
    freed = record s {
      block =
          λ x. if x == map_block s b then unmark (b % bpb) (s.block (map_block s b)) else s.block x;
    }

    clears : (c : ℕ) → used freed c ≡ (not (b == c) && used s c)
    clears c = elim (ℕ_discrete (map_block s c) (map_block s b)) [
      | no ne ↦ ground arith
      | yes m ↦
          let e : freed.block (map_block s c) ≡ unmark (b % bpb) (s.block (map_block s b)) =
            ground arith in
          let r = in_use-unmark (s.block (map_block s b)) (b % bpb) (c % bpb) bytes in
          let q : in_use (s.block (map_block s b)) (c % bpb) ≡ used s c =
            ap (λ k. in_use (s.block k) (c % bpb)) (sym m) in
          let same : (b % bpb == c % bpb) ≡ (b == c) = ground arith in
          ap (λ f. in_use f (c % bpb)) e
          ∙ (r
              ∙ (ap (λ x. not x && in_use (s.block (map_block s b)) (c % bpb)) same
                  ∙ ap (λ x. not (b == c) && x) q))
    ]
