-- ===== src/Fs/Directory/Search.antt =====
-- fs.c: dirlookup against the entries of a directory.
use os192_ass2_multi_thread.Fs.Content.{readi}
use native.Mathlib.Decide.{ℕ_discrete, dec_lt}
use os192_ass2_multi_thread.Fs.Steps.{bind-done}
use os192_ass2_multi_thread.Fs.Content.Transfer.{readi_lem}
use os192_ass2_multi_thread.Fs.Content.Reads.{bytes_from}
use os192_ass2_multi_thread.Fs.Content.Mapping.{Mapped, content}
use os192_ass2_multi_thread.Fs.{
  Fs, Inode, done, ◌>>=◌, pure, F, FsPanic, stop, dirlookup_read, inode_at, dirlookup_not_dir,
}
use os192_ass2_multi_thread.Fs.Inodes.{iget}
use os192_ass2_multi_thread.Fs.Directory.{
  find_entry, dirlookup, read_entry, is_entry_for, entry_inum, dirent_size, t_dir,
}
use os192_ass2_multi_thread.Base.{
  ℕ, List, Option, ◌≡◌, arith, refl, length, ◌*◌, Bool, ◌≤◌, ◌<◌, suc, false, ◌+◌, ap, some, zero,
  ◌∙◌, true, none, inl, inr, Bool-cases, ltb, ◌==◌, ◌/◌,
}

-- Entry `k` of a directory.
abbrev pub entry_at : Inode → Fs → ℕ → List ℕ
entry_at ip s k = bytes_from (content ip s.block) (k * dirent_size) dirent_size

-- What a search from entry `k` on among `n` entries gives: none of them passes the test, or the first that does.
abbrev pub Searched : (ℕ → List ℕ) → (List ℕ → Bool) → ℕ → ℕ → Option (List ℕ × ℕ) → Type 0
Searched es p k n none = (j : ℕ) → k ≤ j → j < n → p (es j) ≡ false
Searched es p k n (some (de, off)) =
    (j : ℕ) × (k ≤ j)
    × (j < n)
    × (off ≡ j * dirent_size)
    × (de ≡ es j)
    × (p de ≡ true)
    × ((m : ℕ) → k ≤ m → m < j → p (es m) ≡ false)

Searched-later :
    (es : ℕ → List ℕ) (p : List ℕ → Bool) (k n : ℕ) (r : Option (List ℕ × ℕ))
    → p (es k) ≡ false
    → Searched es p (k + 1) n r
    → Searched es p k n r
Searched-later es p k n none f h = λ j l b. elim (ℕ_discrete j k) [
  | yes e ↦ ap (λ i. p (es i)) e ∙ f
  | no ne ↦ h j (omega arith) b
]
Searched-later es p k n (some (de, off)) f (j, l, b, o, d, t, h) = (
  j,
  omega arith,
  b,
  o,
  d,
  t,
  λ m u v. elim (ℕ_discrete m k) [ yes e ↦ ap (λ i. p (es i)) e ∙ f | no ne ↦ h m (omega arith) v ],
)

is_type : (t : ℕ) → t ≡ t_dir → (t == t_dir) ≡ true
is_type t e = ground arith

is_less : (m n : ℕ) → m < n → ltb m n ≡ true
is_less m n h = ground arith

-- A round of the loop that searches a directory, by the entry that it reads.
module _ (devsw_read : ℕ → Option (ℕ → ℕ → F (Option (List ℕ))))
    (devsw_write : ℕ → Option (ℕ → List ℕ → F (Option ℕ))) (p : List ℕ → Bool) (e : FsPanic)
    (fuel i size off : ℕ) (s : Fs) (de : List ℕ)
    (reads : read_entry devsw_read devsw_write e i off s ≡ done de s)
    (more : ltb off size ≡ true) where
  after : List ℕ → F (Option (List ℕ × ℕ))
  after de' = elim (p de') [
    | true ↦ pure (some (de', off))
    | false ↦ find_entry devsw_read devsw_write p e fuel i size (off + dirent_size)
  ]

  round_hit :
      p de ≡ true
      → find_entry devsw_read devsw_write p e (suc fuel) i size off s ≡ done (some (de, off)) s
  unfolding find_entry after
  round_hit y =
      rw (more, find_entry)
        (bind-done s s (read_entry devsw_read devsw_write e i off) after reads ∙ rw (y, after) refl)

  round_on :
      p de ≡ false
      → find_entry devsw_read devsw_write p e (suc fuel) i size off s
        ≡ find_entry devsw_read devsw_write p e fuel i size (off + dirent_size) s
  unfolding find_entry after
  round_on f =
      rw (more, find_entry)
        (bind-done s s (read_entry devsw_read devsw_write e i off) after reads ∙ rw (f, after) refl)

-- What dirlookup makes of the entry that it found.
abbrev pub answer : Inode → Option (List ℕ × ℕ) → F (Option (ℕ × ℕ))
answer ip none = pure none
answer ip (some (de, off)) = do j ← iget ip.dev (entry_inum de); pure (some (j, off))

-- With any functions of the devices, on a directory of whole entries whose blocks are all there.
module _ (devsw_read : ℕ → Option (ℕ → ℕ → F (Option (List ℕ))))
    (devsw_write : ℕ → Option (ℕ → List ℕ → F (Option ℕ))) (s : Fs) (i : ℕ) (ip : Inode)
    (mapped : Mapped s i ip ip.size) (dir : ip.type ≡ t_dir) (n : ℕ)
    (whole : ip.size ≡ n * dirent_size) where
  readi-entry :
      (k : ℕ)
      → k < n
      → readi devsw_read devsw_write i (k * dirent_size) dirent_size s
        ≡ done (some (entry_at ip s k)) s
  readi-entry k h =
      let b = mapped.bounded in
      elim (readi_lem devsw_read devsw_write s i ip (k * dirent_size) dirent_size mapped
        (omega arith) (omega arith) (omega arith)) [
          | inl (a, e) ↦ absurd (omega arith)
          | inr (a, l, e) ↦
              e
              ∙ ap (λ c. done (some (bytes_from (content ip s.block) (k * dirent_size) c)) s)
                  {y = dirent_size} (ground arith)
        ]

  checked : FsPanic → Option (List ℕ) → F (List ℕ)
  checked e none = stop e
  checked e (some de) = elim (length de == dirent_size) [ true ↦ pure de | false ↦ stop e ]

  read_entry-at :
      (e : FsPanic) (k : ℕ)
      → k < n
      → read_entry devsw_read devsw_write e i (k * dirent_size) s ≡ done (entry_at ip s k) s
  unfolding read_entry checked
  read_entry-at e k h =
      bind-done s s (readi devsw_read devsw_write i (k * dirent_size) dirent_size) (checked e)
        (readi-entry k h)

  pub find_entry_lem :
      (p : List ℕ → Bool) (e : FsPanic) (fuel k : ℕ)
      → k ≤ n
      → n < k + fuel
      → (r : Option (List ℕ × ℕ)) × (find_entry devsw_read devsw_write p e fuel i ip.size
            (k * dirent_size)
            s
          ≡ done r s)
        × Searched (entry_at ip s) p k n r
  unfolding find_entry
  find_entry_lem p e zero k b h = absurd (omega arith)
  find_entry_lem p e (suc fuel) k b h = elim (dec_lt k n) [
    | no ge ↦ (none, ground arith, λ j l b. absurd (omega arith))
    | yes lt ↦
        let r = read_entry-at e k lt in
        let more = is_less (k * dirent_size) ip.size (omega arith) in
        elim (Bool-cases (p (entry_at ip s k))) [
          | inl y ↦ (
            some (entry_at ip s k, k * dirent_size),
            round_hit devsw_read devsw_write p e fuel i ip.size (k * dirent_size) s
                (entry_at ip s k) r more y,
            (k, omega arith, lt, refl, refl, y, λ m u v. absurd (omega arith)),
          )
          | inr f ↦
              let (x, ex, sx) = find_entry_lem p e fuel (k + 1) (omega arith) (omega arith) in
              (
                x,
                round_on devsw_read devsw_write p e fuel i ip.size (k * dirent_size) s
                      (entry_at ip s k) r more f
                    ∙ (ap (λ o. find_entry devsw_read devsw_write p e fuel i ip.size o s)
                          (omega arith)
                        ∙ ex),
                Searched-later (entry_at ip s) p k n x f sx,
              )
        ]
  ]

  -- dirlookup behind the read of `dp`.
  search : List ℕ → Inode → F (Option (ℕ × ℕ))
  search name dp = elim (dp.type == t_dir) [
    | false ↦ stop dirlookup_not_dir
    | true ↦ do
      r ←
          find_entry devsw_read devsw_write (is_entry_for name) dirlookup_read
            (dp.size / dirent_size + 2) i dp.size 0
      elim r [
        | none ↦ pure none
        | some (de, off) ↦ do j ← iget dp.dev (entry_inum de); pure (some (j, off))
      ]
  ]

  inode_at-mapped : inode_at i s ≡ done ip s
  inode_at-mapped = rw (mapped.at_place, inode_at) refl

  search_lem :
      (name : List ℕ)
      → search name ip s
        ≡ (find_entry devsw_read devsw_write
                (is_entry_for name)
                dirlookup_read
                (ip.size / dirent_size + 2)
                i
                ip.size
                0
              >>= (answer ip))
            s
  unfolding search
  search_lem name = rw (is_type ip.type dir, search) refl

  dirlookup-search : (name : List ℕ) → dirlookup devsw_read devsw_write i name s ≡ search name ip s
  unfolding dirlookup search
  dirlookup-search name = bind-done s s (inode_at i) (search name) inode_at-mapped

  -- dirlookup in a directory of whole entries whose blocks are all there gives, with the inode that iget enters
  -- for it and its offset, the first entry in use that has the name; or none, if no entry has.
  pub dirlookup_lem :
      (name : List ℕ)
      → (r : Option (List ℕ × ℕ)) × (dirlookup devsw_read devsw_write i name s ≡ answer ip r s)
        × Searched (entry_at ip s) (is_entry_for name) 0 n r
  dirlookup_lem name =
      let (r, e, f) =
        find_entry_lem (is_entry_for name) dirlookup_read (ip.size / dirent_size + 2) 0
          (omega arith) (omega arith) in
      (
        r,
        (dirlookup-search name ∙ search_lem name)
            ∙ bind-done s s
                (find_entry devsw_read devsw_write (is_entry_for name) dirlookup_read
                  (ip.size / dirent_size + 2) i ip.size 0)
                (answer ip) e,
        f,
      )
