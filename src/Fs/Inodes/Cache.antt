-- ===== src/Fs/Inodes/Cache.antt =====
-- fs.c: the cache of inodes under iget.
use os192_ass2_multi_thread.Fs.{Fs, Inode, done, stopped, iget_no_inodes}
use os192_ass2_multi_thread.Fs.Inodes.{iget, matches, is_empty, entered}
use os192_ass2_multi_thread.Base.{
  ℕ, List, ◌≡◌, count, true, ◌≤◌, get_elem?, ◌+◌, ◌⊎◌, some, ◌≢◌, find_index, none, false, modify,
  Bool-cases, ◌==◌, ◌&&◌, inl, arith, subst, count_of_none, count-modify, inr, Option-cases,
  find_index-some, get_elem?-modify_self, get_elem?-modify_ne, refl,
}

-- No two entries that are in use are for one inode.
abbrev pub OneEach : List Inode → Type 0
OneEach ips = (dev inum : ℕ) → count (matches dev inum) ips ≤ 1

-- What iget makes of the entry `ip`: one reference more, or a new entry where none was.
abbrev pub Entry : ℕ → ℕ → Fs → Inode → Inode → Type 0
Entry dev inum s ip jp =
    ((matches dev inum ip ≡ true) × (jp ≡ record ip { ref = ip.ref + 1 }))
    ⊎ ((find_index (matches dev inum) s.inodes ≡ none)
        × (ip.ref ≡ 0)
        × (jp ≡ record ip { dev = dev; inum = inum; ref = 1; valid = false }))

-- iget returns an entry for the inode: the one in use, with a reference more, or else a free one, which is then
-- the only one for it and not valid; the others stay as they are. It panics only if there is neither.
pub iget_lem :
    (s : Fs) (dev inum : ℕ)
    → OneEach s.inodes
    → ((i : ℕ) × (ip jp : Inode) × (t : Fs) × (iget dev inum s ≡ done i t)
        × OneEach t.inodes
        × (get_elem? s.inodes i ≡ some ip)
        × (get_elem? t.inodes i ≡ some jp)
        × Entry dev inum s ip jp
        × ((j : ℕ) → i ≢ j → get_elem? t.inodes j ≡ get_elem? s.inodes j))
      ⊎ ((iget dev inum s ≡ stopped iget_no_inodes)
          × (find_index (matches dev inum) s.inodes ≡ none)
          × (find_index is_empty s.inodes ≡ none))
unfolding iget
iget_lem s dev inum one = elim (Option-cases (find_index (matches dev inum) s.inodes)) [
  | inr (i, e) ↦
      (let (ip, at, h) = find_index-some (matches dev inum) s.inodes i e in
        let f = λ (ip : Inode). record ip { ref = ip.ref + 1 } in
        inl (
          i,
          ip,
          f ip,
          record s { inodes = modify s.inodes i f },
          ground arith,
          λ d n. ground (arith, one d n, count-modify (matches d n) s.inodes i f ip),
          at,
          ground (arith, get_elem?-modify_self s.inodes i f),
          inl (h, refl),
          λ j ne. get_elem?-modify_ne s.inodes i j f ne,
        ))
  | inl e ↦ elim (Option-cases (find_index is_empty s.inodes)) [
    | inl q ↦ inr (ground arith, e, q)
    | inr (i, q) ↦
        let (ip, at, h) = find_index-some is_empty s.inodes i q in
        let f = entered dev inum in
        inl (
          i,
          ip,
          f ip,
          record s { inodes = modify s.inodes i f },
          ground arith,
          λ d n. fresh d n i ip e at,
          at,
          ground (arith, get_elem?-modify_self s.inodes i f),
          inr (e, ground arith, refl),
          λ j ne. get_elem?-modify_ne s.inodes i j f ne,
        )
  ]
]
  where
    fresh :
        (d n i : ℕ) (ip : Inode)
        → find_index (matches dev inum) s.inodes ≡ none
        → get_elem? s.inodes i ≡ some ip
        → count (matches d n) (modify s.inodes i (entered dev inum)) ≤ 1
    fresh d n i ip e at = elim (Bool-cases (dev == d && inum == n)) [
      | inl y ↦
          let p : dev ≡ d = ground arith in
          let q : inum ≡ n = ground arith in
          let z : count (matches d n) s.inodes ≡ 0 =
            subst (λ d. count (matches d n) s.inodes ≡ 0) p
              (subst (λ n. count (matches dev n) s.inodes ≡ 0) q
                (count_of_none (matches dev inum) s.inodes e)) in
          ground (arith, z, count-modify (matches d n) s.inodes i (entered dev inum) ip)
      | inr k ↦ ground (arith, one d n, count-modify (matches d n) s.inodes i (entered dev inum) ip)
    ]
