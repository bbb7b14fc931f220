-- ===== src/Bio/Writing.antt =====
-- bio.c: bwrite and brelse.
use mathlib.Core.Option
use os192_ass2_multi_thread.Bio.Buffers.{count-take_out, All-take_out}
use native.Mathlib.Decide.{ℕ_discrete}
use os192_ass2_multi_thread.Bio.View.{
  view_in, CacheIsValid, Sound, view, view_in-local, view_in-modify, view_in-take_out,
}
use os192_ass2_multi_thread.Bio.Reading.{find_buf-Locked}
use os192_ass2_multi_thread.Bio.Getting.{Locked, SameView, modify-CacheIsValid, modify-SameView}
use os192_ass2_multi_thread.Bio.{
  brelse, bwrite, Bio, Buf, holds, write_disk, got, flushed, dirtied, find_buf, released, take_out,
}
use os192_ass2_multi_thread.Base.{
  ℕ, List, get_elem?, ◌≢◌, ◌≡◌, some, ◌<◌, true, arith, ◌^◌, ◌≤◌, ◌∷◌, ◌⊎◌, modify, [], subst, suc,
  zero, get_elem?-modify_self, ◌∙◌, ◌==◌, sym, find_index-modify, modify-modify, refl, count,
  All-get, count-modify, All, count_pos, false, ap, ◌+◌,
}

-- The other buffers do not hold the block that is written.
All-write :
    (disk : ℕ → ℕ) (n v : ℕ) (bs : List Buf)
    → count (holds 1 n) bs ≡ 0
    → All (Sound disk) bs
    → All (Sound (write_disk n v disk)) bs
All-write disk n v [] c h = tt
All-write disk n v (b ∷ bs) c (h, hs) = (
  record { clean = λ f w d. ground (arith, h.clean f w d); fresh = h.fresh },
  All-write disk n v bs (ground arith) hs,
)

All-flush :
    (disk : ℕ → ℕ) (n v : ℕ) (bs : List Buf) (i : ℕ) (f : Buf → Buf) (b : Buf)
    → get_elem? bs i ≡ some b
    → holds 1 n b ≡ true
    → count (holds 1 n) bs ≤ 1
    → All (Sound disk) bs
    → Sound (write_disk n v disk) (f b)
    → All (Sound (write_disk n v disk)) (modify bs i f)
All-flush disk n v [] i f b e h c s ok = tt
All-flush disk n v (x ∷ bs) zero f b e h c (k, s) ok = (
  subst (λ y. Sound (write_disk n v disk) (f y)) (ground arith) ok,
  All-write disk n v bs (ground arith) s,
)
All-flush disk n v (x ∷ bs) (suc i) f b e h c (k, s) ok = (
  record {
    clean = λ g w d. ground (arith, k.clean g w d, count_pos (holds 1 n) bs i b);
    fresh = k.fresh;
  },
  All-flush disk n v bs i f b e h (ground arith) s ok,
)

view_in-write :
    (bs : List Buf) (disk : ℕ → ℕ) (n v a : ℕ)
    → n ≢ a
    → view_in bs (write_disk n v disk) a ≡ view_in bs disk a
view_in-write [] disk n v a h = ground arith
view_in-write (b ∷ bs) disk n v a h = ground (arith, view_in-write bs disk n v a)

-- bwrite by the holder of a buffer that was read, for a block of the disk, puts the buffer's content on the
-- disk and changes no other block of it; each block reads as before, and the holder keeps the buffer.
pub bwrite_lem :
    (pid blockno id : ℕ) (s : Bio) (l : Locked pid blockno id s)
    → CacheIsValid s
    → l.buf.valid ≡ true
    → blockno < s.disksize
    → (t : Bio) × (bwrite pid id s ≡ got tt t)
      × CacheIsValid t
      × Locked pid blockno id t
      × ((a : ℕ) → view t a ≡ view s a)
      × (t.disk blockno ≡ l.buf.contents)
      × ((a : ℕ) → a ≢ blockno → t.disk a ≡ s.disk a)
unfolding bwrite
bwrite_lem pid blockno id s l v y small = (
  record s {
    bufs = modify s.bufs l.place f;
    disk = write_disk l.buf.blockno l.buf.contents s.disk;
  },
  ground (
    arith,
    here,
    find_index-modify (λ (b : Buf). b.id == id) s.bufs l.place dirtied (λ x. refl),
    get_elem?-modify_self s.bufs l.place dirtied,
    modify-modify s.bufs l.place dirtied flushed,
  ),
  record {
    single = once;
    ids = λ k.
        ground
          (arith, v.ids k, count-modify (λ (b : Buf). b.id == k) s.bufs l.place f l.buf l.at_place);
    sound =
        All-flush s.disk l.buf.blockno l.buf.contents s.bufs l.place f l.buf l.at_place
          (ground (arith, l.block)) (ground (arith, v.single l.buf.blockno)) v.sound
          (record { clean = λ g w d. ground arith; fresh = λ x. absurd (ground arith) });
  },
  record {
    place = l.place;
    buf = f l.buf;
    at_place = at_f;
    same = l.same;
    block = l.block;
    mine = l.mine;
  },
  blocks,
  ground (arith, l.block),
  λ a n. ground (arith, l.block),
)
  where
    f : Buf → Buf
    f = λ b. flushed (dirtied b)

    here : find_buf id s.bufs ≡ some l.place
    here = find_buf-Locked pid blockno id s l v

    at_f :
        get_elem? (modify s.bufs l.place (λ b. flushed (dirtied b))) l.place
        ≡ some (flushed (dirtied l.buf))
    at_f = ground (arith, get_elem?-modify_self s.bufs l.place f, l.at_place)

    once : (a : ℕ) → count (holds 1 a) (modify s.bufs l.place (λ b. flushed (dirtied b))) ≤ 1
    once a = ground (arith, v.single a, count-modify (holds 1 a) s.bufs l.place f l.buf l.at_place)

    blocks :
        (a : ℕ)
        → view_in
            (modify s.bufs l.place (λ b. flushed (dirtied b)))
            (write_disk l.buf.blockno l.buf.contents s.disk)
            a
          ≡ view s a
    blocks a = elim (ℕ_discrete l.buf.blockno a) [
      | yes e ↦
          let h : holds 1 a l.buf ≡ true = ground (arith, l.block) in
          view_in-local (modify s.bufs l.place f) (write_disk l.buf.blockno l.buf.contents s.disk) a
            l.place (f l.buf) at_f h (once a)
          ∙ (ground arith
              ∙ sym (view_in-local s.bufs s.disk a l.place l.buf l.at_place h (v.single a)))
      | no n ↦
          view_in-write (modify s.bufs l.place f) s.disk l.buf.blockno l.buf.contents a n
          ∙ view_in-modify s.bufs s.disk a l.place f l.buf l.at_place (ground arith) (v.single a)
              (once a)
    ]

-- The buffer `c` is `b` unlocked, with one user less.
pub record Unlocked (b c : Buf) : Type 0 where
  pub open_lock : c.lock.locked ≡ false
  pub no_holder : c.lock.pid ≡ 0
  pub one_less : c.refcnt + 1 ≡ b.refcnt
  pub rest : record c { lock = b.lock; refcnt = b.refcnt } ≡ b

-- brelse by the holder of a buffer that is dirty or holds what the disk does: the buffer is unlocked, its count of
-- users is one less, it is otherwise as it was, and each block reads as before. A buffer that nobody uses any more
-- comes first in the list, so that it is the last one to be recycled.
pub brelse_lem :
    (pid blockno id : ℕ) (s : Bio) (l : Locked pid blockno id s)
    → CacheIsValid s
    → 0 < l.buf.refcnt
    → l.buf.refcnt < 2 ^ 32
    → (l.buf.dirty ≡ true) ⊎ (l.buf.contents ≡ s.disk blockno)
    → (t : Bio) × (brelse pid id s ≡ got tt t)
      × CacheIsValid t
      × SameView s t
      × ((i : ℕ) × (b : Buf) × (get_elem? t.bufs i ≡ some b)
          × Unlocked l.buf b
          × (l.buf.refcnt ≡ 1 → i ≡ 0))
unfolding brelse
brelse_lem pid blockno id s l v pos small backed = elim (ℕ_discrete l.buf.refcnt 1) [
  | yes e ↦ (
    record s { bufs = released l.buf ∷ take_out s.bufs l.place },
    ground (arith, here),
    record {
      single = λ a.
          ground (arith, v.single a, count-take_out (holds 1 a) s.bufs l.place l.buf l.at_place);
      ids = λ k.
          ground (
            arith,
            v.ids k,
            count-take_out (λ (b : Buf). b.id == k) s.bufs l.place l.buf l.at_place,
          );
      sound = (ok, All-take_out (Sound s.disk) s.bufs l.place v.sound);
    },
    record {
      disk = refl;
      blocks = λ a.
          view_in-take_out s.bufs s.disk a l.place l.buf (released l.buf) l.at_place refl refl refl
            refl (v.single a);
    },
    (0, released l.buf, refl, unlocked, λ _. refl),
  )
  | no n ↦ (
    record s { bufs = modify s.bufs l.place released },
    ground (arith, here),
    modify-CacheIsValid s l.place released l.buf l.at_place v refl once ok,
    modify-SameView s l.place released l.buf l.at_place v once (λ a. refl),
    (
      l.place,
      released l.buf,
      get_elem?-modify_self s.bufs l.place released ∙ ap (Option.map released) l.at_place,
      unlocked,
      λ e. absurd (n e),
    ),
  )
]
  where
    here : find_buf id s.bufs ≡ some l.place
    here = find_buf-Locked pid blockno id s l v

    unlocked : Unlocked l.buf (released l.buf)
    unlocked = record { open_lock = refl; no_holder = refl; one_less = omega arith; rest = refl }

    ok : Sound s.disk (released l.buf)
    ok =
        let k = All-get (Sound s.disk) s.bufs l.place l.buf v.sound l.at_place in
        record { clean = λ g w d. ground (arith, backed, l.block); fresh = k.fresh }

    once : (a : ℕ) → count (holds 1 a) (modify s.bufs l.place released) ≤ 1
    once a =
        ground
          (arith, v.single a, count-modify (holds 1 a) s.bufs l.place released l.buf l.at_place)
