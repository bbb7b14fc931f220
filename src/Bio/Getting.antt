-- ===== src/Bio/Getting.antt =====
-- bio.c: bget.
use os192_ass2_multi_thread.Bio.Buffers.{find_last-some}
use native.Mathlib.Decide.{ℕ_discrete}
use os192_ass2_multi_thread.Bio.View.{view, CacheIsValid, Sound, local, view_in-modify}
use os192_ass2_multi_thread.Base.{
  ℕ, List, ◌≡◌, get_elem?, some, ◌+◌, ◌<◌, modify, true, ◌^◌, find_index, ◌≤◌, none, arith, ◌==◌,
  subst, Bool-cases, get_elem?-modify_self, inl, inr, ◌∙◌, Option-cases, find_index-some, refl, sym,
  count, All, All-get, count-modify, All-modify, count_of_none,
}
use os192_ass2_multi_thread.Bio.{
  bget, Bio, Buf, Outcome, got, holds, waits, stopped, lock_buf, holds_lock, find_last, is_free,
  taken, cached, recycled, no_buffers,
}

-- No buffer is used so often that its count wraps.
abbrev pub CountsFit : List Buf → Type 0
CountsFit bs = All (λ b. b.refcnt + 1 < 2 ^ 32) bs

-- The buffer `id` is locked by `pid` and is for the block.
pub record Locked (pid blockno id : ℕ) (s : Bio) : Type 0 where
  pub place : ℕ
  pub buf : Buf
  pub at_place : get_elem? s.bufs place ≡ some buf
  pub same : buf.id ≡ id
  pub block : holds 1 blockno buf ≡ true
  pub mine : holds_lock pid buf ≡ true

pub record SameView (s t : Bio) : Type 0 where
  pub disk : t.disk ≡ s.disk
  pub blocks : (a : ℕ) → view t a ≡ view s a

abbrev pub Gets : ℕ → ℕ → Bio → Outcome ℕ → Type 0
Gets pid blockno s (got id t) = CacheIsValid t × SameView s t × Locked pid blockno id t
Gets pid blockno s (waits id t) = CacheIsValid t × SameView s t
Gets pid blockno s (stopped e) =
    (find_index (holds 1 blockno) s.bufs ≡ none) × (find_last is_free s.bufs ≡ none)

-- An update of one buffer that keeps its id and what it says of each block.
pub modify-CacheIsValid :
    (s : Bio) (i : ℕ) (f : Buf → Buf) (b : Buf)
    → get_elem? s.bufs i ≡ some b
    → CacheIsValid s
    → (f b).id ≡ b.id
    → ((a : ℕ) → count (holds 1 a) (modify s.bufs i f) ≤ 1)
    → Sound s.disk (f b)
    → CacheIsValid (record s { bufs = modify s.bufs i f })
modify-CacheIsValid s i f b e v same once ok = record {
  single = once;
  ids = λ id. ground (arith, v.ids id, count-modify (λ (b : Buf). b.id == id) s.bufs i f b);
  sound =
      All-modify (Sound s.disk) s.bufs i f v.sound
        (λ x q k. subst (λ y. Sound s.disk (f y)) (ground arith) ok);
}

pub modify-SameView :
    (s : Bio) (i : ℕ) (f : Buf → Buf) (b : Buf)
    → get_elem? s.bufs i ≡ some b
    → CacheIsValid s
    → ((a : ℕ) → count (holds 1 a) (modify s.bufs i f) ≤ 1)
    → ((a : ℕ) → local (f b) s.disk a ≡ local b s.disk a)
    → SameView s (record s { bufs = modify s.bufs i f })
modify-SameView s i f b e v once says = record {
  disk = refl;
  blocks = λ a. view_in-modify s.bufs s.disk a i f b e (says a) (v.single a) (once a);
}

lock_buf_lem :
    (pid blockno i : ℕ) (s t : Bio) (b : Buf)
    → get_elem? t.bufs i ≡ some b
    → holds 1 blockno b ≡ true
    → CacheIsValid t
    → SameView s t
    → Gets pid blockno s (lock_buf pid i t)
lock_buf_lem pid blockno i s t b e h v w = elim (Bool-cases b.lock.locked) [
  | inl l ↦
      let q : lock_buf pid i t ≡ waits b.id t = ground arith in
      subst (Gets pid blockno s) (sym q) (v, w)
  | inr l ↦
      let q : lock_buf pid i t ≡ got b.id (record t { bufs = modify t.bufs i (taken pid) }) =
        ground arith in
      subst (Gets pid blockno s) (sym q) (
        modify-CacheIsValid t i (taken pid) b e v refl once ok,
        record {
          disk = w.disk;
          blocks =
              λ a. (modify-SameView t i (taken pid) b e v once (λ a. refl)).blocks a ∙ w.blocks a;
        },
        record {
          place = i;
          buf = taken pid b;
          at_place = ground (arith, get_elem?-modify_self t.bufs i (taken pid));
          same = refl;
          block = h;
          mine = ground arith;
        },
      )
]
  where
    once : (a : ℕ) → count (holds 1 a) (modify t.bufs i (taken pid)) ≤ 1
    once a = ground (arith, v.single a, count-modify (holds 1 a) t.bufs i (taken pid) b)

    ok : Sound t.disk (taken pid b)
    ok =
        let k = All-get (Sound t.disk) t.bufs i b v.sound e in
        record { clean = k.clean; fresh = k.fresh }

-- bget on a cache that is not used out returns a buffer for the block, locked by the caller, or goes to sleep on
-- the lock of one; no block gets a second buffer, and each block reads as before. It panics only if the
-- block is not cached and no buffer is free.
pub bget_lem :
    (pid blockno : ℕ) (s : Bio)
    → CacheIsValid s
    → CountsFit s.bufs
    → Gets pid blockno s (bget pid 1 blockno s)
unfolding bget
bget_lem pid blockno s v fit = elim (Option-cases (find_index (holds 1 blockno) s.bufs)) [
  | inr (i, e) ↦
      let (b, q, h) = find_index-some (holds 1 blockno) s.bufs i e in
      subst (Gets pid blockno s) (sym (ground arith)) (hit i b q h)
  | inl e ↦ elim (Option-cases (find_last is_free s.bufs)) [
    | inl q ↦
        let r : bget pid 1 blockno s ≡ stopped no_buffers = ground arith in
        subst (Gets pid blockno s) (sym r) (e, q)
    | inr (i, q) ↦
        let (b, at, fr, _) = find_last-some is_free s.bufs i q in
        subst (Gets pid blockno s) (sym (ground arith)) (miss e i b at fr)
  ]
]
  where
    hit :
        (i : ℕ) (b : Buf)
        → get_elem? s.bufs i ≡ some b
        → holds 1 blockno b ≡ true
        → Gets pid blockno s (lock_buf pid i (record s { bufs = modify s.bufs i cached }))
    hit i b q h =
        let once : (a : ℕ) → count (holds 1 a) (modify s.bufs i cached) ≤ 1 =
          λ a. ground (arith, v.single a, count-modify (holds 1 a) s.bufs i cached b) in
        let k = All-get (Sound s.disk) s.bufs i b v.sound q in
        let f : b.refcnt + 1 < 2 ^ 32 = All-get (λ b. b.refcnt + 1 < 2 ^ 32) s.bufs i b fit q in
        lock_buf_lem pid blockno i s (record s { bufs = modify s.bufs i cached }) (cached b)
          (ground (arith, get_elem?-modify_self s.bufs i cached)) h
          (modify-CacheIsValid s i cached b q v refl once
            (record { clean = λ g. absurd (ground arith); fresh = k.fresh }))
          (modify-SameView s i cached b q v once (λ a. refl))

    miss :
        find_index (holds 1 blockno) s.bufs ≡ none
        → (i : ℕ) (b : Buf) → get_elem? s.bufs i ≡ some b
        → is_free b ≡ true
        → Gets pid blockno s
            (lock_buf pid i (record s { bufs = modify s.bufs i (recycled 1 blockno) }))
    miss e i b at fr =
        let f = recycled 1 blockno in
        let once : (a : ℕ) → count (holds 1 a) (modify s.bufs i f) ≤ 1 = λ a.
          elim (ℕ_discrete blockno a) [
            | yes y ↦
                subst (λ a. count (holds 1 a) (modify s.bufs i f) ≤ 1) y
                  (ground (
                    arith,
                    count-modify (holds 1 blockno) s.bufs i f b,
                    count_of_none (holds 1 blockno) s.bufs e,
                  ))
            | no n ↦ ground (arith, v.single a, count-modify (holds 1 a) s.bufs i f b)
          ] in
        let k = All-get (Sound s.disk) s.bufs i b v.sound at in
        lock_buf_lem pid blockno i s (record s { bufs = modify s.bufs i f }) (f b)
          (ground (arith, get_elem?-modify_self s.bufs i f)) (ground arith)
          (modify-CacheIsValid s i f b at v refl once
            (record { clean = λ g w. absurd (ground arith); fresh = λ _. refl }))
          (modify-SameView s i f b at v once (λ a. ground (arith, k.clean fr)))
