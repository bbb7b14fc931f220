-- ===== src/Bio/Reading.antt =====
-- bio.c: bget, bread, and the list behind brelse.
use os192_ass2_multi_thread.Bio.Getting.{SameView, Locked}
use os192_ass2_multi_thread.Bio.View.{view, CacheIsValid}
use os192_ass2_multi_thread.Base.{
  ℕ, ◌≡◌, some, true, find_index, none, ◌==◌, ==_iff, find_index-only,
}
use os192_ass2_multi_thread.Bio.{
  Bio, Buf, Outcome, got, holds, waits, stopped, find_last, is_free, find_buf,
}

-- The buffer that a caller has locked is the one that its pointer names.
pub find_buf-Locked :
    (pid blockno id : ℕ) (s : Bio) (l : Locked pid blockno id s)
    → CacheIsValid s
    → find_buf id s.bufs ≡ some l.place
find_buf-Locked pid blockno id s l v =
    find_index-only (λ (b : Buf). b.id == id) s.bufs l.place l.buf l.at_place
      ((==_iff l.buf.id id).1 l.same) (v.ids id)

-- The buffer is locked, was read, and holds what the block contains.
pub record Filled (pid blockno id content : ℕ) (t : Bio) : Type 0 where
  pub locked : Locked pid blockno id t
  pub valid : locked.buf.valid ≡ true
  pub right : locked.buf.contents ≡ content

abbrev KeepsSize : Bio → Outcome ℕ → Type 0
KeepsSize s (got id t) = t.disksize ≡ s.disksize
KeepsSize s (waits id t) = t.disksize ≡ s.disksize
KeepsSize s (stopped e) = Unit

abbrev pub Reads : ℕ → ℕ → Bio → Outcome ℕ → Type 0
Reads pid blockno s (got id t) =
    CacheIsValid t × SameView s t × Filled pid blockno id (view s blockno) t
Reads pid blockno s (waits id t) = CacheIsValid t × SameView s t
Reads pid blockno s (stopped e) =
    (find_index (holds 1 blockno) s.bufs ≡ none) × (find_last is_free s.bufs ≡ none)
