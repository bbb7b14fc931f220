-- ===== src/Bio.antt =====
-- bio.c and the iderw of memide.c: the cache of disk blocks. A block's content is one value, as in
-- log.c's model; the list of buffers is `bcache.head`'s, the most recently used one first, and `id`
-- stands for a buffer's address.
pub mod Buffers
pub mod View
pub mod Getting
pub mod Reading
pub mod Writing
use os192_ass2_multi_thread.Spinlock.Sleep.{Sleeplock}
use os192_ass2_multi_thread.Base.{
  ◌+◌, Bool, true, ℕ, List, false, get_elem?, if◌then◌else◌, ◌^◌, ◌%◌, find_index, ◌==◌, ◌∷◌,
  Option, ◌&&◌, none, modify, suc, some, ◌-◌, not, leb, [], zero,
}

-- `struct buf`
pub record Buf : Type 0 where
  pub id : ℕ
  pub valid : Bool
  pub dirty : Bool
  pub dev : ℕ
  pub blockno : ℕ
  pub lock : Sleeplock
  pub refcnt : ℕ
  pub contents : ℕ

-- The cache and the disk, whose device number is 1.
pub record Bio : Type 0 where
  pub bufs : List Buf
  pub disk : ℕ → ℕ
  pub disksize : ℕ

pub data BioPanic : Type 0 where
  no_buffers bwrite_panic brelse_panic not_locked nothing_to_do wrong_disk out_of_range dangling :
      BioPanic

-- A call returns, goes to sleep on the lock of a buffer, or panics.
pub data Outcome (A : Type 0) : Type 0 where
  got : A → Bio → Outcome A
  waits : ℕ → Bio → Outcome A
  stopped : BioPanic → Outcome A

abbrev pub holds : ℕ → ℕ → Buf → Bool
holds dev blockno b = b.dev == dev && b.blockno == blockno

abbrev pub is_free : Buf → Bool
is_free b = b.refcnt == 0 && not b.dirty

-- The scan from the other end of the list.
abbrev pub find_last : (Buf → Bool) → List Buf → Option ℕ
find_last p [] = none
find_last p (b ∷ bs) = elim (find_last p bs) [
  | some i ↦ some (suc i)
  | none ↦ if p b then some 0 else none
]

abbrev pub cached : Buf → Buf
cached b = record b { refcnt = (b.refcnt + 1) % 2 ^ 32 }

abbrev pub recycled : ℕ → ℕ → Buf → Buf
recycled dev blockno b = record b {
  dev = dev;
  blockno = blockno;
  valid = false;
  dirty = false;
  refcnt = 1;
}

-- `holdingsleep(&b->lock)` in the process `pid`.
abbrev pub holds_lock : ℕ → Buf → Bool
holds_lock pid b = b.lock.locked && b.lock.pid == pid

abbrev pub taken : ℕ → Buf → Buf
taken pid b = record b { lock = record { locked = true; pid = pid } }

-- acquiresleep on the lock of the buffer at this place of the list.
abbrev pub lock_buf : ℕ → ℕ → Bio → Outcome ℕ
lock_buf pid i s = elim (get_elem? s.bufs i) [
  | none ↦ stopped dangling
  | some b ↦ elim b.lock.locked [
    | true ↦ waits b.id s
    | false ↦ got b.id (record s { bufs = modify s.bufs i (taken pid) })
  ]
]

unfoldable pub bget : ℕ → ℕ → ℕ → Bio → Outcome ℕ
bget pid dev blockno s = elim (find_index (holds dev blockno) s.bufs) [
  | some i ↦ lock_buf pid i (record s { bufs = modify s.bufs i cached })
  | none ↦ elim (find_last is_free s.bufs) [
    | some i ↦ lock_buf pid i (record s { bufs = modify s.bufs i (recycled dev blockno) })
    | none ↦ stopped no_buffers
  ]
]

abbrev pub find_buf : ℕ → List Buf → Option ℕ
find_buf id = find_index (λ (b : Buf). b.id == id)

abbrev pub flushed : Buf → Buf
flushed b = record b { valid = true; dirty = false }

abbrev pub filled : ℕ → Buf → Buf
filled v b = record b { valid = true; contents = v }

abbrev pub write_disk : ℕ → ℕ → (ℕ → ℕ) → ℕ → ℕ
write_disk blockno v disk a = if a == blockno then v else disk a

-- iderw of memide.c, on the buffer `b` at place `i`.
abbrev pub iderw_at : ℕ → ℕ → Buf → Bio → Outcome (Unit {0})
iderw_at pid i b s =
    if not (holds_lock pid b)
    then stopped not_locked
    else if b.valid && not b.dirty
    then stopped nothing_to_do
    else if not (b.dev == 1)
    then stopped wrong_disk
    else if leb s.disksize b.blockno
    then stopped out_of_range
    else if b.dirty
    then got tt
        (record s { bufs = modify s.bufs i flushed; disk = write_disk b.blockno b.contents s.disk })
    else got tt (record s { bufs = modify s.bufs i (filled (s.disk b.blockno)) })

-- A call on the buffer that a pointer names.
abbrev pub on_buf : {A : Type 0} → ℕ → (ℕ → Buf → Bio → Outcome A) → Bio → Outcome A
on_buf id f s = elim (find_buf id s.bufs) [
  | none ↦ stopped dangling
  | some i ↦ elim (get_elem? s.bufs i) [ none ↦ stopped dangling | some b ↦ f i b s ]
]

unfoldable pub iderw : ℕ → ℕ → Bio → Outcome (Unit {0})
iderw pid id = on_buf id (iderw_at pid)

abbrev pub and_then : {A B : Type 0} → Outcome A → (A → Bio → Outcome B) → Outcome B
and_then (got a s) f = f a s
and_then (waits id s) f = waits id s
and_then (stopped e) f = stopped e

-- `if((b->flags & B_VALID) == 0) iderw(b); return b;`
unfoldable pub fill : ℕ → ℕ → Bio → Outcome ℕ
unfolding iderw
fill pid id =
    on_buf id (λ i b s. if b.valid then got id s else and_then (iderw pid id s) (λ _ s'. got id s'))

unfoldable pub bread : ℕ → ℕ → ℕ → Bio → Outcome ℕ
unfolding bget fill
bread pid dev blockno s = and_then (bget pid dev blockno s) (fill pid)

abbrev pub dirtied : Buf → Buf
dirtied b = record b { dirty = true }

unfoldable pub bwrite : ℕ → ℕ → Bio → Outcome (Unit {0})
unfolding iderw
bwrite pid id = on_buf id (λ i b s.
    if holds_lock pid b
    then iderw pid id (record s { bufs = modify s.bufs i dirtied })
    else stopped bwrite_panic)

-- The list with the buffer at place `i` taken out, and with it put in front.
abbrev pub take_out : List Buf → ℕ → List Buf
take_out [] i = []
take_out (b ∷ bs) zero = bs
take_out (b ∷ bs) (suc i) = b ∷ take_out bs i

abbrev pub released : Buf → Buf
released b = record b {
  lock = record { locked = false; pid = 0 };
  refcnt = (b.refcnt + 2 ^ 32 - 1) % 2 ^ 32;
}

-- releasesleep, and what brelse does to the list.
unfoldable pub brelse : ℕ → ℕ → Bio → Outcome (Unit {0})
brelse pid id = on_buf id (λ i b s.
    if holds_lock pid b
    then (if (released b).refcnt == 0
        then got tt (record s { bufs = released b ∷ take_out s.bufs i })
        else got tt (record s { bufs = modify s.bufs i released }))
    else stopped brelse_panic)
