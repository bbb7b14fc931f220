-- ===== src/Log.antt =====
-- log.c: the write-ahead log. The header block is a field of its own, a list of block numbers whose
-- length is `n`; a block's content is any number. A buffer that is read holds what the disk or the
-- cache has, so bread and brelse show no state here.
pub mod Writes
pub mod Install
pub mod Recovery
use os192_ass2_multi_thread.Base.{
  ℕ, Bool, ◌+◌, [], List, if◌then◌else◌, Option, none, ◌∷◌, leb, ◌==◌, ◌++◌, false, length, ltb,
  ◌-◌, ◌||◌, some, ◌*◌, true,
}

abbrev pub maxopblocks : ℕ
maxopblocks = 10

abbrev pub logsize : ℕ
logsize = 30

-- `struct log`, with `lh.n` as the length of `lh`.
pub record Log : Type 0 where
  pub start : ℕ
  pub size : ℕ
  pub outstanding : ℕ
  pub committing : Bool
  pub lh : List ℕ

-- One round of the loop of begin_op: `none` is a sleep, after which the loop starts again.
unfoldable pub begin_op : Log → Option Log
begin_op l =
    if l.committing
    then none
    else (if ltb logsize (length l.lh + (l.outstanding + 1) * maxopblocks)
        then none
        else some (record l { outstanding = l.outstanding + 1 }))

-- end_op up to the release of the lock: the log, and whether this call commits. `none` is a panic.
unfoldable pub end_op : Log → Option (Log × Bool)
end_op l =
    if l.committing
    then none
    else (let n = l.outstanding - 1 in
        if n == 0
        then some (record l { outstanding = n; committing = true }, true)
        else some (record l { outstanding = n }, false))

-- end_op behind its commit.
unfoldable pub end_commit : Log → Log
end_commit l = record l { lh = []; committing = false }

-- The search of log_write, which leaves the list as it is if the block is there.
unfoldable pub absorb : ℕ → List ℕ → List ℕ
absorb b [] = b ∷ []
absorb b (c ∷ cs) = if c == b then b ∷ cs else c ∷ absorb b cs

unfoldable pub log_write : ℕ → Log → Option Log
unfolding absorb
log_write b l =
    if leb logsize (length l.lh) || leb (l.size - 1) (length l.lh)
    then none
    else (if ltb l.outstanding 1 then none else some (record l { lh = absorb b l.lh }))

-- The disk, and the writes to it in the order in which they reach it.
pub record Disk : Type 0 where
  pub header : List ℕ
  pub block : ℕ → ℕ

pub data Write : Type 0 where
  to_block : ℕ → ℕ → Write
  to_header : List ℕ → Write

abbrev pub store : ℕ → ℕ → (ℕ → ℕ) → ℕ → ℕ
store a v f x = if a == x then v else f x

abbrev pub apply : Write → Disk → Disk
apply (to_block a v) d = record d { block = store a v d.block }
apply (to_header bs) d = record d { header = bs }

abbrev pub run : List Write → Disk → Disk
run [] d = d
run (w ∷ ws) d = run ws (apply w d)

-- write_log: from the cache to the log blocks from `pos` on.
unfoldable pub write_log : (ℕ → ℕ) → ℕ → List ℕ → List Write
write_log cache pos [] = []
write_log cache pos (b ∷ bs) = to_block pos (cache b) ∷ write_log cache (pos + 1) bs

-- install_trans: the log blocks from `pos` on, as `log` has them, to their home locations.
unfoldable pub install_trans : (ℕ → ℕ) → ℕ → List ℕ → List Write
install_trans log pos [] = []
install_trans log pos (b ∷ bs) = to_block b (log pos) ∷ install_trans log (pos + 1) bs

-- commit, for a transaction that is not empty: all its writes to a disk.
unfoldable pub commit : (ℕ → ℕ) → ℕ → List ℕ → Disk → List Write
commit cache start lh d =
    let logged = write_log cache (start + 1) lh in
    logged
    ++ (to_header lh ∷ (install_trans (run logged d).block (start + 1) lh ++ (to_header [] ∷ [])))

-- recover_from_log: read_head, install_trans, and a header that is empty.
unfoldable pub recover_from_log : ℕ → Disk → Disk
unfolding install_trans
recover_from_log start d = record (run (install_trans d.block (start + 1) d.header) d) {
  header = [];
}
