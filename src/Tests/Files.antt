-- ===== src/Tests/Files.antt =====
-- The theorems on the buffer cache, the file system and the shell applied to concrete states.
use os192_ass2_multi_thread.Bio.Writing.{brelse_lem, bwrite_lem, Unlocked}
use os192_ass2_multi_thread.Bio.{Bio, Buf, brelse, bwrite, got}
use os192_ass2_multi_thread.Bio.Getting.{Locked, SameView}
use os192_ass2_multi_thread.Bio.View.{CacheIsValid, view}
use os192_ass2_multi_thread.Base.{
  ℕ, true, ◌∷◌, arith, ◌+◌, refl, false, [], ◌≡◌, ◌≢◌, inr, get_elem?, some,
}
use os192_ass2_multi_thread.Spinlock.Sleep.{Sleeplock}

-- Block 5 is cached and held by process 3; the buffer of block 7 is free.
abbrev test_buf : ℕ → ℕ → ℕ → Sleeplock → ℕ → Buf
test_buf id blockno refcnt lock contents = record {
  id = id;
  valid = true;
  dirty = false;
  dev = 1;
  blockno = blockno;
  lock = lock;
  refcnt = refcnt;
  contents = contents;
}

abbrev test_disk : ℕ → ℕ
test_disk a = a + 100

abbrev held : Sleeplock
held = record { locked = true; pid = 3 }

abbrev test_bio : Bio
test_bio = record {
  bufs = test_buf 0 5 1 held 55 ∷ test_buf 1 7 0 (record { locked = false; pid = 0 }) 107 ∷ [];
  disk = test_disk;
  disksize = 1000;
}

test_bio-CacheIsValid : CacheIsValid test_bio
test_bio-CacheIsValid = record {
  single = λ a. ground arith;
  ids = λ id. ground arith;
  sound = (
    record { clean = λ x y z. ground arith; fresh = λ x. ground arith },
    (record { clean = λ x y z. ground arith; fresh = λ x. ground arith }, tt),
  );
}

abbrev test_Locked : Locked 3 5 0 test_bio
test_Locked = record {
  place = 0;
  buf = test_buf 0 5 1 held 55;
  at_place = refl;
  same = refl;
  block = refl;
  mine = refl;
}

bwrite_lem_example :
    (t : Bio) × (bwrite 3 0 test_bio ≡ got tt t)
    × CacheIsValid t
    × Locked 3 5 0 t
    × ((a : ℕ) → view t a ≡ view test_bio a)
    × (t.disk 5 ≡ 55)
    × ((a : ℕ) → a ≢ 5 → t.disk a ≡ test_disk a)
bwrite_lem_example = bwrite_lem 3 5 0 test_bio test_Locked test_bio-CacheIsValid refl (omega arith)

-- Process 3 holds a copy of what the disk has.
abbrev clean_bio : Bio
clean_bio = record test_bio {
  bufs = test_buf 1 7 0 (record { locked = false; pid = 0 }) 107 ∷ test_buf 0 5 1 held 105 ∷ [];
}

clean_bio-CacheIsValid : CacheIsValid clean_bio
clean_bio-CacheIsValid = record {
  single = λ a. ground arith;
  ids = λ id. ground arith;
  sound = (
    record { clean = λ x y z. ground arith; fresh = λ x. ground arith },
    (record { clean = λ x y z. ground arith; fresh = λ x. ground arith }, tt),
  );
}

abbrev clean_Locked : Locked 3 5 0 clean_bio
clean_Locked = record {
  place = 1;
  buf = test_buf 0 5 1 held 105;
  at_place = refl;
  same = refl;
  block = refl;
  mine = refl;
}

brelse_lem_example :
    (t : Bio) × (brelse 3 0 clean_bio ≡ got tt t)
    × CacheIsValid t
    × SameView clean_bio t
    × ((i : ℕ) × (b : Buf) × (get_elem? t.bufs i ≡ some b)
        × Unlocked clean_Locked.buf b
        × (clean_Locked.buf.refcnt ≡ 1 → i ≡ 0))
brelse_lem_example =
    brelse_lem 3 5 0 clean_bio clean_Locked clean_bio-CacheIsValid (omega arith) (omega arith)
      (inr refl)
