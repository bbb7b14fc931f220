-- ===== src/Fs/Bytes.antt =====
-- fs.c: the 16 and 32-bit fields of a block, the low byte first.
use os192_ass2_multi_thread.Fs.{put_byte}
use os192_ass2_multi_thread.Base.{ℕ, ◌+◌, ◌<◌, ◌/◌, ◌^◌, ◌≤◌, ◌*◌, ◌≡◌, ◌⊎◌, arith, ◌%◌}

abbrev pub read16 : (ℕ → ℕ) → ℕ → ℕ
read16 m a = m a + 256 * m (a + 1)

abbrev pub read32 : (ℕ → ℕ) → ℕ → ℕ
read32 m a = read16 m a + 2 ^ 16 * read16 m (a + 2)

abbrev pub write16 : ℕ → ℕ → (ℕ → ℕ) → ℕ → ℕ
write16 a v m = put_byte (put_byte m a (v % 256)) (a + 1) (v / 256 % 256)

abbrev pub write32 : ℕ → ℕ → (ℕ → ℕ) → ℕ → ℕ
write32 a v m = write16 (a + 2) (v / 2 ^ 16) (write16 a v m)

pub read32-write32 : (m : ℕ → ℕ) (a v : ℕ) → v < 2 ^ 32 → read32 (write32 a v m) a ≡ v
read32-write32 m a v h = ground arith

pub read32-write32_ne :
    (m : ℕ → ℕ) (a b v : ℕ) → (a + 4 ≤ b) ⊎ (b + 4 ≤ a) → read32 (write32 a v m) b ≡ read32 m b
read32-write32_ne m a b v h = ground arith
