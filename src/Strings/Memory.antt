-- ===== src/Strings/Memory.antt =====
-- string.c: what memset and memmove leave in each byte of the memory.
use native.Mathlib.Nat.{add-zero}
use os192_ass2_multi_thread.Base.{
  ℕ, ◌<◌, ◌≤◌, ◌≡◌, Bool, pos, ◌⊎◌, leb, if◌then◌else◌, ◌&&◌, ◌↔◌, ◌+◌, arith, ◌%◌, ◌/◌, ltb, suc,
  ◌-◌, zero, Bool-cases, ◌*◌, inl, inr, ap, ◌≢◌, ◌∙◌, sym, diff, refl,
}
use os192_ass2_multi_thread.Strings.{
  Memory, write, fill, memset, copy_down, copy_up, memmove, memcmp,
}

-- The address lies in the `n` bytes from `start`.
abbrev pub inside : ℕ → ℕ → ℕ → Bool
inside start n a = leb start a && ltb a (start + n)

fill_lem : (m : Memory) (dst c n a : ℕ) → fill m dst c n a ≡ (if inside dst n a then c else m a)
unfolding fill
fill_lem m dst c zero a = ground arith
fill_lem m dst c (suc n) a = ground (arith, fill_lem (write m dst c) (dst + 1) c n a)

-- memset sets every byte of the block to the low byte of its argument, and no other byte, whether it
-- goes by words or by bytes.
pub memset_lem :
    (m : Memory) (dst c n a : ℕ) → memset m dst c n a ≡ (if inside dst n a then c % 256 else m a)
unfolding memset
memset_lem m dst c n a =
    ground (arith, fill_lem m dst (c % 256) n a, fill_lem m dst (c % 256) (n / 4 * 4) a)

-- Downwards, a block may be moved to a higher address.
copy_down_lem :
    (m : Memory) (dst src n a : ℕ)
    → src < dst
    → copy_down m dst src n a ≡ (if inside dst n a then m (src + (a - dst)) else m a)
unfolding copy_down
copy_down_lem m dst src zero a h = ground arith
copy_down_lem m dst src (suc n) a h =
    ground (arith, copy_down_lem (write m (dst + n) (m (src + n))) dst src n a)

-- Upwards, to a lower one, or to one behind its end.
copy_up_lem :
    (m : Memory) (dst src n a : ℕ)
    → (dst ≤ src) ⊎ (src + n ≤ dst)
    → copy_up m dst src n a ≡ (if inside dst n a then m (src + (a - dst)) else m a)
unfolding copy_up
copy_up_lem m dst src zero a h = ground arith
copy_up_lem m dst src (suc n) a h =
    ground (arith, copy_up_lem (write m dst (m src)) (dst + 1) (src + 1) n a)

-- memmove leaves in the destination the bytes that the source held before the call, also where the two
-- blocks overlap, and changes no byte outside the destination.
pub memmove_lem :
    (m : Memory) (dst src n a : ℕ)
    → memmove m dst src n a ≡ (if inside dst n a then m (src + (a - dst)) else m a)
unfolding memmove
memmove_lem m dst src n a = elim (Bool-cases (ltb src dst && ltb dst (src + n))) [
  | inl y ↦ rw y (copy_down_lem m dst src n a (ground arith))
  | inr y ↦ rw y (copy_up_lem m dst src n a (ground arith))
]

diff-ne_zero : (a b : ℕ) → a ≢ b → diff a b ≢ pos 0
diff-ne_zero a b h = ground arith

memcmp-equal :
    (m : Memory) (s1 s2 n : ℕ)
    → memcmp m s1 s2 n ≡ pos 0
    → (i : ℕ) → i < n
    → m (s1 + i) ≡ m (s2 + i)
unfolding memcmp
memcmp-equal m s1 s2 zero h i lt = absurd (omega arith)
memcmp-equal m s1 s2 (suc n) h zero lt =
    ap m (add-zero s1) ∙ (ground (arith, diff-ne_zero (m s1) (m s2)) ∙ ap m (sym (add-zero s2)))
memcmp-equal m s1 s2 (suc n) h (suc i) lt =
    ap m (omega arith)
    ∙ (memcmp-equal m (s1 + 1) (s2 + 1) n (ground (arith, diff-ne_zero (m s1) (m s2))) i
          (omega arith)
        ∙ ap m (omega arith))

memcmp_of_equal :
    (m : Memory) (s1 s2 n : ℕ)
    → ((i : ℕ) → i < n → m (s1 + i) ≡ m (s2 + i))
    → memcmp m s1 s2 n ≡ pos 0
unfolding memcmp
memcmp_of_equal m s1 s2 zero h = refl
memcmp_of_equal m s1 s2 (suc n) h =
    let first : m s1 ≡ m s2 = ap m (sym (add-zero s1)) ∙ (h 0 (omega arith) ∙ ap m (add-zero s2)) in
    ground (
      arith,
      memcmp_of_equal m (s1 + 1) (s2 + 1) n
          (λ i lt. ap m (omega arith) ∙ (h (suc i) (omega arith) ∙ ap m (omega arith))),
    )

-- memcmp returns 0 exactly when the two blocks hold the same bytes.
pub memcmp-zero :
    (m : Memory) (s1 s2 n : ℕ)
    → (memcmp m s1 s2 n ≡ pos 0) ↔ ((i : ℕ) → i < n → m (s1 + i) ≡ m (s2 + i))
memcmp-zero m s1 s2 n = (memcmp-equal m s1 s2 n, memcmp_of_equal m s1 s2 n)
