-- ===== src/Strings.antt =====
-- string.c: the kernel's memory and string functions. Memory is a function from addresses to bytes;
-- a C string is the list of the bytes of the region that holds it.
pub mod Memory
pub mod Text
use mathlib.Core.Option
use os192_ass2_multi_thread.Base.{
  ℕ, suc, List, ℤ, if◌then◌else◌, Option, ◌==◌, ◌%◌, pos, ltb, ◌+◌, negsuc, some, none, diff, ◌&&◌,
  zero, ◌/◌, ◌∷◌, [], ◌*◌, not, replicate,
}

abbrev pub Memory : Type 0
Memory = ℕ → ℕ

abbrev pub write : Memory → ℕ → ℕ → Memory
write m a b x = if a == x then b else m x

-- stosb, and stosl with four equal bytes to the word.
unfoldable pub fill : Memory → ℕ → ℕ → ℕ → Memory
fill m dst c zero = m
fill m dst c (suc n) = fill (write m dst c) (dst + 1) c n

unfoldable pub memset : Memory → ℕ → ℕ → ℕ → Memory
unfolding fill
memset m dst c n =
    if dst % 4 == 0 && n % 4 == 0 then fill m dst (c % 256) (n / 4 * 4) else fill m dst (c % 256) n

-- `*s1 - *s2`, as a sign and a size.
unfoldable pub memcmp : Memory → ℕ → ℕ → ℕ → ℤ
memcmp m s1 s2 zero = pos 0
memcmp m s1 s2 (suc n) =
    let rest = memcmp m (s1 + 1) (s2 + 1) n in if m s1 == m s2 then rest else diff (m s1) (m s2)

-- The loop from the ends down: `n` bytes are left.
unfoldable pub copy_down : Memory → ℕ → ℕ → ℕ → Memory
copy_down m dst src zero = m
copy_down m dst src (suc n) = copy_down (write m (dst + n) (m (src + n))) dst src n

unfoldable pub copy_up : Memory → ℕ → ℕ → ℕ → Memory
copy_up m dst src zero = m
copy_up m dst src (suc n) = copy_up (write m dst (m src)) (dst + 1) (src + 1) n

unfoldable pub memmove : Memory → ℕ → ℕ → ℕ → Memory
unfolding copy_down copy_up
memmove m dst src n =
    if ltb src dst && ltb dst (src + n) then copy_down m dst src n else copy_up m dst src n

-- The string functions over lists of bytes: what a pointer points at, up to the end of its region.
-- A region that ends without NUL gives `none` where the source reads on.
unfoldable pub strlen : List ℕ → Option ℕ
strlen [] = none
strlen (c ∷ s) = if c == 0 then some 0 else Option.map suc (strlen s)

unfoldable pub strncmp : List ℕ → List ℕ → ℕ → Option ℤ
strncmp p q zero = some (pos 0)
strncmp [] q (suc n) = none
strncmp (a ∷ p) [] (suc n) = none
strncmp (a ∷ p) (b ∷ q) (suc n) = if not (a == 0) && a == b then strncmp p q n else some (diff a b)

-- The bytes that strncpy writes: those of `t` up to its NUL, and NULs.
unfoldable pub strncpy : List ℕ → ℕ → Option (List ℕ)
strncpy t zero = some []
strncpy [] (suc n) = none
strncpy (c ∷ t) (suc n) =
    let rest = strncpy t n in
    if c == 0 then some (replicate (suc n) 0) else Option.map (λ s. c ∷ s) rest

-- The bytes that safestrcpy writes for `n` > 0: it stops behind the NUL that it copies or adds.
unfoldable pub safestrcpy_loop : List ℕ → ℕ → Option (List ℕ)
safestrcpy_loop t zero = some (0 ∷ [])
safestrcpy_loop [] (suc n) = none
safestrcpy_loop (c ∷ t) (suc n) =
    let rest = safestrcpy_loop t n in
    if c == 0 then some (0 ∷ 0 ∷ []) else Option.map (λ s. c ∷ s) rest

unfoldable pub safestrcpy : List ℕ → ℤ → Option (List ℕ)
unfolding safestrcpy_loop
safestrcpy t (negsuc n) = some []
safestrcpy t (pos zero) = some []
safestrcpy t (pos (suc n)) = safestrcpy_loop t n
