-- ===== src/Ulib.antt =====
-- ulib.c and printf.c of the user library: strings as lists of bytes, and decimal numbers. A region
-- that ends without NUL gives `none` where the source reads on.
pub mod Numbers
use os192_ass2_multi_thread.Base.{
  ℤ, ℕ, List, Bool, ◌∷◌, if◌then◌else◌, Option, none, ltb, [], pos, suc, length, ◌+◌, not, ◌*◌,
  negsuc, ◌==◌, ◌||◌, ◌-◌, ◌/◌, ◌&&◌, some, ◌^◌, diff, ◌%◌, zero, true, leb, false,
}
use mathlib.Core.Option

-- The bytes that strcpy writes.
unfoldable pub strcpy : List ℕ → Option (List ℕ)
strcpy [] = none
strcpy (c ∷ t) =
    let rest = strcpy t in if c == 0 then some (0 ∷ []) else Option.map (λ s. c ∷ s) rest

unfoldable pub strcmp : List ℕ → List ℕ → Option ℤ
strcmp [] q = none
strcmp (a ∷ p) [] = none
strcmp (a ∷ p) (b ∷ q) = if not (a == 0) && a == b then strcmp p q else some (diff a b)

-- What the pointer that strchr returns points at; `some none` is the null pointer.
unfoldable pub strchr : List ℕ → ℕ → Option (Option (List ℕ))
strchr [] c = none
strchr (a ∷ s) c =
    let rest = strchr s c in
    if a == 0 then some none else (if a == c then some (some (a ∷ s)) else rest)

-- The bytes that gets writes for `max` = n + 1, from this input: it stops behind a newline or a return.
unfoldable pub gets : List ℕ → ℕ → List ℕ
gets input zero = 0 ∷ []
gets [] (suc n) = 0 ∷ []
gets (c ∷ input) (suc n) =
    let rest = gets input n in if c == 10 || c == 13 then c ∷ 0 ∷ [] else c ∷ rest

-- The `int` that a word of 32 bits is.
abbrev pub int_of : ℕ → ℤ
int_of w = if ltb w (2 ^ 31) then pos w else negsuc (2 ^ 32 - 1 - w)

-- atoi, from a partial result; `none` where the text ends without another character. An `int` is its word of 32
-- bits, which wraps around.
unfoldable pub atoi_loop : ℕ → List ℕ → Option ℕ
atoi_loop n [] = none
atoi_loop n (c ∷ s) =
    let rest = atoi_loop ((n * 10 + c + 2 ^ 32 - 48) % 2 ^ 32) s in
    if leb 48 c && leb c 57 then rest else some n

unfoldable pub atoi : List ℕ → Option ℤ
unfolding atoi_loop
atoi s = Option.map int_of (atoi_loop 0 s)

-- `digits[d]`
abbrev pub digit : ℕ → ℕ
digit d = if ltb d 10 then 48 + d else 55 + d

-- The loop of printint with room for `n` more bytes in `buf`, which is printed from its end: the byte
-- written last stands first. `none` is a write behind the buffer.
unfoldable pub digits_loop : ℕ → ℕ → ℕ → List ℕ → Option (List ℕ)
digits_loop zero base x buf = none
digits_loop (suc n) base x buf =
    let more = digits_loop n base (x / base) (digit (x % base) ∷ buf) in
    if x / base == 0 then some (digit (x % base) ∷ buf) else more

-- `buf[i++] = '-'`, which needs a byte of the 16.
abbrev pub minus_sign : List ℕ → Option (List ℕ)
minus_sign buf = if ltb (length buf) 16 then some (45 ∷ buf) else none

-- The bytes that printint prints.
unfoldable pub printint : ℤ → ℕ → Bool → Option (List ℕ)
unfolding digits_loop
printint (pos n) base sgn = digits_loop 16 base n []
printint (negsuc n) base true = Option.bind (digits_loop 16 base (n + 1) []) minus_sign
printint (negsuc n) base false = digits_loop 16 base (2 ^ 32 - n - 1) []
