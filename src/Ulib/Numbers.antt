-- ===== src/Ulib/Numbers.antt =====
-- ulib.c and printf.c: printint and atoi.

use mathlib.Core.Option
use native.Mathlib.Nat.{pow-suc, pow-zero}
use os192_ass2_multi_thread.Base.{
  zero, ℕ, List, ◌<◌, ◌^◌, ◌≡◌, ◌∷◌, pos, true, some, ◌*◌, length, ◌++◌, ◌+◌, [], ◌≤◌, arith,
  negsuc, suc, leb, ◌/◌, ◌&&◌, ◌∙◌, ap, ltb, ◌==◌, refl, false, Bool-cases, inl, ◌%◌, inr,
  if◌then◌else◌, ◌-◌,
}
use os192_ass2_multi_thread.Ulib.{printint, digits_loop, atoi_loop, atoi, digit, int_of}

-- atoi reads one digit.
atoi_loop-digit :
    (m d : ℕ) (s : List ℕ)
    → d < 10
    → m * 10 + d < 2 ^ 32
    → atoi_loop m (digit d ∷ s) ≡ atoi_loop (m * 10 + d) s
unfolding atoi_loop
atoi_loop-digit m d s h k =
    let e : digit d ≡ 48 + d = ground arith in
    let f : (leb 48 (48 + d) && leb (48 + d) 57) ≡ true = ground arith in
    rw e (rw f (ap (λ k. atoi_loop k s) (omega arith)))

-- With room for `n` digits or more, a number below 10 ^ n is printed in at most `n` bytes, and atoi reads its digits
-- back, whatever follows them.
digits-atoi :
    (room n x : ℕ) (buf : List ℕ)
    → x < 10 ^ n
    → x < 2 ^ 32
    → 0 < n
    → n ≤ room
    → (ds : List ℕ) × (digits_loop room 10 x buf ≡ some ds)
      × (length ds ≤ n + length buf)
      × ((end : List ℕ) → atoi_loop 0 (ds ++ end) ≡ atoi_loop x (buf ++ end))
unfolding digits_loop
digits-atoi zero n x buf h w p r = absurd (omega arith)
digits-atoi (suc room) zero x buf h w p r = absurd (omega arith)
digits-atoi (suc room) (suc n) x buf h w p fit = elim (Bool-cases (x / 10 == 0)) [
  | inl e ↦ (
    digit (x % 10) ∷ buf,
    ground arith,
    omega arith,
    λ end.
        atoi_loop-digit 0 (x % 10) (buf ++ end) (omega arith) (omega arith)
        ∙ ap (λ k. atoi_loop k (buf ++ end)) (ground arith),
  )
  | inr e ↦
      let (ds, q, l, r) =
        digits-atoi room n (x / 10) (digit (x % 10) ∷ buf) (small n h) (omega arith)
          (positive n h e) (omega arith) in
      (
        ds,
        rw e q,
        omega (arith, l),
        λ end.
            r end
            ∙ (atoi_loop-digit (x / 10) (x % 10) (buf ++ end) (omega arith) (omega arith)
                ∙ ap (λ k. atoi_loop k (buf ++ end)) (omega arith)),
      )
]
  where
    small : (n : ℕ) → x < 10 ^ suc n → x / 10 < 10 ^ n
    small n h = omega (arith, pow-suc 10 n)

    positive : (n : ℕ) → x < 10 ^ suc n → (x / 10 == 0) ≡ false → 0 < n
    positive zero h e = absurd (ground (arith, pow-suc 10 0, pow-zero 10))
    positive (suc n) h e = omega arith

-- printint prints a 32-bit `int` in base 10 within its buffer. atoi, on what is printed behind the minus sign of a
-- negative number, with a NUL at the end, returns the absolute value; but on the digits of -2 ^ 31 its `int` wraps
-- around, and it returns -2 ^ 31.
pub atoi-printint :
    (n : ℕ)
    → n < 2 ^ 31
    → ((s : List ℕ) × (printint (pos n) 10 true ≡ some s) × (atoi (s ++ (0 ∷ [])) ≡ some (pos n)))
      × ((s : List ℕ) × (printint (negsuc n) 10 true ≡ some (45 ∷ s))
          × (atoi (s ++ (0 ∷ [])) ≡ some (if n == 2 ^ 31 - 1 then negsuc n else pos (n + 1))))
unfolding printint atoi atoi_loop mathlib.Core.Option.bind
atoi-printint n h = (plain, signed)
  where
    fits : (ds : List ℕ) → length ds ≤ 10 + 0 → ltb (length ds) 16 ≡ true
    fits ds l = ground arith

    own : int_of n ≡ pos n
    own = ground arith

    next : int_of (n + 1) ≡ (if n == 2 ^ 31 - 1 then negsuc n else pos (n + 1))
    next = ground arith

    plain :
        (s : List ℕ) × (printint (pos n) 10 true ≡ some s) × (atoi (s ++ (0 ∷ [])) ≡ some (pos n))
    plain =
        let (ds, q, l, r) =
          digits-atoi 16 10 n [] (omega arith) (omega arith) (omega arith) (omega arith) in
        (ds, q, ap (Option.map int_of) (r (0 ∷ [])) ∙ ap some own)

    signed :
        (s : List ℕ) × (printint (negsuc n) 10 true ≡ some (45 ∷ s))
        × (atoi (s ++ (0 ∷ [])) ≡ some (if n == 2 ^ 31 - 1 then negsuc n else pos (n + 1)))
    signed =
        let (ds, q, l, r) =
          digits-atoi 16 10 (n + 1) [] (omega arith) (omega arith) (omega arith) (omega arith) in
        (ds, rw q (rw (fits ds l) refl), ap (Option.map int_of) (r (0 ∷ [])) ∙ ap some next)
