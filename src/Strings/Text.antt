-- ===== src/Strings/Text.antt =====
-- string.c: what the bounded string functions write.

use os192_ass2_multi_thread.Base.{
  ℕ, List, ◌≡◌, some, ◌<◌, length, pos, arith, ◌≤◌, ◌-◌, suc, take, ◌∷◌, [], zero, refl, Bool-cases,
  ap, ◌==◌, inl, inr, length-replicate, Option-cases,
}
use os192_ass2_multi_thread.Strings.{strlen, strncpy, safestrcpy, safestrcpy_loop}
use Prim.Native.Nat.{min}

min_zero : (l : ℕ) → min l 0 ≡ 0
min_zero l = omega arith

min-suc : (l k n : ℕ) → l ≡ suc k → min l (suc n) ≡ suc (min k n)
min-suc l k n h = omega arith

safestrcpy_loop_lem :
    (t : List ℕ) (n l : ℕ)
    → strlen t ≡ some l
    → (s : List ℕ) × (safestrcpy_loop t n ≡ some s)
      × (length s ≤ suc n)
      × (strlen s ≡ some (min l n))
      × (take (min l n) s ≡ take (min l n) t)
unfolding safestrcpy_loop strlen
safestrcpy_loop_lem t zero l h =
    (0 ∷ [], refl, omega arith, ap some (omega arith), rw (min_zero l) refl)
safestrcpy_loop_lem [] (suc n) l h = absurd (ground arith)
safestrcpy_loop_lem (c ∷ t) (suc n) l h = elim (Bool-cases (c == 0)) [
  | inl y ↦
      let z : l ≡ 0 = ground arith in
      let e : min l (suc n) ≡ 0 = omega (arith, z) in
      (0 ∷ 0 ∷ [], ground arith, omega arith, ap some (omega (arith, e)), rw e refl)
  | inr y ↦ elim (Option-cases (strlen t)) [
    | inl q ↦ absurd (ground arith)
    | inr (k, q) ↦
        let (s, a, b, d, f) = safestrcpy_loop_lem t n k q in
        let e : min l (suc n) ≡ suc (min k n) = min-suc l k n (ground arith) in
        (c ∷ s, ground arith, omega (arith, b), ground (arith, e), rw e (ap (λ x. c ∷ x) f))
  ]
]

-- From a string of length `l`, safestrcpy into `n` > 0 bytes writes at most `n` bytes, with a NUL: a
-- string of the smaller of the lengths `l` and `n` - 1, with the same bytes.
pub safestrcpy_lem :
    (t : List ℕ) (n l : ℕ)
    → strlen t ≡ some l
    → 0 < n
    → (s : List ℕ) × (safestrcpy t (pos n) ≡ some s)
      × (length s ≤ n)
      × (strlen s ≡ some (min l (n - 1)))
      × (take (min l (n - 1)) s ≡ take (min l (n - 1)) t)
unfolding safestrcpy
safestrcpy_lem t zero l h p = absurd (omega arith)
safestrcpy_lem t (suc n) l h p =
    let e : suc n - 1 ≡ n = omega arith in rw e (safestrcpy_loop_lem t n l h)

-- strncpy writes exactly `n` bytes.
pub length-strncpy : (t : List ℕ) (n : ℕ) (s : List ℕ) → strncpy t n ≡ some s → length s ≡ n
unfolding strncpy
length-strncpy t zero s h = ground arith
length-strncpy [] (suc n) s h = absurd (ground arith)
length-strncpy (c ∷ t) (suc n) s h = elim (Bool-cases (c == 0)) [
  | inl y ↦ ground (arith, length-replicate {A = ℕ} n 0)
  | inr y ↦ elim (Option-cases (strncpy t n)) [
    | inl q ↦ absurd (ground arith)
    | inr (r, q) ↦ ground (arith, length-strncpy t n r q)
  ]
]
