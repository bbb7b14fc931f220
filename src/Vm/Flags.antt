-- ===== src/Vm/Flags.antt =====
-- vm.c: the or of an address of a page and the flags of an entry.
use Prim.Native.Nat.{digits, max, bit_or, bit_or-bitwise}
use os192_ass2_multi_thread.Base.{
  ℕ, zero, suc, ◌<◌, ◌*◌, ◌≤◌, ◌≡◌, ◌+◌, ◌/◌, arith, refl, subst, ◌∙◌, ap,
}

abbrev or_digits : ℕ → ℕ → ℕ → ℕ
or_digits n a b = digits (λ b. b) max n a b

-- A number whose `k` lowest digits are 0.
abbrev Rounded : ℕ → ℕ → Type 0
Rounded zero a = Unit
Rounded (suc k) a = (b : ℕ) × (a ≡ 2 * b) × Rounded k b

abbrev power : ℕ → ℕ
power zero = 1
power (suc k) = 2 * power k

or_digits-zero : (n a : ℕ) → a ≤ n → or_digits n a 0 ≡ a
or_digits-zero zero zero h = refl
or_digits-zero zero (suc a) h = absurd (omega arith)
or_digits-zero (suc n) zero h = refl
or_digits-zero (suc n) (suc a) h = omega (arith, or_digits-zero n (suc a / 2) (omega arith))

or_digits-Rounded : (k n a r : ℕ) → Rounded k a → r < power k → a ≤ n → or_digits n a r ≡ a + r
or_digits-Rounded zero n a r e h l =
    ap (or_digits n a) (omega arith) ∙ (or_digits-zero n a l ∙ omega arith)
or_digits-Rounded (suc k) zero zero r e h l = omega arith
or_digits-Rounded (suc k) zero (suc a) r e h l = absurd (omega arith)
or_digits-Rounded (suc k) (suc n) zero r e h l = omega arith
or_digits-Rounded (suc k) (suc n) (suc a) r (b, e, more) h l =
    let ih =
      or_digits-Rounded k n (suc a / 2) (r / 2) (subst (Rounded k) (omega arith) more) (omega arith)
        (omega arith) in
    omega (arith, ih)

or_digits-one : (n a : ℕ) → a ≤ n → or_digits n a 1 ≡ a / 2 * 2 + 1
or_digits-one zero zero h = refl
or_digits-one zero (suc a) h = absurd (omega arith)
or_digits-one (suc n) zero h = refl
or_digits-one (suc n) (suc a) h = omega (arith, or_digits-zero n (suc a / 2) (omega arith))

rounded : (f : ℕ) → Rounded 12 (f * 4096)
rounded f = (
  f * 2048,
  omega arith,
  (
    f * 1024,
    omega arith,
    (
      f * 512,
      omega arith,
      (
        f * 256,
        omega arith,
        (
          f * 128,
          omega arith,
          (
            f * 64,
            omega arith,
            (
              f * 32,
              omega arith,
              (
                f * 16,
                omega arith,
                (
                  f * 8,
                  omega arith,
                  (f * 4, omega arith, (f * 2, omega arith, (f, omega arith, tt))),
                ),
              ),
            ),
          ),
        ),
      ),
    ),
  ),
)

pub bit_or-page : (f r : ℕ) → r < 4096 → bit_or (f * 4096) r ≡ f * 4096 + r
bit_or-page f r h =
    bit_or-bitwise (f * 4096) r
    ∙ or_digits-Rounded 12 (f * 4096) (f * 4096) r (rounded f) h (omega arith)

pub bit_or-one : (a : ℕ) → bit_or a 1 ≡ a / 2 * 2 + 1
bit_or-one a = bit_or-bitwise a 1 ∙ or_digits-one a a (omega arith)
