-- ===== src/Fs/Bitmap/Bits.antt =====
-- fs.c: the bits of a byte, checked for every byte.
use native.Mathlib.Decide.{ℕ_discrete}
use os192_ass2_multi_thread.Fs.Bitmap.{bit_set, or_bit, clear_bit}
use os192_ass2_multi_thread.Base.{
  Bool, ℕ, ◌≡◌, not, ◌<◌, true, refl, arith, suc, false, ◌==◌, ◌&&◌, zero, ◌||◌, ltb, if◌then◌else◌,
}

abbrev bool_eq : Bool → Bool → Bool
bool_eq true b = b
bool_eq false b = not b

-- Whether a test passes at all numbers that are less than a bound.
passes : (ℕ → Bool) → ℕ → Bool
passes test zero = true
passes test (suc top) = if test top then passes test top else false

at : (test : ℕ → Bool) (i bound : ℕ) → i < bound → passes test bound ≡ true → test i ≡ true
unfolding passes
at test i zero below run = absurd (omega arith)
at test i (suc top) below run = elim (ℕ_discrete i top) [
  | no other ↦ at test i top (omega arith) (ground arith)
  | yes same ↦ rw same (ground arith)
]

abbrev or_ok : ℕ → ℕ → ℕ → Bool
or_ok k j byte =
    bool_eq (bit_set (or_bit byte k) j) (k == j || bit_set byte j) && ltb (or_bit byte k) 256

abbrev clear_ok : ℕ → ℕ → ℕ → Bool
clear_ok k j byte =
    bool_eq (bit_set (clear_bit byte k) j) (not (k == j) && bit_set byte j)
    && ltb (clear_bit byte k) 256

abbrev or_row : ℕ → ℕ → Bool
or_row k j = passes (or_ok k j) 256

abbrev clear_row : ℕ → ℕ → Bool
clear_row k j = passes (clear_ok k j) 256

or_table : passes (λ k. passes (or_row k) 8) 8 ≡ true
unfolding passes
or_table = refl

clear_table : passes (λ k. passes (clear_row k) 8) 8 ≡ true
unfolding passes
clear_table = refl

-- Setting one bit of a byte.
pub bit_set-or_bit :
    (k j byte : ℕ)
    → k < 8
    → j < 8
    → byte < 256
    → (bit_set (or_bit byte k) j ≡ (k == j || bit_set byte j)) × (or_bit byte k < 256)
bit_set-or_bit k j byte hk hj hb =
    let r =
      at (or_ok k j) byte 256 hb
        (at (or_row k) j 8 hj (at (λ k. passes (or_row k) 8) k 8 hk or_table)) in
    ground arith

-- Clearing one bit of a byte.
pub bit_set-clear_bit :
    (k j byte : ℕ)
    → k < 8
    → j < 8
    → byte < 256
    → (bit_set (clear_bit byte k) j ≡ (not (k == j) && bit_set byte j)) × (clear_bit byte k < 256)
bit_set-clear_bit k j byte hk hj hb =
    let r =
      at (clear_ok k j) byte 256 hb
        (at (clear_row k) j 8 hj (at (λ k. passes (clear_row k) 8) k 8 hk clear_table)) in
    ground arith
