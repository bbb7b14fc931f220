-- ===== src/Fs/Bitmap/Marks.antt =====
-- fs.c: the bits of the map of blocks.
use native.Mathlib.Decide.{ℕ_discrete}
use os192_ass2_multi_thread.Fs.Bitmap.Bits.{bit_set-or_bit, bit_set-clear_bit}
use os192_ass2_multi_thread.Fs.{Fs}
use os192_ass2_multi_thread.Base.{
  ℕ, ◌<◌, ◌/◌, ◌≡◌, Bool, none, ◌%◌, ◌==◌, ◌||◌, ◌+◌, ◌≤◌, not, ◌&&◌, true, ◌⊎◌, arith, some, false,
  ap, inl, suc, Bool-cases, inr, subst, zero, refl,
}
use os192_ass2_multi_thread.Fs.Bitmap.{find_clear, in_use, unmark, bpb, mark}

-- Whether the map says that a block is in use, and the block of the map that says it.
abbrev pub map_block : Fs → ℕ → ℕ
map_block s b = b / bpb + s.sb.bmapstart

abbrev pub used : Fs → ℕ → Bool
used s b = in_use (s.block (map_block s b)) (b % bpb)

abbrev pub AreBytes : (ℕ → ℕ) → Type 0
AreBytes m = (a : ℕ) → m a < 256

pub in_use-mark :
    (m : ℕ → ℕ) (bi c : ℕ) → AreBytes m → in_use (mark bi m) c ≡ (bi == c || in_use m c)
in_use-mark m bi c h =
    let r = bit_set-or_bit (bi % 8) (c % 8) (m (bi / 8)) (omega arith) (omega arith) (h (bi / 8)) in
    elim (ℕ_discrete (c / 8) (bi / 8)) [
      | yes e ↦ ground (arith, r.0, ap m e)
      | no ne ↦ ground arith
    ]

pub in_use-unmark :
    (m : ℕ → ℕ) (bi c : ℕ) → AreBytes m → in_use (unmark bi m) c ≡ (not (bi == c) && in_use m c)
in_use-unmark m bi c h =
    let r =
      bit_set-clear_bit (bi % 8) (c % 8) (m (bi / 8)) (omega arith) (omega arith) (h (bi / 8)) in
    elim (ℕ_discrete (c / 8) (bi / 8)) [
      | yes e ↦ ground (arith, r.0, ap m e)
      | no ne ↦ ground arith
    ]

pub find_clear_lem :
    (m : ℕ → ℕ) (bi n : ℕ)
    → ((find_clear m bi n ≡ none) × ((c : ℕ) → bi ≤ c → c < bi + n → in_use m c ≡ true))
      ⊎ ((x : ℕ) × (find_clear m bi n ≡ some x)
          × (bi ≤ x)
          × (x < bi + n)
          × (in_use m x ≡ false)
          × ((c : ℕ) → bi ≤ c → c < x → in_use m c ≡ true))
unfolding find_clear
find_clear_lem m bi zero = inl (refl, λ c h k. absurd (omega arith))
find_clear_lem m bi (suc n) = elim (Bool-cases (in_use m bi)) [
  | inr k ↦ inr (bi, ground arith, omega arith, omega arith, k, λ c h l. absurd (omega arith))
  | inl y ↦ elim (find_clear_lem m (bi + 1) n) [
    | inl (e, all) ↦ inl (
      ground arith,
      λ c h l. elim (ℕ_discrete bi c) [
        | yes q ↦ subst (λ c. in_use m c ≡ true) q y
        | no ne ↦ all c (omega arith) (omega arith)
      ],
    )
    | inr (x, e, lo, hi, clear, all) ↦ inr (
      x,
      ground arith,
      omega arith,
      omega arith,
      clear,
      λ c h l. elim (ℕ_discrete bi c) [
        | yes q ↦ subst (λ c. in_use m c ≡ true) q y
        | no ne ↦ all c (omega arith) (omega arith)
      ],
    )
  ]
]
