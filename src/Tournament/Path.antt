-- ===== src/Tournament/Path.antt =====
-- tournament_tree.c: the positions between a leaf and the root.
use native.Mathlib.Nat.{pow-suc, pow-zero, mul_assoc}
use os192_ass2_multi_thread.Base.{
  ℕ, ◌≡◌, ◌^◌, ◌<◌, List, suc, [], ◌-◌, ◌≤◌, ◌*◌, ◌++◌, ◌∷◌, ◌+◌, arith, ap, zero, ◌∙◌,
}
use os192_ass2_multi_thread.Tournament.{powordepth, father, pow_loop}

pub pow-suc_two : (d : ℕ) → 2 ^ suc d ≡ 2 ^ d + 2 ^ d
pow-suc_two d = omega (arith, pow-suc 2 d)

pow_loop-eq : (exp output : ℕ) → pow_loop exp output ≡ output * 2 ^ exp
pow_loop-eq zero output = omega (arith, pow-zero 2, ap (λ (t : ℕ). output * t) (pow-zero 2))
pow_loop-eq (suc exp) output =
    pow_loop-eq exp (output * 2)
    ∙ omega (arith, ap (λ (t : ℕ). output * t) (pow-suc_two exp), mul_assoc output 2 (2 ^ exp))

-- powordepth is the power of 2.
pub powordepth-pow : (exp : ℕ) → powordepth exp ≡ 2 ^ exp
unfolding powordepth
powordepth-pow exp = omega (arith, pow_loop-eq exp 1)

-- The `d` positions above this one, the nearest first.
abbrev pub up : ℕ → ℕ → List ℕ
up zero position = []
up (suc d) position = father position ∷ up d (father position)

-- A position of level `d`: those of the leaves of a tree of depth `d` are such.
pub record IsLevel (d position : ℕ) : Type 0 where
  pub low : 2 ^ d ≤ position + 1
  pub high : position + 1 < 2 ^ d + 2 ^ d

pub pow-pos : (d : ℕ) → 0 < 2 ^ d
pow-pos zero = omega arith
pow-pos (suc d) = omega (arith, pow-suc_two d, pow-pos d)

pub father-IsLevel : (d position : ℕ) → IsLevel (suc d) position → IsLevel d (father position)
father-IsLevel d position v = record {
  low = omega (arith, v.low, v.high, pow-suc_two d, pow-pos d);
  high = omega (arith, v.low, v.high, pow-suc_two d, pow-pos d);
}

pub leaf-IsLevel : (d id : ℕ) → id < 2 ^ d → IsLevel d (powordepth d - 1 + id)
leaf-IsLevel d id h = record {
  low = omega (arith, powordepth-pow d, pow-pos d);
  high = omega (arith, powordepth-pow d, pow-pos d);
}

abbrev pub AllBelow : ℕ → List ℕ → Type 0
AllBelow n [] = Unit
AllBelow n (i ∷ is) = (i < n) × AllBelow n is

-- Every position above one of level `d` names a mutex of the tree.
pub up-AllBelow :
    (d position n : ℕ) → IsLevel d position → 2 ^ d ≤ n + 1 → AllBelow n (up d position)
up-AllBelow zero position n v h = tt
up-AllBelow (suc d) position n v h =
    let f = father-IsLevel d position v in
    (
      omega (arith, f.high, pow-suc_two d),
      up-AllBelow d (father position) n f (omega (arith, pow-suc_two d)),
    )

-- The last of them is the root.
pub up_ends_at_root :
    (d position : ℕ)
    → IsLevel (suc d) position
    → (is : List ℕ) × (up (suc d) position ≡ is ++ (0 ∷ []))
up_ends_at_root zero position v = ([], ap (λ n. n ∷ []) (omega (arith, v.low, v.high)))
up_ends_at_root (suc d) position v =
    let (is, e) = up_ends_at_root d (father position) (father-IsLevel (suc d) position v) in
    (father position ∷ is, ap (λ l. father position ∷ l) e)
