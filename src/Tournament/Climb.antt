-- ===== src/Tournament/Climb.antt =====
-- tournament_tree.c: which mutexes acquire takes and release gives back, and in which order.

use mathlib.Core.List.{reverse-cons}
use os192_ass2_multi_thread.Base.{
  ℕ, ℤ, List, ◌∷◌, ◌++◌, suc, ◌≤◌, [], ◌≡◌, pos, refl, reverse, Option-cases, zero, arith,
  get_elem?, inl, inr, ◌≢◌,
}
use os192_ass2_multi_thread.Tournament.{
  Api, P, climb, trnmnt_tree_release_rec, read, call, pure, ◌>>=◌, ◌>>◌, father,
}
use os192_ass2_multi_thread.Tournament.Path.{up, IsLevel, father-IsLevel, pow-suc_two, pow-pos}

-- A call of `f` on the mutex at each of these positions, in order.
pub run_each : {S : Type 0} → (ℤ → S → ℤ × S) → List ℤ → List ℕ → P S (Unit {0})
run_each f ms [] = pure tt
run_each f ms (i ∷ is) = do m ← read ms i; r ← call (f m); run_each f ms is

run_each-append :
    {S : Type 0} (f : ℤ → S → ℤ × S) (ms : List ℤ) (is : List ℕ) (j : ℕ) (s : S)
    → run_each f ms (is ++ (j ∷ [])) s
      ≡ (run_each f ms is >> (do m ← read ms j; r ← call (f m); pure tt)) s
unfolding run_each
run_each-append f ms [] j s = refl
run_each-append f ms (i ∷ is) j s = elim (Option-cases (get_elem? ms i)) [
  | inl e ↦ ground arith
  | inr (m, e) ↦ ground (arith, run_each-append f ms is j (f m s).1)
]

module _ {S : Type 0} (api : Api S) where
  open api use {mutex_lock, mutex_unlock}

  -- From a position of level `d`, with any fuel from `d` on, the loop of trnmnt_tree_acquire locks
  -- the mutexes at the `d` positions above, from the leaf to the root, and ends.
  pub climb-run_each :
      (d fuel position : ℕ) (ms : List ℤ) (s : S)
      → IsLevel d position
      → d ≤ fuel
      → climb api fuel ms position s ≡ run_each mutex_lock ms (up d position) s
  unfolding climb run_each
  climb-run_each zero zero position ms s v h = refl
  climb-run_each zero (suc fuel) position ms s v h = ground (arith, v.low, v.high)
  climb-run_each (suc d) zero position ms s v h = absurd (omega arith)
  climb-run_each (suc d) (suc fuel) position ms s v h =
      elim (Option-cases (get_elem? ms (father position))) [
        | inl e ↦ ground (arith, v.low, pow-suc_two d, pow-pos d)
        | inr (m, e) ↦ ground (
          arith,
          v.low,
          pow-suc_two d,
          pow-pos d,
          climb-run_each d fuel (father position) ms (mutex_lock m s).1
              (father-IsLevel d position v),
        )
      ]

  -- One step of the recursion, with the calls above it done.
  release_step :
      (fuel position : ℕ) (ms : List ℤ) (is : List ℕ) (s : S)
      → father position ≢ 0
      → ((m : ℤ) (x : S) → (mutex_unlock m x).0 ≡ pos 0)
      → trnmnt_tree_release_rec api fuel ms (father position) s
        ≡ (run_each mutex_unlock ms is >> pure (pos 0)) s
      → trnmnt_tree_release_rec api (suc fuel) ms position s
        ≡ (run_each mutex_unlock ms (is ++ (father position ∷ [])) >> pure (pos 0)) s
  unfolding trnmnt_tree_release_rec
  release_step fuel position ms is s ne ok ih =
      elim (Option-cases (run_each mutex_unlock ms is s)) [
        | inl e ↦ ground (arith, run_each-append mutex_unlock ms is (father position) s)
        | inr (u, e) ↦ elim (Option-cases (get_elem? ms (father position))) [
          | inl q ↦ ground (arith, run_each-append mutex_unlock ms is (father position) s)
          | inr (m, q) ↦
              ground (arith, run_each-append mutex_unlock ms is (father position) s, ok m u.1)
        ]
      ]

  -- If every unlock of a mutex of the tree succeeds, trnmnt_tree_release_rec unlocks the mutexes that were locked on the
  -- way up, in the opposite order, from the root to the leaf, and returns 0.
  pub release_rec-run_each :
      (d fuel position : ℕ) (ms : List ℤ) (s : S)
      → IsLevel (suc d) position
      → suc d ≤ fuel
      → ((m : ℤ) (x : S) → (mutex_unlock m x).0 ≡ pos 0)
      → trnmnt_tree_release_rec api fuel ms position s
        ≡ (run_each mutex_unlock ms (reverse (up (suc d) position)) >> pure (pos 0)) s
  unfolding trnmnt_tree_release_rec run_each
  release_rec-run_each d zero position ms s v h ok = absurd (omega arith)
  release_rec-run_each zero (suc fuel) position ms s v h ok =
      elim (Option-cases (get_elem? ms (father position))) [
        | inl e ↦ ground (arith, v.low, v.high)
        | inr (m, e) ↦ ground (arith, v.low, v.high, ok m s)
      ]
  release_rec-run_each (suc d) (suc fuel) position ms s v h ok =
      rw (reverse-cons (father position) (up (suc d) (father position))) (
        release_step fuel position ms (reverse (up (suc d) (father position))) s
          (omega (arith, v.low, pow-suc_two (suc d), pow-suc_two d, pow-pos d)) ok
          (release_rec-run_each d fuel (father position) ms s (father-IsLevel (suc d) position v)
            (omega arith) ok))
