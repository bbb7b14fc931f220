-- ===== src/Base/Count.antt =====
-- How many elements of a table pass a test, and what holds of each.
use Prim.Native.Nat.{ℕ, zero, suc, ◌+◌, ◌≤◌, ◌<◌}
use mathlib.Core.Path.{◌≡◌, refl, subst}
use mathlib.Core.Bool.{Bool, true}
use mathlib.Core.List.{List, [], ◌∷◌}
use mathlib.Core.Option.{none, some}
use native.Mathlib.Omega.{arith}
use os192_ass2_multi_thread.Base.Tests.{if◌then◌else◌, Option-cases}
use os192_ass2_multi_thread.Base.Lists.{get_elem?, modify, find_index}

module _ {A : Type 0} where
  -- How many elements pass a test.
  abbrev pub count : (A → Bool) → List A → ℕ
  count p [] = 0
  count p (b ∷ bs) = (if p b then 1 else 0) + count p bs

  pub count_of_none : (p : A → Bool) (bs : List A) → find_index p bs ≡ none → count p bs ≡ 0
  count_of_none p [] h = refl
  count_of_none p (b ∷ bs) h = ground (arith, count_of_none p bs, Option-cases (find_index p bs))

  pub count-modify :
      (p : A → Bool) (bs : List A) (i : ℕ) (f : A → A) (b : A)
      → get_elem? bs i ≡ some b
      → count p (modify bs i f) + (if p b then 1 else 0) ≡ count p bs + (if p (f b) then 1 else 0)
  count-modify p [] i f b h = ground arith
  count-modify p (x ∷ bs) zero f b h = ground arith
  count-modify p (x ∷ bs) (suc i) f b h = ground (arith, count-modify p bs i f b)

  pub count_pos :
      (p : A → Bool) (bs : List A) (i : ℕ) (b : A)
      → get_elem? bs i ≡ some b
      → p b ≡ true
      → 0 < count p bs
  count_pos p [] i b e h = ground arith
  count_pos p (x ∷ bs) zero b e h = ground arith
  count_pos p (x ∷ bs) (suc i) b e h = ground (arith, count_pos p bs i b)

  -- The scan finds the only element that passes the test.
  pub find_index-only :
      (p : A → Bool) (bs : List A) (i : ℕ) (b : A)
      → get_elem? bs i ≡ some b
      → p b ≡ true
      → count p bs ≤ 1
      → find_index p bs ≡ some i
  find_index-only p [] i b e h c = ground arith
  find_index-only p (x ∷ bs) zero b e h c = ground arith
  find_index-only p (x ∷ bs) (suc i) b e h c =
      ground (arith, find_index-only p bs i b, count_pos p bs i b)

  -- Every element of the list is such.
  abbrev pub All : (A → Type 0) → List A → Type 0
  All P [] = Unit
  All P (b ∷ bs) = P b × All P bs

  pub All-get :
      (P : A → Type 0) (bs : List A) (i : ℕ) (b : A) → All P bs → get_elem? bs i ≡ some b → P b
  All-get P [] i b h e = absurd (ground arith)
  All-get P (x ∷ bs) zero b (h, hs) e = subst P (ground arith) h
  All-get P (x ∷ bs) (suc i) b (h, hs) e = All-get P bs i b hs e

  pub All-modify :
      (P : A → Type 0) (bs : List A) (i : ℕ) (f : A → A)
      → All P bs
      → ((b : A) → get_elem? bs i ≡ some b → P b → P (f b))
      → All P (modify bs i f)
  All-modify P [] i f h k = tt
  All-modify P (x ∷ bs) zero f (h, hs) k = (k x refl h, hs)
  All-modify P (x ∷ bs) (suc i) f (h, hs) k = (h, All-modify P bs i f hs k)
