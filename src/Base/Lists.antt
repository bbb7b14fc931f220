-- ===== src/Base/Lists.antt =====
-- Lists measured and indexed by native numbers; fixed tables of the source are such lists.
use Prim.Native.Nat.{ℕ, zero, suc, ◌+◌, ◌-◌, ◌≤◌, ◌<◌}
use mathlib.Core.Path.{◌≡◌, refl, ap, sym, ◌∙◌}
use mathlib.Core.Logic.{◌≢◌}
use mathlib.Core.Bool.{Bool, true, false}
use mathlib.Core.List.{List, [], ◌∷◌, ◌++◌}
use mathlib.Core.Option
use mathlib.Core.Option.{Option, none, some}
use native.Mathlib.Omega.{arith}
use os192_ass2_multi_thread.Base.Tests.{if◌then◌else◌, Option-cases, ◌==◌}

module _ {ℓ} {A : Type ℓ} where
  abbrev pub length : List A → ℕ
  length [] = 0
  length (x ∷ xs) = suc (length xs)

  abbrev pub get_elem? : List A → ℕ → Option A
  get_elem? [] i = none
  get_elem? (x ∷ xs) zero = some x
  get_elem? (x ∷ xs) (suc i) = get_elem? xs i

  abbrev pub get_or : List A → ℕ → A → A
  get_or [] i d = d
  get_or (x ∷ xs) zero d = x
  get_or (x ∷ xs) (suc i) d = get_or xs i d

  -- A write out of bounds changes nothing.
  abbrev pub set : List A → ℕ → A → List A
  set [] i v = []
  set (x ∷ xs) zero v = v ∷ xs
  set (x ∷ xs) (suc i) v = x ∷ set xs i v

  abbrev pub modify : List A → ℕ → (A → A) → List A
  modify [] i f = []
  modify (x ∷ xs) zero f = f x ∷ xs
  modify (x ∷ xs) (suc i) f = x ∷ modify xs i f

  abbrev pub take : ℕ → List A → List A
  take zero xs = []
  take (suc n) [] = []
  take (suc n) (x ∷ xs) = x ∷ take n xs

  abbrev pub drop : ℕ → List A → List A
  drop zero xs = xs
  drop (suc n) [] = []
  drop (suc n) (x ∷ xs) = drop n xs

  abbrev pub replicate : ℕ → A → List A
  replicate zero a = []
  replicate (suc n) a = a ∷ replicate n a

  -- The first index at which the test passes: the shape of every table scan of the source.
  abbrev pub find_index : (A → Bool) → List A → Option ℕ
  find_index p [] = none
  find_index p (x ∷ xs) = if p x then some 0 else Option.map suc (find_index p xs)

  pub length-append : (xs ys : List A) → length (xs ++ ys) ≡ length xs + length ys
  length-append [] ys = omega arith
  length-append (x ∷ xs) ys = omega (arith, length-append xs ys)

  pub length-set : (xs : List A) (i : ℕ) (v : A) → length (set xs i v) ≡ length xs
  length-set [] i v = refl
  length-set (x ∷ xs) zero v = refl
  length-set (x ∷ xs) (suc i) v = ap suc (length-set xs i v)

  pub length-modify : (xs : List A) (i : ℕ) (f : A → A) → length (modify xs i f) ≡ length xs
  length-modify [] i f = refl
  length-modify (x ∷ xs) zero f = refl
  length-modify (x ∷ xs) (suc i) f = ap suc (length-modify xs i f)

  pub length-replicate : (n : ℕ) (a : A) → length (replicate n a) ≡ n
  length-replicate zero a = refl
  length-replicate (suc n) a = ap suc (length-replicate n a)

  pub get_elem?-modify_self :
      (xs : List A) (i : ℕ) (f : A → A)
      → get_elem? (modify xs i f) i ≡ Option.map f (get_elem? xs i)
  get_elem?-modify_self [] i f = refl
  get_elem?-modify_self (x ∷ xs) zero f = refl
  get_elem?-modify_self (x ∷ xs) (suc i) f = get_elem?-modify_self xs i f

  pub get_elem?-modify_ne :
      (xs : List A) (i j : ℕ) (f : A → A) → i ≢ j → get_elem? (modify xs i f) j ≡ get_elem? xs j
  get_elem?-modify_ne [] i j f h = refl
  get_elem?-modify_ne (x ∷ xs) zero zero f h = absurd (h refl)
  get_elem?-modify_ne (x ∷ xs) zero (suc j) f h = refl
  get_elem?-modify_ne (x ∷ xs) (suc i) zero f h = refl
  get_elem?-modify_ne (x ∷ xs) (suc i) (suc j) f h =
      get_elem?-modify_ne xs i j f (λ e. h (ap suc e))

  -- What a scan finds lies in the table, passes the test, and is the first that does.
  pub find_index-some :
      (p : A → Bool) (xs : List A) (i : ℕ)
      → find_index p xs ≡ some i
      → (x : A) × (get_elem? xs i ≡ some x) × (p x ≡ true)
  find_index-some p [] i h = ground arith
  find_index-some p (x ∷ xs) zero h = (x, refl, ground (arith, Option-cases (find_index p xs)))
  find_index-some p (x ∷ xs) (suc i) h =
      find_index-some p xs i (ground (arith, Option-cases (find_index p xs)))

  pub find_index-none :
      (p : A → Bool) (xs : List A) (i : ℕ) (x : A)
      → find_index p xs ≡ none
      → get_elem? xs i ≡ some x
      → p x ≡ false
  find_index-none p [] i x h e = ground arith
  find_index-none p (y ∷ xs) zero x h e = ground arith
  find_index-none p (y ∷ xs) (suc i) x h e = ground (arith, find_index-none p xs i x)

  pub modify-modify :
      (xs : List A) (i : ℕ) (f g : A → A) → modify (modify xs i f) i g ≡ modify xs i (λ x. g (f x))
  modify-modify [] i f g = refl
  modify-modify (x ∷ xs) zero f g = refl
  modify-modify (x ∷ xs) (suc i) f g = ap (λ l. x ∷ l) (modify-modify xs i f g)

  -- An update that leaves the element as it is leaves the table as it is.
  pub modify_fixed :
      (xs : List A) (i : ℕ) (f : A → A) (x : A)
      → get_elem? xs i ≡ some x
      → f x ≡ x
      → modify xs i f ≡ xs
  modify_fixed [] i f x e h = refl
  modify_fixed (y ∷ xs) zero f x e h = ground arith
  modify_fixed (y ∷ xs) (suc i) f x e h = ap (λ l. y ∷ l) (modify_fixed xs i f x e h)

  -- The scan passes over an update that does not change what it tests.
  pub find_index-modify :
      (p : A → Bool) (xs : List A) (i : ℕ) (f : A → A)
      → ((x : A) → p (f x) ≡ p x)
      → find_index p (modify xs i f) ≡ find_index p xs
  find_index-modify p [] i f h = refl
  find_index-modify p (x ∷ xs) zero f h = rw h
  find_index-modify p (x ∷ xs) (suc i) f h = rw (find_index-modify p xs i f h)

  pub get_or-cons :
      (x : A) (xs : List A) (i : ℕ) (d : A)
      → get_or (x ∷ xs) i d ≡ (if i == 0 then x else get_or xs (i - 1) d)
  get_or-cons x xs zero d = refl
  get_or-cons x xs (suc i) d = ground arith

  pub length-take : (n : ℕ) (xs : List A) → n ≤ length xs → length (take n xs) ≡ n
  length-take zero xs h = refl
  length-take (suc n) [] h = absurd (omega arith)
  length-take (suc n) (x ∷ xs) h = ap suc (length-take n xs (omega arith))

  pub length-drop : (n : ℕ) (xs : List A) → length (drop n xs) ≡ length xs - n
  length-drop zero xs = omega arith
  length-drop (suc n) [] = omega arith
  length-drop (suc n) (x ∷ xs) = omega (arith, length-drop n xs)

  pub get_or-take :
      (n : ℕ) (xs : List A) (i : ℕ) (d : A) → i < n → get_or (take n xs) i d ≡ get_or xs i d
  get_or-take zero xs i d h = absurd (omega arith)
  get_or-take (suc n) [] i d h = refl
  get_or-take (suc n) (x ∷ xs) zero d h = refl
  get_or-take (suc n) (x ∷ xs) (suc i) d h = get_or-take n xs i d (omega arith)

  pub get_or-drop :
      (n : ℕ) (xs : List A) (i : ℕ) (d : A) → get_or (drop n xs) i d ≡ get_or xs (n + i) d
  get_or-drop zero xs i d = ap (λ k. get_or xs k d) (omega arith)
  get_or-drop (suc n) [] i d = refl
  get_or-drop (suc n) (x ∷ xs) i d =
      let e : suc n + i ≡ suc (n + i) = omega arith in
      get_or-drop n xs i d ∙ ap (λ k. get_or (x ∷ xs) k d) (sym e)
