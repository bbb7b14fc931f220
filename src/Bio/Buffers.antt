-- ===== src/Bio/Buffers.antt =====
-- bio.c: the list of buffers; how many of them pass a test, and what holds of each.
use os192_ass2_multi_thread.Base.{
  ℕ, Bool, List, get_elem?, ◌∷◌, ◌≡◌, if◌then◌else◌, some, none, ◌+◌, arith, true, false, [],
  Option-cases, ◌<◌, suc, inl, zero, refl, inr, count, All,
}
use os192_ass2_multi_thread.Bio.{Buf, find_last, take_out}

pub count-take_out :
    (p : Buf → Bool) (bs : List Buf) (i : ℕ) (b : Buf)
    → get_elem? bs i ≡ some b
    → count p (take_out bs i) + (if p b then 1 else 0) ≡ count p bs
count-take_out p [] i b h = ground arith
count-take_out p (x ∷ bs) zero b h = ground arith
count-take_out p (x ∷ bs) (suc i) b h = ground (arith, count-take_out p bs i b)

pub All-take_out : (P : Buf → Type 0) (bs : List Buf) (i : ℕ) → All P bs → All P (take_out bs i)
All-take_out P [] i h = tt
All-take_out P (x ∷ bs) zero (h, hs) = hs
All-take_out P (x ∷ bs) (suc i) (h, hs) = (h, All-take_out P bs i hs)

pub find_last-none :
    (p : Buf → Bool) (bs : List Buf) (j : ℕ) (x : Buf)
    → find_last p bs ≡ none
    → get_elem? bs j ≡ some x
    → p x ≡ false
find_last-none p [] j x h e = ground arith
find_last-none p (b ∷ bs) zero x h e = ground (arith, Option-cases (find_last p bs))
find_last-none p (b ∷ bs) (suc j) x h e =
    find_last-none p bs j x (ground (arith, Option-cases (find_last p bs))) e

-- What the scan from the end finds is in the list, passes the test, and nothing behind it does.
pub find_last-some :
    (p : Buf → Bool) (bs : List Buf) (i : ℕ)
    → find_last p bs ≡ some i
    → (b : Buf) × (get_elem? bs i ≡ some b)
      × (p b ≡ true)
      × ((j : ℕ) (x : Buf) → i < j → get_elem? bs j ≡ some x → p x ≡ false)
find_last-some p [] i h = ground arith
find_last-some p (b ∷ bs) zero h = elim (Option-cases (find_last p bs)) [
  | inl e ↦ (b, refl, ground arith, later e)
  | inr (l, e) ↦ absurd (ground arith)
]
  where
    later :
        find_last p bs ≡ none
        → (j : ℕ) (x : Buf) → zero < j
        → get_elem? (b ∷ bs) j ≡ some x
        → p x ≡ false
    later e zero x lt q = absurd (omega arith)
    later e (suc j) x lt q = find_last-none p bs j x e q
find_last-some p (b ∷ bs) (suc i) h = elim (Option-cases (find_last p bs)) [
  | inl e ↦ absurd (ground arith)
  | inr (l, e) ↦ let (x, q, t, r) = find_last-some p bs i (ground arith) in (x, q, t, later r)
]
  where
    later :
        ((j : ℕ) (x : Buf) → i < j → get_elem? bs j ≡ some x → p x ≡ false)
        → (j : ℕ) (x : Buf) → suc i < j
        → get_elem? (b ∷ bs) j ≡ some x
        → p x ≡ false
    later r zero x lt q = absurd (omega arith)
    later r (suc j) x lt q = r j x (omega arith) q
