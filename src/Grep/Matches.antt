-- ===== src/Grep/Matches.antt =====
-- grep.c against what a regular expression means, as an inductive relation.
use os192_ass2_multi_thread.Base.{
  ℕ, ◌≡◌, List, Bool, ◌∷◌, true, ◌⊎◌, [], ◌≢◌, arith, Bool-cases, subst, inl, ◌==◌, inr, refl, ◌↔◌,
}
use os192_ass2_multi_thread.Grep.{
  caret, star, dollar, dot, matchhere, matchstar, match_from, match_text,
}

-- The character of the expression stands for this one of the text.
abbrev pub Stands : ℕ → ℕ → Type 0
Stands c t = (c ≡ dot) ⊎ (c ≡ t)

-- The second text is left when some characters that `c` stands for are taken off the first.
pub data Skips (c : ℕ) : List ℕ → List ℕ → Type 0 where
  stop : (text : List ℕ) → Skips c text text
  more : (t : ℕ) (text rest : List ℕ) → Stands c t → Skips c text rest → Skips c (t ∷ text) rest

-- The expression matches a beginning of the text. A star binds to the character before it, and `$`
-- is special as the last character alone.
pub data Here : List ℕ → List ℕ → Type 0 where
  nothing : (text : List ℕ) → Here [] text
  repeated :
      (c : ℕ) (re text rest : List ℕ) → Skips c text rest → Here re rest → Here (c ∷ star ∷ re) text
  line_end : Here (dollar ∷ []) []
  last : (c t : ℕ) (text : List ℕ) → c ≢ dollar → Stands c t → Here (c ∷ []) (t ∷ text)
  one :
      (c d : ℕ) (re : List ℕ) (t : ℕ) (text : List ℕ)
      → d ≢ star
      → Stands c t
      → Here (d ∷ re) text
      → Here (c ∷ d ∷ re) (t ∷ text)

-- Some end of the text.
pub data Suffix : List ℕ → List ℕ → Type 0 where
  whole : (text : List ℕ) → Suffix text text
  drop : (t : ℕ) (text rest : List ℕ) → Suffix text rest → Suffix (t ∷ text) rest

star_sound :
    (c : ℕ) (here : List ℕ → Bool) (text : List ℕ)
    → matchstar c here text ≡ true
    → (rest : List ℕ) × Skips c text rest × (here rest ≡ true)
unfolding matchstar
star_sound c here [] h = ([], stop [], h)
star_sound c here (t ∷ text) h = elim (Bool-cases (here (t ∷ text))) [
  | inl y ↦ (t ∷ text, stop (t ∷ text), y)
  | inr n ↦
      let (rest, s, e) = star_sound c here text (ground arith) in
      (rest, more t text rest (ground arith) s, e)
]

star_complete :
    (c : ℕ) (here : List ℕ → Bool) {text rest : List ℕ}
    → Skips c text rest
    → here rest ≡ true
    → matchstar c here text ≡ true
unfolding matchstar
star_complete c here (stop []) h = h
star_complete c here (stop (t ∷ text)) h = ground arith
star_complete c here (more t text rest s r) h = ground (arith, star_complete c here r h)

sound : (re text : List ℕ) → matchhere re text ≡ true → Here re text
unfolding matchhere
sound [] text h = nothing text
sound (c ∷ []) [] h = subst (λ x. Here (x ∷ []) []) {x = dollar} {y = c} (ground arith) line_end
sound (c ∷ []) (t ∷ text) h = last c t text (λ e. ground arith) (ground arith)
sound (c ∷ d ∷ re) [] h =
    let (rest, s, e) = star_sound c (matchhere re) [] (ground (arith, Bool-cases (d == star))) in
    subst (λ x. Here (c ∷ x ∷ re) []) {x = star} {y = d} (ground (arith, Bool-cases (d == star)))
      (repeated c re [] rest s (sound re rest e))
sound (c ∷ d ∷ re) (t ∷ text) h = elim (Bool-cases (d == star)) [
  | inl y ↦
      let (rest, s, e) = star_sound c (matchhere re) (t ∷ text) (ground arith) in
      subst (λ x. Here (c ∷ x ∷ re) (t ∷ text)) {x = star} {y = d} (ground arith)
        (repeated c re (t ∷ text) rest s (sound re rest e))
  | inr n ↦
      one c d re t text (λ e. ground arith) (ground arith) (sound (d ∷ re) text (ground arith))
]

complete : {re text : List ℕ} → Here re text → matchhere re text ≡ true
unfolding matchhere
complete (nothing text) = refl
complete (repeated c re text rest s h) = star_complete c (matchhere re) s (complete h)
complete line_end = refl
complete (last c t text n s) = ground arith
complete (one c d re t text n s h) = ground (arith, complete h)

from_sound :
    (re text : List ℕ)
    → match_from (matchhere re) text ≡ true
    → (rest : List ℕ) × Suffix text rest × Here re rest
unfolding match_from
from_sound re [] h = ([], whole [], sound re [] h)
from_sound re (t ∷ text) h = elim (Bool-cases (matchhere re (t ∷ text))) [
  | inl y ↦ (t ∷ text, whole (t ∷ text), sound re (t ∷ text) y)
  | inr n ↦ let (rest, s, e) = from_sound re text (ground arith) in (rest, drop t text rest s, e)
]

from_complete :
    (re : List ℕ) {text rest : List ℕ}
    → Suffix text rest
    → Here re rest
    → match_from (matchhere re) text ≡ true
unfolding match_from
from_complete re (whole []) h = complete h
from_complete re (whole (t ∷ text)) h = ground (arith, complete h)
from_complete re (drop t text rest s) h = ground (arith, from_complete re s h)

-- What `match` looks for: behind a caret at the start of the text, else anywhere in it.
pub data Found : List ℕ → List ℕ → Type 0 where
  anchored : (re text : List ℕ) → Here re text → Found (caret ∷ re) text
  empty : (text rest : List ℕ) → Suffix text rest → Here [] rest → Found [] text
  anywhere :
      (c : ℕ) (re text rest : List ℕ)
      → c ≢ caret
      → Suffix text rest
      → Here (c ∷ re) rest
      → Found (c ∷ re) text

-- matchhere decides whether the expression matches a beginning of the text.
pub matchhere_decides : (re text : List ℕ) → (matchhere re text ≡ true) ↔ Here re text
matchhere_decides re text = (sound re text, complete)

match_sound : (re text : List ℕ) → match_text re text ≡ true → Found re text
unfolding match_text
match_sound [] text h = let (rest, s, e) = from_sound [] text h in empty text rest s e
match_sound (c ∷ re) text h = elim (Bool-cases (c == caret)) [
  | inl y ↦
      subst (λ x. Found (x ∷ re) text) {x = caret} {y = c} (ground arith)
        (anchored re text (sound re text (ground arith)))
  | inr n ↦
      let (rest, s, e) = from_sound (c ∷ re) text (ground arith) in
      anywhere c re text rest (λ q. ground arith) s e
]

match_complete : {re text : List ℕ} → Found re text → match_text re text ≡ true
unfolding match_text
match_complete (anchored re text h) = complete h
match_complete (empty text rest s h) = from_complete [] s h
match_complete (anywhere c re text rest n s h) = ground (arith, from_complete (c ∷ re) s h)

-- `match` decides whether the expression, behind a caret at the start and else anywhere, matches the text.
pub match_decides : (re text : List ℕ) → (match_text re text ≡ true) ↔ Found re text
match_decides re text = (match_sound re text, match_complete)
