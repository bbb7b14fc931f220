-- ===== src/Grep.antt =====
-- grep.c: the matcher of regular expressions with ^ . * $ over texts without NUL.
pub mod Matches
use os192_ass2_multi_thread.Base.{ℕ, List, Bool, false, ◌∷◌, true, [], if◌then◌else◌, ◌==◌, ◌||◌}

-- '^', '*', '$' and '.'
abbrev pub caret : ℕ
caret = 94

abbrev pub star : ℕ
star = 42

abbrev pub dollar : ℕ
dollar = 36

abbrev pub dot : ℕ
dot = 46

abbrev pub is_empty : List ℕ → Bool
is_empty [] = true
is_empty (c ∷ text) = false

-- matchstar, with matchhere at its `re`.
unfoldable pub matchstar : ℕ → (List ℕ → Bool) → List ℕ → Bool
matchstar c here [] = here []
matchstar c here (t ∷ text) =
    let rest = matchstar c here text in
    if here (t ∷ text) then true else (if t == c || c == dot then rest else false)

-- One character of the text against one of the expression, then `here` behind both.
abbrev pub match_one : ℕ → (List ℕ → Bool) → List ℕ → Bool
match_one c here [] = false
match_one c here (t ∷ text) = if c == dot || c == t then here text else false

unfoldable pub matchhere : List ℕ → List ℕ → Bool
unfolding matchstar
matchhere [] text = true
matchhere (c ∷ []) text = if c == dollar then is_empty text else match_one c (λ _. true) text
matchhere (c ∷ d ∷ re) text = elim (d == star) [
  | true ↦ matchstar c (matchhere re) text
  | false ↦ match_one c (matchhere (d ∷ re)) text
]

-- The loop of match over the start of the text.
unfoldable pub match_from : (List ℕ → Bool) → List ℕ → Bool
match_from here [] = here []
match_from here (t ∷ text) =
    let rest = match_from here text in if here (t ∷ text) then true else rest

unfoldable pub match_text : List ℕ → List ℕ → Bool
unfolding matchhere match_from
match_text [] text = match_from (matchhere []) text
match_text (c ∷ re) text =
    if c == caret then matchhere re text else match_from (matchhere (c ∷ re)) text
