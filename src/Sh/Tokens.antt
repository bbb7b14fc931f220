-- ===== src/Sh/Tokens.antt =====
-- sh.c: peek and gettoken at a word, at the end and at a bracket.
use mathlib.Core.Path.{ap₂}
use os192_ass2_multi_thread.Base.{
  [], ℕ, List, ◌++◌, ◌≡◌, ◌∷◌, ap, true, All, refl, false, arith, Bool-cases, ◌==◌, inl, inr, sym,
  ◌∙◌, subst,
}
use os192_ass2_multi_thread.Sh.{
  word, past_word, gettoken, skip_space, peek, is_word_byte, is_in, parsed, whitespace, symbols,
  name, token_at, P, ◌>>=◌, Parsed, refused,
}

-- A step that parses hands its result on.
pub after :
    {A B : Type 0} (m : P A) (f : A → P B) (s : List ℕ) {t : List ℕ} {a : A}
    → m s ≡ parsed a t
    → (m >>= f) s ≡ f a t
after {B} m f s p =
    ap (λ r. elim r as (λ _. Parsed B) [ parsed a t ↦ f a t | refused e ↦ refused e ]) p

-- The bytes of a word: neither white space nor a symbol.
abbrev pub AreWordBytes : List ℕ → Type 0
AreWordBytes [] = Unit
AreWordBytes (c ∷ cs) = (is_word_byte c ≡ true) × AreWordBytes cs

-- A word is not empty.
abbrev pub IsWord : List ℕ → Type 0
IsWord [] = ⊥
IsWord (c ∷ cs) = (is_word_byte c ≡ true) × AreWordBytes cs

-- Behind a command: the end, or a closing bracket.
abbrev pub Closed : List ℕ → Type 0
Closed [] = Unit
Closed (c ∷ cs) = c ≡ 41

word-space : (cs rest : List ℕ) → AreWordBytes cs → word (cs ++ (32 ∷ rest)) ≡ cs
unfolding word
word-space [] rest p = refl
word-space (c ∷ cs) rest (p, q) = rw p (ap (λ l. c ∷ l) (word-space cs rest q))

past_word-space : (cs rest : List ℕ) → AreWordBytes cs → past_word (cs ++ (32 ∷ rest)) ≡ 32 ∷ rest
unfolding past_word
past_word-space [] rest p = refl
past_word-space (c ∷ cs) rest (p, q) = rw p (past_word-space cs rest q)

pub is_word_byte-whitespace : (c : ℕ) → is_word_byte c ≡ true → is_in c whitespace ≡ false
is_word_byte-whitespace c p = ground arith

pub is_word_byte-symbols : (c : ℕ) → is_word_byte c ≡ true → is_in c symbols ≡ false
is_word_byte-symbols c p = ground arith

same_symbol : {c d : ℕ} → d ≡ c → is_in d symbols ≡ true → is_in c symbols ≡ false → ⊥
same_symbol {c} e p q = ground (arith, sym q ∙ subst (λ x. is_in x symbols ≡ true) e p)

-- A set of symbols has no byte of a word.
pub word_byte_outside :
    (toks : List ℕ) (c : ℕ)
    → is_word_byte c ≡ true
    → All (λ d. is_in d symbols ≡ true) toks
    → is_in c toks ≡ false
word_byte_outside [] c p a = refl
word_byte_outside (d ∷ toks) c p (a, h) = elim (Bool-cases (d == c)) [
  | inl y ↦ absurd (same_symbol {c = c} {d = d} (ground arith) a (is_word_byte-symbols c p))
  | inr k ↦ rw k (word_byte_outside toks c p h)
]

pub skip_space-word_byte : (c : ℕ) (s : List ℕ) → is_word_byte c ≡ true → skip_space (c ∷ s) ≡ c ∷ s
unfolding skip_space
skip_space-word_byte c s p = rw (is_word_byte-whitespace c p) refl

pub peek-word_byte :
    (toks : List ℕ) (c : ℕ) (s : List ℕ)
    → is_word_byte c ≡ true
    → All (λ d. is_in d symbols ≡ true) toks
    → peek toks (c ∷ s) ≡ parsed false (c ∷ s)
unfolding peek
peek-word_byte toks c s p a =
    rw (skip_space-word_byte c s p) (rw (word_byte_outside toks c p a) refl)

token_at-word_byte :
    (c : ℕ) (s : List ℕ)
    → is_in c symbols ≡ false
    → token_at (c ∷ s) ≡ (name (word (c ∷ s)), past_word (c ∷ s))
token_at-word_byte c s p = rw p refl

pub skip_space-word : (w rest : List ℕ) → IsWord w → skip_space (w ++ rest) ≡ w ++ rest
skip_space-word [] rest i = absurd i
skip_space-word (c ∷ cs) rest (p, q) = skip_space-word_byte c (cs ++ rest) p

pub skip_space-Closed : (rest : List ℕ) → Closed rest → skip_space rest ≡ rest
unfolding skip_space
skip_space-Closed [] e = refl
skip_space-Closed (c ∷ rest) e = rw e refl

-- An opening bracket and the symbols between commands are not at a closed end.
pub peek-Closed :
    (toks rest : List ℕ) → Closed rest → is_in 41 toks ≡ false → peek toks rest ≡ parsed false rest
unfolding peek skip_space
peek-Closed toks [] e o = refl
peek-Closed toks (c ∷ rest) e o = rw e (rw o refl)

pub gettoken-word :
    (w rest : List ℕ) → IsWord w → gettoken (w ++ (32 ∷ rest)) ≡ parsed (name w) (skip_space rest)
unfolding gettoken
gettoken-word [] rest i = absurd i
gettoken-word (c ∷ cs) rest (p, q) = rw (skip_space-word_byte c (cs ++ (32 ∷ rest)) p) (
    ap (λ t. parsed t.0 (skip_space t.1))
      (token_at-word_byte c (cs ++ (32 ∷ rest)) (is_word_byte-symbols c p)
        ∙ ap₂ (λ u v. (name u, v)) (word-space (c ∷ cs) rest (p, q))
            (past_word-space (c ∷ cs) rest (p, q)))
    ∙ refl)
