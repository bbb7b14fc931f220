-- ===== src/Sh/Printing.antt =====
-- sh.c: a line for every command, and what the parser does at its words.
use os192_ass2_multi_thread.Sh.{input, output}
use os192_ass2_multi_thread.Sh.Tokens.{Closed, IsWord, after, skip_space-word_byte, peek-word_byte}
use os192_ass2_multi_thread.Base.{
  true, List, ℕ, [], ◌∷◌, All, length, ◌+◌, ◌*◌, ◌≡◌, ◌++◌, ◌≤◌, arith, ◌<◌, refl, length-append,
  false, Bool,
}
use os192_ass2_multi_thread.Sh.{
  RedirKind, Cmd, skip_space, exec, redir, parsed, pipe, maxargs, list, back, ◌>>=◌, parseredirs,
  pure, peek, P, gettoken, refuse, redirs_loop, Redir, name, kind_of, missing_file,
}

-- Words, with a space behind each, before a text.
unfoldable pub print_words : List (List ℕ) → List ℕ → List ℕ
print_words [] rest = rest
print_words (w ∷ ws) rest = w ++ (32 ∷ print_words ws rest)

unfoldable pub print_kind : RedirKind → List ℕ → List ℕ
print_kind input rest = 60 ∷ 32 ∷ rest
print_kind output rest = 62 ∷ 32 ∷ rest

-- A command before a text, its parts in brackets.
unfoldable pub print : Cmd → List ℕ → List ℕ
unfolding print_words print_kind
print (exec ws) rest = print_words ws rest
print (redir c w k) rest = 40 ∷ print c (41 ∷ print_kind k (w ++ (32 ∷ rest)))
print (pipe c d) rest = 40 ∷ print c (41 ∷ 124 ∷ 40 ∷ print d (41 ∷ rest))
print (list c d) rest = 40 ∷ print c (41 ∷ 59 ∷ 40 ∷ print d (41 ∷ rest))
print (back c) rest = 40 ∷ print c (41 ∷ 38 ∷ rest)

-- The words are words, and no exec has ten of them.
unfoldable pub Printable : Cmd → Type 0
Printable (exec ws) = All IsWord ws × (length ws < maxargs)
Printable (redir c w k) = Printable c × IsWord w
Printable (pipe c d) = Printable c × Printable d
Printable (list c d) = Printable c × Printable d
Printable (back c) = Printable c

-- Fuel that is enough for a command.
unfoldable pub needs : Cmd → ℕ
needs (exec ws) = 3
needs (redir c w k) = 4 + needs c
needs (pipe c d) = 5 + (needs c + needs d)
needs (list c d) = 5 + (needs c + needs d)
needs (back c) = 4 + needs c

print_kind-length : (k : RedirKind) (rest : List ℕ) → length rest ≤ length (print_kind k rest)
unfolding print_kind
print_kind-length input rest = ground arith
print_kind-length output rest = ground arith

pub print_words-length :
    (ws : List (List ℕ)) (rest : List ℕ) → length ws + length rest ≤ length (print_words ws rest)
unfolding print_words
print_words-length [] rest = ground arith
print_words-length (w ∷ ws) rest =
    ground (arith, print_words-length ws rest, length-append w (32 ∷ print_words ws rest))

pub needs-print :
    (c : Cmd) (rest : List ℕ) → needs c + 4 * length rest ≤ 3 + 4 * length (print c rest)
unfolding print needs print_kind
needs-print (exec ws) rest = ground (arith, print_words-length ws rest)
needs-print (redir c w k) rest = ground (
  arith,
  needs-print c (41 ∷ print_kind k (w ++ (32 ∷ rest))),
  print_kind-length k (w ++ (32 ∷ rest)),
  length-append w (32 ∷ rest),
)
needs-print (pipe c d) rest =
    ground (arith, needs-print c (41 ∷ 124 ∷ 40 ∷ print d (41 ∷ rest)), needs-print d (41 ∷ rest))
needs-print (list c d) rest =
    ground (arith, needs-print c (41 ∷ 59 ∷ 40 ∷ print d (41 ∷ rest)), needs-print d (41 ∷ rest))
needs-print (back c) rest = ground (arith, needs-print c (41 ∷ 38 ∷ rest))

pub skip_space-print_words :
    (ws : List (List ℕ)) (rest : List ℕ)
    → All IsWord ws
    → Closed rest
    → skip_space (print_words ws rest) ≡ print_words ws rest
unfolding print_words skip_space
skip_space-print_words [] [] a e = refl
skip_space-print_words [] (c ∷ rest) a e = rw e refl
skip_space-print_words ([] ∷ ws) rest (i, a) e = absurd i
skip_space-print_words ((c ∷ cs) ∷ ws) rest ((p, q), a) e =
    skip_space-word_byte c (cs ++ (32 ∷ print_words ws rest)) p

-- The loop of parseredirs behind peek.
abbrev pub behind_peek : ℕ → Bool → P (List Redir)
behind_peek n b = elim b [
  | false ↦ pure []
  | true ↦ do
    tok ← gettoken
    file ← gettoken
    elim file [
      | name w ↦ do rest ← redirs_loop n; pure ((w, kind_of tok) ∷ rest)
      | _ ↦ refuse missing_file
    ]
]

pub parseredirs-print_words :
    (ws : List (List ℕ)) (rest : List ℕ)
    → All IsWord ws
    → Closed rest
    → parseredirs (print_words ws rest) ≡ parsed [] (print_words ws rest)
unfolding print_words parseredirs redirs_loop peek skip_space
parseredirs-print_words [] [] a e = refl
parseredirs-print_words [] (c ∷ rest) a e = rw e refl
parseredirs-print_words ([] ∷ ws) rest (i, a) e = absurd i
parseredirs-print_words ((c ∷ cs) ∷ ws) rest ((p, q), a) e =
    let s = cs ++ (32 ∷ print_words ws rest) in
    after (peek (60 ∷ 62 ∷ [])) (behind_peek (length (c ∷ s))) (c ∷ s)
      (peek-word_byte (60 ∷ 62 ∷ []) c s p (refl, (refl, tt)))

-- The text starts with no white space.
pub skip_space-print :
    (c : Cmd) (rest : List ℕ) → Printable c → Closed rest → skip_space (print c rest) ≡ print c rest
unfolding print skip_space Printable
skip_space-print (exec ws) rest p h = skip_space-print_words ws rest p.0 h
skip_space-print (redir c w k) rest p h = refl
skip_space-print (pipe c d) rest p h = refl
skip_space-print (list c d) rest p h = refl
skip_space-print (back c) rest p h = refl
