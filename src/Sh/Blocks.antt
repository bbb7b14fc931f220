-- ===== src/Sh/Blocks.antt =====
-- sh.c: parseexec, parsepipe and parseline at a block.
use os192_ass2_multi_thread.Sh.Printing.{
  Printable, print_kind, behind_peek, print, skip_space-print,
}
use os192_ass2_multi_thread.Sh.{input, output}
use os192_ass2_multi_thread.Sh.Tokens.{
  Closed, IsWord, after, gettoken-word, peek-Closed, skip_space-word, skip_space-Closed,
}
use os192_ass2_multi_thread.Base.{
  true, List, ℕ, [], ◌∷◌, length, ◌≡◌, ◌++◌, suc, refl, ◌∙◌, false, ap,
}
use os192_ass2_multi_thread.Sh.{
  RedirKind, Cmd, skip_space, parsed, pipe, parseline, parseexec, list, back, ◌>>=◌, ◌>>◌,
  parseredirs, pure, wrap, parseblock, peek, P, gettoken, refuse, missing_paren, redirs_loop, Redir,
  Token, name, missing_file, parsepipe, backs,
}

-- The end of parseblock, behind its line.
abbrev block_end : Cmd → P Cmd
block_end c = do
  e ← peek (41 ∷ [])
  elim e [ false ↦ refuse missing_paren | true ↦ do gettoken; rs ← parseredirs; pure (wrap rs c) ]

pub parseexec-block :
    (n : ℕ) (c : Cmd) (s : List ℕ)
    → Printable c
    → parseline n (print c (41 ∷ s)) ≡ parsed c (41 ∷ s)
    → parseexec (suc (suc n)) (40 ∷ print c (41 ∷ s))
      ≡ (do rs ← parseredirs; pure (wrap rs c)) (skip_space s)
unfolding parseexec parseblock peek gettoken skip_space
parseexec-block n c s p q =
    after (parseline n) block_end (skip_space (print c (41 ∷ s)))
      (ap (parseline n) (skip_space-print c (41 ∷ s) p refl) ∙ q)

redirs_loop-Closed :
    (n : ℕ) (rest : List ℕ) → Closed rest → redirs_loop (suc n) rest ≡ parsed [] rest
unfolding redirs_loop
redirs_loop-Closed n rest e =
    after (peek (60 ∷ 62 ∷ [])) (behind_peek n) rest (peek-Closed (60 ∷ 62 ∷ []) rest e refl)

-- The loop of parseredirs behind its symbol.
abbrev behind_file : ℕ → RedirKind → Token → P (List Redir)
behind_file n k file = elim file [
  | name w ↦ do rest ← redirs_loop (suc n); pure ((w, k) ∷ rest)
  | _ ↦ refuse missing_file
]

redirs_loop-word :
    (n : ℕ) (k : RedirKind) (w rest : List ℕ)
    → IsWord w
    → Closed rest
    → (gettoken >>= behind_file n k) (skip_space (32 ∷ w ++ (32 ∷ rest)))
      ≡ parsed ((w, k) ∷ []) rest
unfolding skip_space
redirs_loop-word n k w rest i e =
    ap (gettoken >>= behind_file n k) (skip_space-word w (32 ∷ rest) i)
    ∙ (after gettoken (behind_file n k) (w ++ (32 ∷ rest)) (gettoken-word w rest i)
        ∙ (ap (behind_file n k (name w)) (skip_space-Closed rest e)
            ∙ after (redirs_loop (suc n)) (λ rest. pure ((w, k) ∷ rest)) rest
                (redirs_loop-Closed n rest e)))

-- The redirection that print writes.
pub parseredirs-print_kind :
    (k : RedirKind) (w rest : List ℕ)
    → IsWord w
    → Closed rest
    → parseredirs (print_kind k (w ++ (32 ∷ rest))) ≡ parsed ((w, k) ∷ []) rest
unfolding parseredirs redirs_loop print_kind
parseredirs-print_kind input w rest i e =
    redirs_loop-word (suc (length (w ++ (32 ∷ rest)))) input w rest i e
parseredirs-print_kind output w rest i e =
    redirs_loop-word (suc (length (w ++ (32 ∷ rest)))) output w rest i e

pub skip_space-print_kind :
    (k : RedirKind) (s : List ℕ) → skip_space (print_kind k s) ≡ print_kind k s
unfolding skip_space print_kind
skip_space-print_kind input s = refl
skip_space-print_kind output s = refl

-- Behind a block whose end has no redirection.
pub parseexec-part :
    (n : ℕ) (c : Cmd) (s : List ℕ)
    → Printable c
    → parseline n (print c (41 ∷ s)) ≡ parsed c (41 ∷ s)
    → skip_space s ≡ s
    → parseredirs s ≡ parsed [] s
    → parseexec (suc (suc n)) (40 ∷ print c (41 ∷ s)) ≡ parsed c s
unfolding wrap skip_space
parseexec-part n c s p q r t =
    parseexec-block n c s p q
    ∙ (ap (parseredirs >>= λ rs. pure (wrap rs c)) r
        ∙ after parseredirs (λ rs. pure (wrap rs c)) s t)

-- parsepipe behind parseexec.
abbrev pub behind_exec : ℕ → Cmd → P Cmd
behind_exec n c = do
  b ← peek (124 ∷ [])
  elim b [ false ↦ pure c | true ↦ do gettoken; d ← parsepipe n; pure (pipe c d) ]

-- A pipeline of one command.
pub parsepipe-one :
    (n : ℕ) (c : Cmd) (s t : List ℕ)
    → parseexec n s ≡ parsed c t
    → peek (124 ∷ []) t ≡ parsed false t
    → parsepipe (suc n) s ≡ parsed c t
unfolding parsepipe
parsepipe-one n c s t p q =
    after (parseexec n) (behind_exec n) s p
    ∙ after (peek (124 ∷ []))
        (λ b. elim b [ false ↦ pure c | true ↦ do gettoken; d ← parsepipe n; pure (pipe c d) ]) t q

backs-Closed :
    (n : ℕ) (c : Cmd) (rest : List ℕ) → Closed rest → backs (suc n) c rest ≡ parsed c rest
unfolding backs
backs-Closed n c rest e =
    after (peek (38 ∷ [])) (λ b. elim b [ false ↦ pure c | true ↦ do gettoken; backs n (back c) ])
      rest (peek-Closed (38 ∷ []) rest e refl)

-- parseline behind its &, and before.
abbrev pub behind_backs : ℕ → Cmd → P Cmd
behind_backs n d = do
  b ← peek (59 ∷ [])
  elim b [ false ↦ pure d | true ↦ do gettoken; e ← parseline n; pure (list d e) ]

abbrev pub behind_pipe : ℕ → Cmd → P Cmd
behind_pipe n c = do d ← (λ s. backs (suc (length s)) c s); behind_backs n d

pub behind_backs-Closed :
    (n : ℕ) (c : Cmd) (rest : List ℕ) → Closed rest → behind_backs n c rest ≡ parsed c rest
behind_backs-Closed n c rest e =
    after (peek (59 ∷ []))
      (λ b. elim b [ false ↦ pure c | true ↦ do gettoken; e ← parseline n; pure (list c e) ]) rest
      (peek-Closed (59 ∷ []) rest e refl)

-- A line of one pipeline.
pub parseline-one :
    (n : ℕ) (c : Cmd) (s rest : List ℕ)
    → parsepipe n s ≡ parsed c rest
    → Closed rest
    → parseline (suc n) s ≡ parsed c rest
unfolding parseline
parseline-one n c s rest p e =
    after (parsepipe n) (behind_pipe n) s p
    ∙ (after (λ s'. backs (suc (length s')) c s') (behind_backs n) rest
          (backs-Closed (length rest) c rest e)
        ∙ behind_backs-Closed n c rest e)

-- A pipeline of one block, before a text without redirection.
pub parsepipe-block :
    (n : ℕ) (c : Cmd) (s : List ℕ)
    → Printable c
    → parseline n (print c (41 ∷ s)) ≡ parsed c (41 ∷ s)
    → skip_space s ≡ s
    → parseredirs s ≡ parsed [] s
    → peek (124 ∷ []) s ≡ parsed false s
    → parsepipe (suc (suc (suc n))) (40 ∷ print c (41 ∷ s)) ≡ parsed c s
parsepipe-block n c s p q r t u =
    parsepipe-one (suc (suc n)) c (40 ∷ print c (41 ∷ s)) s (parseexec-part n c s p q r t) u

pub parseredirs-Closed : (rest : List ℕ) → Closed rest → parseredirs rest ≡ parsed [] rest
unfolding parseredirs
parseredirs-Closed rest e = redirs_loop-Closed (length rest) rest e

pub behind_exec-pipe :
    (n : ℕ) (c d : Cmd) (s rest : List ℕ)
    → parsepipe n (40 ∷ s) ≡ parsed d rest
    → behind_exec n c (124 ∷ 40 ∷ s) ≡ parsed (pipe c d) rest
unfolding peek gettoken skip_space
behind_exec-pipe n c d s rest p = after (parsepipe n) (λ d. pure (pipe c d)) (40 ∷ s) p

pub behind_pipe-list :
    (n : ℕ) (c d : Cmd) (s rest : List ℕ)
    → parseline n (40 ∷ s) ≡ parsed d rest
    → behind_pipe n c (59 ∷ 40 ∷ s) ≡ parsed (list c d) rest
unfolding peek gettoken skip_space backs
behind_pipe-list n c d s rest p = after (parseline n) (λ e. pure (list c e)) (40 ∷ s) p

pub backs-back :
    (n : ℕ) (c : Cmd) (rest : List ℕ)
    → Closed rest
    → backs (suc (suc n)) c (38 ∷ rest) ≡ parsed (back c) rest
unfolding backs peek gettoken skip_space
backs-back n c rest e =
    ap (backs (suc n) (back c)) (skip_space-Closed rest e) ∙ backs-Closed n (back c) rest e
