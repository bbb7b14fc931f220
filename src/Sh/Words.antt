-- ===== src/Sh/Words.antt =====
-- sh.c: the loop of parseexec on printed words.
use os192_ass2_multi_thread.Sh.Printing.{
  print_words, parseredirs-print_words, skip_space-print_words, print_words-length,
}
use os192_ass2_multi_thread.Sh.Tokens.{
  Closed, IsWord, after, peek-word_byte, gettoken-word, peek-Closed,
}
use os192_ass2_multi_thread.Base.{
  true, zero, List, ℕ, [], ◌∷◌, All, length, ◌+◌, ◌≡◌, ◌++◌, arith, ◌<◌, suc, refl, ◌∙◌, false, ap,
  leb,
}
use os192_ass2_multi_thread.Sh.{
  Cmd, skip_space, exec, parsed, maxargs, parseexec, args_loop, ◌>>=◌, parseredirs, pure, wrap,
  parseblock, peek, P, gettoken, refuse, Redir, too_many_args, Token, name, end, syntax,
}

args_loop-end :
    (n argc : ℕ) (rest : List ℕ) → Closed rest → args_loop (suc n) argc rest ≡ parsed ([], []) rest
unfolding args_loop peek gettoken skip_space
args_loop-end n argc [] e = refl
args_loop-end n argc (c ∷ rest) e = rw e refl

-- The loop of parseexec behind a word.
abbrev behind_word : ℕ → ℕ → List ℕ → P (List (List ℕ) × List Redir)
behind_word n argc w = elim (leb maxargs (argc + 1)) [
  | true ↦ refuse too_many_args
  | false ↦ do rs ← parseredirs; rest ← args_loop n (argc + 1); pure (w ∷ rest.0, rs ++ rest.1)
]

abbrev behind_token : ℕ → ℕ → Token → P (List (List ℕ) × List Redir)
behind_token n argc tok = elim tok [
  | end ↦ pure ([], [])
  | name w ↦ behind_word n argc w
  | _ ↦ refuse syntax
]

args_loop-word :
    (n argc : ℕ) (w rest : List ℕ)
    → IsWord w
    → args_loop (suc n) argc (w ++ (32 ∷ rest)) ≡ behind_word n argc w (skip_space rest)
unfolding args_loop
args_loop-word n argc [] rest i = absurd i
args_loop-word n argc (c ∷ cs) rest (p, q) =
    after (peek (124 ∷ 41 ∷ 38 ∷ 59 ∷ []))
      (λ b. elim b [ true ↦ pure ([], []) | false ↦ gettoken >>= behind_token n argc ])
      (c ∷ cs ++ (32 ∷ rest))
      (peek-word_byte (124 ∷ 41 ∷ 38 ∷ 59 ∷ []) c (cs ++ (32 ∷ rest)) p
        (refl, (refl, (refl, (refl, tt)))))
    ∙ after gettoken (behind_token n argc) (c ∷ cs ++ (32 ∷ rest))
        (gettoken-word (c ∷ cs) rest (p, q))

few : (n : ℕ) → n < maxargs → leb maxargs n ≡ false
few n h = ground arith

args_loop-print :
    (n argc : ℕ) (ws : List (List ℕ)) (rest : List ℕ)
    → All IsWord ws
    → argc + length ws < maxargs
    → length ws < n
    → Closed rest
    → args_loop n argc (print_words ws rest) ≡ parsed (ws, []) rest
unfolding args_loop print_words
args_loop-print zero argc ws rest a b h e = absurd (omega arith)
args_loop-print (suc n) argc [] rest a b h e = args_loop-end n argc rest e
args_loop-print (suc n) argc (w ∷ ws) rest (i, a) b h e =
    args_loop-word n argc w (print_words ws rest) i
    ∙ (ap (behind_word n argc w) (skip_space-print_words ws rest a e)
        ∙ (rw (few (argc + 1) (omega arith), behind_word)
            (after parseredirs (λ rs. args_loop n (argc + 1) >>= (λ x. pure (w ∷ x.0, rs ++ x.1)))
                (print_words ws rest) (parseredirs-print_words ws rest a e)
              ∙ after (args_loop n (argc + 1)) (λ x. pure (w ∷ x.0, x.1)) (print_words ws rest)
                  (args_loop-print n (argc + 1) ws rest a (omega arith) (omega arith) e))))

peek-print_words :
    (ws : List (List ℕ)) (rest : List ℕ)
    → All IsWord ws
    → Closed rest
    → peek (40 ∷ []) (print_words ws rest) ≡ parsed false (print_words ws rest)
unfolding print_words
peek-print_words [] rest a e = peek-Closed (40 ∷ []) rest e refl
peek-print_words ([] ∷ ws) rest (i, a) e = absurd i
peek-print_words ((c ∷ cs) ∷ ws) rest ((p, q), a) e =
    peek-word_byte (40 ∷ []) c (cs ++ (32 ∷ print_words ws rest)) p (refl, tt)

-- parseexec behind its first redirections.
abbrev behind_redirs : List Redir → P Cmd
behind_redirs rs = do a ← (λ s. args_loop (suc (length s)) 0 s); pure (wrap (rs ++ a.1) (exec a.0))

pub parseexec-print :
    (n : ℕ) (ws : List (List ℕ)) (rest : List ℕ)
    → All IsWord ws
    → length ws < maxargs
    → Closed rest
    → parseexec (suc n) (print_words ws rest) ≡ parsed (exec ws) rest
unfolding parseexec wrap
parseexec-print n ws rest a b e =
    after (peek (40 ∷ []))
      (λ b. elim b [ true ↦ parseblock n | false ↦ parseredirs >>= behind_redirs ])
      (print_words ws rest) (peek-print_words ws rest a e)
    ∙ (after parseredirs behind_redirs (print_words ws rest) (parseredirs-print_words ws rest a e)
        ∙ after (args_loop (suc (length (print_words ws rest))) 0) (λ x. pure (wrap x.1 (exec x.0)))
            (print_words ws rest)
            (args_loop-print (suc (length (print_words ws rest))) 0 ws rest a (omega arith)
              (ground (arith, print_words-length ws rest)) e))
