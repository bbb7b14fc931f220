-- ===== src/Sh/Roundtrip.antt =====
-- sh.c: every command that the parser can build is written by some line, which it parses back.
use os192_ass2_multi_thread.Sh.Words.{parseexec-print}
use os192_ass2_multi_thread.Sh.Blocks.{
  parseline-one, parsepipe-one, parseexec-block, skip_space-print_kind, parseredirs-print_kind,
  behind_exec, parseexec-part, behind_exec-pipe, parsepipe-block, parseredirs-Closed, behind_pipe,
  behind_pipe-list, behind_backs, backs-back, behind_backs-Closed,
}
use os192_ass2_multi_thread.Sh.Printing.{
  Printable, print, needs, needs-print, print_words, print_kind,
}
use os192_ass2_multi_thread.Sh.Tokens.{Closed, after, peek-Closed, skip_space-Closed}
use os192_ass2_multi_thread.Base.{
  List, ℕ, [], ◌∷◌, length, ◌+◌, ◌*◌, ◌≡◌, ◌++◌, ◌≤◌, arith, suc, refl, ◌∙◌, ap, ◌-◌,
}
use os192_ass2_multi_thread.Sh.{
  parsecmd, Cmd, skip_space, exec, redir, parsed, pipe, parseline, parseexec, list, back, ◌>>=◌,
  ◌>>◌, parseredirs, pure, wrap, peek, refused, leftovers, redirs_loop, parsepipe, backs,
}

three : (n : ℕ) → 3 ≤ n → (m : ℕ) × (n ≡ suc (suc (suc m)))
three n h = (n - 3, omega arith)

four : (n : ℕ) → 4 ≤ n → (m : ℕ) × (n ≡ suc (suc (suc (suc m))))
four n h = (n - 4, omega arith)

five : (n : ℕ) → 5 ≤ n → (m : ℕ) × (n ≡ suc (suc (suc (suc (suc m)))))
five n h = (n - 5, omega arith)

parseline-print :
    (c : Cmd) (n : ℕ) (rest : List ℕ)
    → Printable c
    → Closed rest
    → needs c ≤ n
    → parseline n (print c rest) ≡ parsed c rest
unfolding Printable print needs wrap parseline parsepipe peek parseredirs redirs_loop skip_space
parseline-print (exec ws) n rest p e h =
    let (m, q) = three n h in
    rw q (
      parseline-one (suc (suc m)) (exec ws) (print_words ws rest) rest
        (parsepipe-one (suc m) (exec ws) (print_words ws rest) rest
          (parseexec-print m ws rest p.0 p.1 e) (peek-Closed (124 ∷ []) rest e refl))
        e)
parseline-print (redir c w k) n rest (p, i) e h =
    let (m, q) = four n (omega arith) in
    let s = print_kind k (w ++ (32 ∷ rest)) in
    rw q (
      parseline-one (suc (suc (suc m))) (redir c w k) (40 ∷ print c (41 ∷ s)) rest
        (parsepipe-one (suc (suc m)) (redir c w k) (40 ∷ print c (41 ∷ s)) rest
          (parseexec-block m c s p (parseline-print c m (41 ∷ s) p refl (omega arith))
            ∙ (ap (parseredirs >>= λ rs. pure (wrap rs c))
                  (skip_space-print_kind k (w ++ (32 ∷ rest)))
                ∙ after parseredirs (λ rs. pure (wrap rs c)) s
                    (parseredirs-print_kind k w rest i e)))
          (peek-Closed (124 ∷ []) rest e refl))
        e)
parseline-print (pipe c d) n rest (p, p') e h =
    let (m, q) = five n (omega arith) in
    let t = 124 ∷ 40 ∷ print d (41 ∷ rest) in
    let k = suc (suc (suc m)) in
    rw q (
      parseline-one (suc k) (pipe c d) (40 ∷ print c (41 ∷ t)) rest
        (after (parseexec k) (behind_exec k) (40 ∷ print c (41 ∷ t)) (
            parseexec-part (suc m) c t p (parseline-print c (suc m) (41 ∷ t) p refl (omega arith))
              refl refl)
          ∙ behind_exec-pipe k c d (print d (41 ∷ rest)) rest (
              parsepipe-block m d rest p' (parseline-print d m (41 ∷ rest) p' refl (omega arith))
                (skip_space-Closed rest e) (parseredirs-Closed rest e)
                (peek-Closed (124 ∷ []) rest e refl)))
        e)
parseline-print (list c d) n rest (p, p') e h =
    let (m, q) = five n (omega arith) in
    let t = 59 ∷ 40 ∷ print d (41 ∷ rest) in
    let k = suc (suc (suc m)) in
    rw q (
      after (parsepipe (suc k)) (behind_pipe (suc k)) (40 ∷ print c (41 ∷ t)) (
        parsepipe-block (suc m) c t p (parseline-print c (suc m) (41 ∷ t) p refl (omega arith)) refl
          refl refl)
      ∙ behind_pipe-list (suc k) c d (print d (41 ∷ rest)) rest (
          parseline-one k d (40 ∷ print d (41 ∷ rest)) rest
            (parsepipe-block m d rest p' (parseline-print d m (41 ∷ rest) p' refl (omega arith))
              (skip_space-Closed rest e) (parseredirs-Closed rest e)
              (peek-Closed (124 ∷ []) rest e refl))
            e))
parseline-print (back c) n rest p e h =
    let (m, q) = four n (omega arith) in
    let k = suc (suc (suc m)) in
    rw q (
      after (parsepipe k) (behind_pipe k) (40 ∷ print c (41 ∷ 38 ∷ rest)) (
        parsepipe-block m c (38 ∷ rest) p
          (parseline-print c m (41 ∷ 38 ∷ rest) p refl (omega arith)) refl refl refl)
      ∙ (after (λ s'. backs (suc (length s')) c s') (behind_backs k) (38 ∷ rest)
            (backs-back (length rest) c rest e)
          ∙ behind_backs-Closed k (back c) rest e))

parsecmd-parseline :
    (s : List ℕ) (c : Cmd) → parseline (4 * length s + 4) s ≡ parsed c [] → parsecmd s ≡ parsed c []
unfolding parsecmd
parsecmd-parseline s c p =
    after (parseline (4 * length s + 4))
      (λ c. peek [] >> (λ t. elim t [ [] ↦ parsed c [] | _ ∷ _ ↦ refused leftovers ])) s p

-- Each command whose words are not empty and hold neither white space nor symbols, and whose execs have less than
-- ten words, is what parsecmd makes, within its fuel, of the line that print writes for it.
pub parsecmd-print : (c : Cmd) → Printable c → parsecmd (print c []) ≡ parsed c []
parsecmd-print c p =
    parsecmd-parseline (print c []) c
      (parseline-print c (4 * length (print c []) + 4) [] p tt (ground (arith, needs-print c [])))
