-- ===== src/Tests/Shell.antt =====
-- The theorem on the shell's parser applied to a command.
use os192_ass2_multi_thread.Sh.Roundtrip.{parsecmd-print}
use os192_ass2_multi_thread.Base.{arith, [], ◌≡◌, ◌∷◌, refl}
use os192_ass2_multi_thread.Sh.{parsecmd, Cmd, back, pipe, exec, parsed, redir, output}
use os192_ass2_multi_thread.Sh.Printing.{Printable, print}

-- (ls)|(wc)>f &
abbrev test_cmd : Cmd
test_cmd =
    back
      (pipe (exec ((108 ∷ 115 ∷ []) ∷ [])) (redir (exec ((119 ∷ 99 ∷ []) ∷ [])) (102 ∷ []) output))

test_cmd-Printable : Printable test_cmd
unfolding Printable
test_cmd-Printable =
    ((((refl, (refl, tt)), tt), omega arith), ((((refl, (refl, tt)), tt), omega arith), (refl, tt)))

parsecmd-print_example : parsecmd (print test_cmd []) ≡ parsed test_cmd []
parsecmd-print_example = parsecmd-print test_cmd test_cmd-Printable
