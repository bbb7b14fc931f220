-- ===== src/Tests/Consoles.antt =====
-- The theorems on the console applied to a ring with one line to read and one that is edited.
use os192_ass2_multi_thread.Console.{Console, consoleintr, consoleread, newline}
use os192_ass2_multi_thread.Console.Ring.{IsValid, view}
use os192_ass2_multi_thread.Console.Editing.{typed, consoleintr_lem}
use os192_ass2_multi_thread.Console.Reads.{take_line, shown, left, KeepsLine, consoleread_lem}
use os192_ass2_multi_thread.Console.Screen.{Screen}
use os192_ass2_multi_thread.Base.{◌∷◌, [], ◌≡◌, false, arith, if◌then◌else◌, ◌==◌, ◌+◌}

-- The counters have almost wrapped.
abbrev test_console : Console
test_console = record {
  buf = λ i. if i == 127 then newline else 97 + i;
  r = 0xfffffffe;
  w = 0;
  e = 2;
  echo = [];
  wakeups = 0;
}

test_console-IsValid : IsValid test_console
test_console-IsValid = record {
  r_fits = omega arith;
  w_fits = omega arith;
  e_fits = omega arith;
  room = omega arith;
  one_line = (λ e. omega arith, (λ e. omega arith, tt));
}

consoleintr_lem_example :
    IsValid (consoleintr (8 ∷ 100 ∷ 13 ∷ []) test_console).0
    × (view (consoleintr (8 ∷ 100 ∷ 13 ∷ []) test_console).0
        ≡ typed (8 ∷ 100 ∷ 13 ∷ []) (view test_console))
consoleintr_lem_example = consoleintr_lem (8 ∷ 100 ∷ 13 ∷ []) test_console test_console-IsValid

consoleread_lem_example :
    (shown (consoleread false 10 test_console) ≡ take_line false 10 10 (view test_console).ready)
    × KeepsLine test_console (left (consoleread false 10 test_console))
consoleread_lem_example = consoleread_lem false 10 test_console test_console-IsValid

-- The cursor is in the last line of the screen.
abbrev test_screen : Screen
test_screen = record { cursor = 1919; crt = λ i. 0 }
