-- ===== src/Console.antt =====
-- console.c: the line editing of the console's input, its reads, and the screen. A character is a number; the
-- input ring is a function from places to characters.
pub mod Screen
pub mod Ring
pub mod Erasing
pub mod Editing
pub mod Reads
use os192_ass2_multi_thread.Base.{
  ℕ, List, Bool, ◌∷◌, if◌then◌else◌, ◌+◌, suc, ◌==◌, false, [], true, ◌||◌, ◌%◌, ◌^◌, not, ◌-◌,
  zero, ltb, ◌&&◌,
}

-- `INPUT_BUF`
abbrev pub input_buf : ℕ
input_buf = 128

abbrev pub backspace : ℕ
backspace = 0x100

abbrev pub newline : ℕ
newline = 10

-- `C('D')`
abbrev pub ctrl_d : ℕ
ctrl_d = 4

-- `input`, with what was given to consputc, the last first, and the number of wakeups of `&input.r`.
pub record Console : Type 0 where
  pub buf : ℕ → ℕ
  pub r : ℕ
  pub w : ℕ
  pub e : ℕ
  pub echo : List ℕ
  pub wakeups : ℕ

abbrev pub before : ℕ → ℕ
before i = (i + 2 ^ 32 - 1) % 2 ^ 32

abbrev pub behind : ℕ → ℕ
behind i = (i + 1) % 2 ^ 32

-- `input.e--; consputc(BACKSPACE);`
abbrev pub erase : Console → Console
erase s = record s { e = before s.e; echo = backspace ∷ s.echo }

-- The loop of Kill line, for `n` characters at most.
unfoldable pub kill_line : ℕ → Console → Console
kill_line zero s = s
kill_line (suc n) s = elim (s.e == s.w || s.buf (before s.e % input_buf) == newline) [
  | true ↦ s
  | false ↦ kill_line n (erase s)
]

abbrev pub as_newline : ℕ → ℕ
as_newline c = if c == 13 then newline else c

-- `input.buf[input.e++ % INPUT_BUF] = c; consputc(c);`
abbrev pub stored : ℕ → Console → Console
stored c s = record s {
  buf = λ i. if i == s.e % input_buf then c else s.buf i;
  e = behind s.e;
  echo = c ∷ s.echo;
}

-- `input.w = input.e; wakeup(&input.r);`, if the line is at its end.
abbrev pub committed : ℕ → Console → Console
committed c s =
    if c == newline || c == ctrl_d || s.e == (s.r + input_buf) % 2 ^ 32
    then record s { w = s.e; wakeups = s.wakeups + 1 }
    else s

-- One round of the loop of consoleintr, without the request for procdump.
unfoldable pub intr_char : ℕ → Console → Console
unfolding kill_line
intr_char c s = elim (c == 16) [
  | true ↦ s
  | false ↦ elim (c == 21) [
    | true ↦ kill_line input_buf s
    | false ↦ elim (c == 8 || c == 127) [
      | true ↦ if s.e == s.w then s else erase s
      | false ↦
          if not (c == 0) && ltb ((s.e + 2 ^ 32 - s.r) % 2 ^ 32) input_buf
          then committed (as_newline c) (stored (as_newline c) s)
          else s
    ]
  ]
]

-- consoleintr, on the characters that getc gives, and whether procdump is called.
unfoldable pub consoleintr : List ℕ → Console → Console × Bool
unfolding intr_char
consoleintr [] s = (s, false)
consoleintr (c ∷ cs) s = let (t, dump) = consoleintr cs (intr_char c s) in (t, c == 16 || dump)

-- A read ends with its bytes; or a killed process leaves it; or it sleeps with some bytes read and `n` to go.
pub data Read (S : Type 0) : Type 0 where
  finished : List ℕ → S → Read S
  interrupted : S → Read S
  sleeps : List ℕ → ℕ → S → Read S

abbrev pub prefixed : {S : Type 0} → ℕ → Read S → Read S
prefixed c (finished cs s) = finished (c ∷ cs) s
prefixed c (interrupted s) = interrupted s
prefixed c (sleeps cs n s) = sleeps (c ∷ cs) n s

-- The loop of consoleread up to a sleep, with `n` to go. It goes on behind the sleep with the same loop.
unfoldable pub read_loop : Bool → ℕ → ℕ → Console → Read Console
read_loop killed target zero s = finished [] s
read_loop killed target (suc n) s = elim (s.r == s.w) [
  | true ↦ if killed then interrupted s else sleeps [] (suc n) s
  | false ↦
      let c = s.buf (s.r % input_buf) in
      let t = record s { r = behind s.r } in
      elim (c == ctrl_d) [
        | true ↦ finished [] (if ltb (suc n) target then record t { r = before t.r } else t)
        | false ↦ elim (c == newline) [
          | true ↦ finished (c ∷ []) t
          | false ↦ prefixed c (read_loop killed target n t)
        ]
      ]
]

unfoldable pub consoleread : Bool → ℕ → Console → Read Console
unfolding read_loop
consoleread killed n s = read_loop killed n n s
