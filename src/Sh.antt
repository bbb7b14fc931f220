-- ===== src/Sh.antt =====
-- sh.c: the parser of command lines. The text from `*ps` to `es` is a list of bytes without NUL, and a word, from
-- `q` to `eq`, is the list of its bytes, as nulterminate leaves it.
pub mod Tokens
pub mod Printing
pub mod Words
pub mod Blocks
pub mod Roundtrip
use os192_ass2_multi_thread.Base.{
  if◌then◌else◌, List, ℕ, ◌*◌, Bool, ◌==◌, ◌∷◌, suc, false, [], not, ◌&&◌, length, ◌||◌, zero, true,
  ◌+◌, ◌++◌, leb, drop,
}

-- `MAXARGS`
abbrev pub maxargs : ℕ
maxargs = 10

-- `mode` and `fd` of a redirection: O_RDONLY and 0, or O_WRONLY|O_CREATE and 1, which > and >> both have.
pub data RedirKind : Type 0 where
  input output : RedirKind

-- `struct cmd` and those that extend it.
pub data Cmd : Type 0 where
  exec : List (List ℕ) → Cmd
  redir : Cmd → List ℕ → RedirKind → Cmd
  pipe : Cmd → Cmd → Cmd
  list : Cmd → Cmd → Cmd
  back : Cmd → Cmd

pub data SyntaxError : Type 0 where
  leftovers missing_file parseblock_panic missing_paren syntax too_many_args out_of_fuel :
      SyntaxError

pub data Parsed (A : Type 0) : Type 0 where
  parsed : A → List ℕ → Parsed A
  refused : SyntaxError → Parsed A

abbrev pub P : Type 0 → Type 0
P A = List ℕ → Parsed A

abbrev pub pure : {A : Type 0} → A → P A
pure a s = parsed a s

infixl 5 ◌>>=◌ ◌>>◌
abbrev pub ◌>>=◌ : {A B : Type 0} → P A → (A → P B) → P B
◌>>=◌ m f s = elim (m s) [ parsed a t ↦ f a t | refused e ↦ refused e ]

abbrev pub ◌>>◌ : {A B : Type 0} → P A → P B → P B
m >> n = m >>= λ _. n

abbrev pub refuse : {A : Type 0} → SyntaxError → P A
refuse e s = refused e

-- `strchr(set, c)` for a byte that is not NUL.
abbrev pub is_in : ℕ → List ℕ → Bool
is_in c [] = false
is_in c (d ∷ ds) = d == c || is_in c ds

abbrev pub whitespace : List ℕ
whitespace = 32 ∷ 9 ∷ 13 ∷ 10 ∷ 11 ∷ []

-- < | > & ; ( )
abbrev pub symbols : List ℕ
symbols = 60 ∷ 124 ∷ 62 ∷ 38 ∷ 59 ∷ 40 ∷ 41 ∷ []

unfoldable pub skip_space : List ℕ → List ℕ
skip_space [] = []
skip_space (c ∷ s) = let rest = skip_space s in if is_in c whitespace then rest else c ∷ s

abbrev pub is_word_byte : ℕ → Bool
is_word_byte c = not (is_in c whitespace) && not (is_in c symbols)

unfoldable pub word : List ℕ → List ℕ
word [] = []
word (c ∷ s) = let rest = word s in if is_word_byte c then c ∷ rest else []

unfoldable pub past_word : List ℕ → List ℕ
past_word [] = []
past_word (c ∷ s) = let rest = past_word s in if is_word_byte c then rest else c ∷ s

abbrev pub starts_with : List ℕ → List ℕ → Bool
starts_with toks [] = false
starts_with toks (c ∷ s) = is_in c toks

-- The results of gettoken: the end of the text, a symbol, `+` for >>, or a word, 'a'.
pub data Token : Type 0 where
  end : Token
  symbol : ℕ → Token
  double : Token
  name : List ℕ → Token

-- The switch of gettoken on `*s`.
abbrev pub token_at : List ℕ → Token × List ℕ
token_at [] = (end, [])
token_at (c ∷ s) =
    if is_in c symbols
    then (if c == 62 && starts_with (62 ∷ []) s then (double, drop 1 s) else (symbol c, s))
    else (name (word (c ∷ s)), past_word (c ∷ s))

unfoldable pub gettoken : P Token
unfolding skip_space word past_word
gettoken s = parsed (token_at (skip_space s)).0 (skip_space (token_at (skip_space s)).1)

unfoldable pub peek : List ℕ → P Bool
unfolding skip_space
peek toks s = parsed (starts_with toks (skip_space s)) (skip_space s)

abbrev pub Redir : Type 0
Redir = List ℕ × RedirKind

abbrev pub kind_of : Token → RedirKind
kind_of (symbol c) = if c == 60 then input else output
kind_of _ = output

-- `while(peek(ps, es, "&")) …`, with the command that is built.
unfoldable pub backs : ℕ → Cmd → P Cmd
unfolding peek gettoken
backs zero c = refuse out_of_fuel
backs (suc n) c = do
  b ← peek (38 ∷ [])
  elim b [ false ↦ pure c | true ↦ do gettoken; backs n (back c) ]

-- parseredirs, with the redirections that it wraps around its command, the innermost first.
unfoldable pub redirs_loop : ℕ → P (List Redir)
unfolding peek gettoken
redirs_loop zero = refuse out_of_fuel
redirs_loop (suc n) = do
  b ← peek (60 ∷ 62 ∷ [])
  elim b [
    | false ↦ pure []
    | true ↦ do
      tok ← gettoken
      file ← gettoken
      elim file [
        | name w ↦ do rest ← redirs_loop n; pure ((w, kind_of tok) ∷ rest)
        | _ ↦ refuse missing_file
      ]
  ]

unfoldable pub parseredirs : P (List Redir)
unfolding redirs_loop
parseredirs s = redirs_loop (suc (length s)) s

unfoldable pub wrap : List Redir → Cmd → Cmd
wrap [] c = c
wrap ((w, k) ∷ rs) c = wrap rs (redir c w k)

-- The loop of parseexec: the arguments, `argc` of them before, and the redirections among them.
unfoldable pub args_loop : ℕ → ℕ → P (List (List ℕ) × List Redir)
unfolding peek gettoken parseredirs
args_loop zero argc = refuse out_of_fuel
args_loop (suc n) argc = do
  b ← peek (124 ∷ 41 ∷ 38 ∷ 59 ∷ [])
  elim b [
    | true ↦ pure ([], [])
    | false ↦ do
      tok ← gettoken
      elim tok [
        | end ↦ pure ([], [])
        | name w ↦ elim (leb maxargs (argc + 1)) [
          | true ↦ refuse too_many_args
          | false ↦ do
            rs ← parseredirs
            rest ← args_loop n (argc + 1)
            pure (w ∷ rest.0, rs ++ rest.1)
        ]
        | _ ↦ refuse syntax
      ]
  ]

-- The four functions that call one another, on fuel.
unfoldable mutual
  unfolding peek gettoken backs parseredirs wrap args_loop

  pub parseline : ℕ → P Cmd
  parseline zero = refuse out_of_fuel
  parseline (suc n) = do
    c ← parsepipe n
    d ← (λ s. backs (suc (length s)) c s)
    b ← peek (59 ∷ [])
    elim b [ false ↦ pure d | true ↦ do gettoken; e ← parseline n; pure (list d e) ]

  pub parsepipe : ℕ → P Cmd
  parsepipe zero = refuse out_of_fuel
  parsepipe (suc n) = do
    c ← parseexec n
    b ← peek (124 ∷ [])
    elim b [ false ↦ pure c | true ↦ do gettoken; d ← parsepipe n; pure (pipe c d) ]

  pub parseblock : ℕ → P Cmd
  parseblock zero = refuse out_of_fuel
  parseblock (suc n) = do
    b ← peek (40 ∷ [])
    elim b [
      | false ↦ refuse parseblock_panic
      | true ↦ do
        gettoken
        c ← parseline n
        e ← peek (41 ∷ [])
        elim e [
          | false ↦ refuse missing_paren
          | true ↦ do gettoken; rs ← parseredirs; pure (wrap rs c)
        ]
    ]

  pub parseexec : ℕ → P Cmd
  parseexec zero = refuse out_of_fuel
  parseexec (suc n) = do
    b ← peek (40 ∷ [])
    elim b [
      | true ↦ parseblock n
      | false ↦ do
        rs ← parseredirs
        a ← (λ s. args_loop (suc (length s)) 0 s)
        pure (wrap (rs ++ a.1) (exec a.0))
    ]

unfoldable pub parsecmd : List ℕ → Parsed Cmd
unfolding parseline peek
parsecmd s =
    (do
      c ← parseline (4 * length s + 4)
      peek []
      (λ t. elim t [ [] ↦ parsed c [] | _ ∷ _ ↦ refused leftovers ]))
      s
