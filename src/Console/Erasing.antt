-- ===== src/Console/Erasing.antt =====
-- console.c: the line as a list, and how characters are taken off its end.
use os192_ass2_multi_thread.Console.Ring.{Input, IsValid, line_size, view, window, window-append}
use os192_ass2_multi_thread.Console.{
  Console, kill_line, erase, newline, ctrl_d, before, input_buf, as_newline,
}
use os192_ass2_multi_thread.Base.{
  ℕ, List, ◌∷◌, All, ◌++◌, [], if◌then◌else◌, ◌==◌, ◌≢◌, ◌≡◌, ◌≤◌, ◌+◌, ap, ◌||◌, suc, arith, refl,
  not, subst, zero, ◌&&◌, ◌%◌, length, ltb, sym, ◌∙◌, Bool-cases, false, inl, inr,
}

abbrev pub without_last : List ℕ → List ℕ
without_last [] = []
without_last (c ∷ []) = []
without_last (c ∷ d ∷ cs) = c ∷ without_last (d ∷ cs)

-- A line with `c` at its end: a newline, a ^D or the 128th character hands it over.
abbrev pub handed : ℕ → Input → Input
handed c q =
    if c == newline || c == ctrl_d || length q.ready + length q.line == input_buf
    then record { ready = q.ready ++ q.line; line = [] }
    else q

-- What a character does to the line: ^P nothing, ^U takes the line away, backspace and delete its last character;
-- any other but NUL is put behind it, if there is room.
abbrev pub edited : ℕ → Input → Input
edited c q =
    if c == 16
    then q
    else if c == 21
    then record q { line = [] }
    else if c == 8 || c == 127
    then record q { line = without_last q.line }
    else if not (c == 0) && ltb (length q.ready + length q.line) input_buf
    then handed (as_newline c) (record q { line = q.line ++ (as_newline c ∷ []) })
    else q

without_last-append : (xs : List ℕ) (c : ℕ) → without_last (xs ++ (c ∷ [])) ≡ xs
without_last-append [] c = refl
without_last-append (x ∷ []) c = refl
without_last-append (x ∷ y ∷ xs) c = ap (λ l. x ∷ l) (without_last-append (y ∷ xs) c)

All-append_left : (P : ℕ → Type 0) (xs ys : List ℕ) → All P (xs ++ ys) → All P xs × All P ys
All-append_left P [] ys h = (tt, h)
All-append_left P (x ∷ xs) ys (h, hs) = let (a, b) = All-append_left P xs ys hs in ((h, a), b)

pub All-snoc : (P : ℕ → Type 0) (xs : List ℕ) (c : ℕ) → All P xs → P c → All P (xs ++ (c ∷ []))
All-snoc P [] c h p = (p, tt)
All-snoc P (x ∷ xs) c (h, hs) p = (h, All-snoc P xs c hs p)

-- The line with its last character apart.
line_split :
    (s : Console)
    → IsValid s
    → s.e ≢ s.w
    → window s.buf s.w (line_size s)
      ≡ window s.buf s.w (line_size (erase s)) ++ (s.buf (before s.e % input_buf) ∷ [])
line_split s v ne =
    window-append s.buf s.w (line_size s) (line_size (erase s)) 1 (before s.e) (omega arith)
      v.w_fits (omega arith)

pub erase_lem :
    (s : Console)
    → IsValid s
    → s.e ≢ s.w
    → IsValid (erase s) × (view (erase s) ≡ record (view s) { line = without_last (view s).line })
erase_lem s v ne =
    let e = line_split s v ne in
    (
      record {
        r_fits = v.r_fits;
        w_fits = v.w_fits;
        e_fits = omega arith;
        room = omega (arith, v.room);
        one_line =
            (All-append_left (λ c. c ≢ newline) _ _
              (subst (All (λ c. c ≢ newline)) e v.one_line)).0;
      },
      λ i. record (view s) { line = (sym (without_last-append _ _) ∙ ap without_last (sym e)) i },
    )

last_plain :
    (s : Console) → IsValid s → s.e ≢ s.w → s.buf (before s.e % input_buf) == newline ≡ false
last_plain s v ne =
    let h =
      All-append_left (λ c. c ≢ newline) (window s.buf s.w (line_size (erase s))) _
        (subst (All (λ c. c ≢ newline)) (line_split s v ne) v.one_line) in
    ground (arith, h.1.0)

pub empty_line : (s : Console) → s.e ≡ s.w → IsValid s → view s ≡ record (view s) { line = [] }
empty_line s e v = λ i. record (view s) { line = ap (window s.buf s.w) zero_size i }
  where
    zero_size : line_size s ≡ 0
    zero_size = omega (arith, v.w_fits)

pub kill_line_lem :
    (n : ℕ) (s : Console)
    → IsValid s
    → line_size s ≤ n
    → IsValid (kill_line n s) × (view (kill_line n s) ≡ record (view s) { line = [] })
unfolding kill_line
kill_line_lem zero s v h = (v, empty_line s (omega (arith, v.w_fits, v.e_fits)) v)
kill_line_lem (suc n) s v h = elim (Bool-cases (s.e == s.w)) [
  | inl y ↦ rw (y, kill_line) (v, empty_line s (ground arith) v)
  | inr k ↦
      let ne : s.e ≢ s.w = ground arith in
      let (w, e) = erase_lem s v ne in
      let (u, f) = kill_line_lem n (erase s) w (omega (arith, v.w_fits, v.e_fits)) in
      rw (k, last_plain s v ne, kill_line) (u, f ∙ ap (λ (q : Input). record q { line = [] }) e)
]
