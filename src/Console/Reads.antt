-- ===== src/Console/Reads.antt =====
-- console.c: consoleread takes lines from what can be read.
use os192_ass2_multi_thread.Console.Ring.{IsValid, view, window-append, ready_size, window}
use os192_ass2_multi_thread.Console.{
  read_loop, consoleread, Console, Read, behind, prefixed, finished, before, interrupted, sleeps,
  input_buf, ctrl_d, newline,
}
use os192_ass2_multi_thread.Base.{
  ℕ, List, Bool, ◌≢◌, ◌≡◌, [], suc, arith, ◌%◌, refl, if◌then◌else◌, Bool-cases, ◌∷◌, ◌==◌, inl,
  ltb, inr, zero, ap, subst, true, false, sym, ◌∙◌,
}

-- A read of `n` more characters from a list: up to a newline, which is read; up to a ^D, which is
-- read only by a read that got nothing else; or to the end of the list, where it has to wait.
abbrev pub take_line : Bool → ℕ → ℕ → List ℕ → Read (List ℕ)
take_line killed target zero q = finished [] q
take_line killed target (suc n) [] = if killed then interrupted [] else sleeps [] (suc n) []
take_line killed target (suc n) (c ∷ q) =
    if c == ctrl_d
    then finished [] (if ltb (suc n) target then c ∷ q else q)
    else if c == newline
    then finished (c ∷ []) q
    else prefixed c (take_line killed target n q)

abbrev pub shown : Read Console → Read (List ℕ)
shown (finished cs s) = finished cs (view s).ready
shown (interrupted s) = interrupted (view s).ready
shown (sleeps cs n s) = sleeps cs n (view s).ready

abbrev pub left : Read Console → Console
left (finished cs s) = s
left (interrupted s) = s
left (sleeps cs n s) = s

-- The counters are right, and the line is as it was.
abbrev pub KeepsLine : Console → Console → Type 0
KeepsLine s t = IsValid t × ((view t).line ≡ (view s).line)

shown-prefixed : (c : ℕ) (x : Read Console) → shown (prefixed c x) ≡ prefixed c (shown x)
shown-prefixed c (finished cs s) = refl
shown-prefixed c (interrupted s) = refl
shown-prefixed c (sleeps cs n s) = refl

left-prefixed : (c : ℕ) (x : Read Console) → left (prefixed c x) ≡ left x
left-prefixed c (finished cs s) = refl
left-prefixed c (interrupted s) = refl
left-prefixed c (sleeps cs n s) = refl

-- `input.r++`
advanced : Console → Console
advanced s = record s { r = behind s.r }

ready-advanced :
    (s : Console)
    → IsValid s
    → s.r ≢ s.w
    → (view s).ready ≡ s.buf (s.r % input_buf) ∷ (view (advanced s)).ready
unfolding advanced
ready-advanced s v ne =
    window-append s.buf s.r (ready_size s) 1 (ready_size (advanced s)) (behind s.r) (omega arith)
      v.r_fits refl

advanced-IsValid : (s : Console) → IsValid s → s.r ≢ s.w → IsValid (advanced s)
unfolding advanced
advanced-IsValid s v ne = record {
  r_fits = omega arith;
  w_fits = v.w_fits;
  e_fits = v.e_fits;
  room = omega (arith, v.room, v.r_fits, v.w_fits);
  one_line = v.one_line;
}

back : (s : Console) → IsValid s → record s { r = before (behind s.r) } ≡ s
back s v = λ i. record s { r = same i }
  where
    same : before (behind s.r) ≡ s.r
    same = omega (arith, v.r_fits)

take_eof :
    (killed : Bool) (target n c : ℕ) (q : List ℕ)
    → c == ctrl_d ≡ true
    → take_line killed target (suc n) (c ∷ q)
      ≡ finished [] (if ltb (suc n) target then c ∷ q else q)
take_eof killed target n c q y = rw y refl

take_newline :
    (killed : Bool) (target n c : ℕ) (q : List ℕ)
    → c == ctrl_d ≡ false
    → c == newline ≡ true
    → take_line killed target (suc n) (c ∷ q) ≡ finished (c ∷ []) q
take_newline killed target n c q m y = rw (m, y) refl

take_other :
    (killed : Bool) (target n c : ℕ) (q : List ℕ)
    → c == ctrl_d ≡ false
    → c == newline ≡ false
    → take_line killed target (suc n) (c ∷ q) ≡ prefixed c (take_line killed target n q)
take_other killed target n c q m z = rw (m, z) refl

waiting :
    (killed : Bool) (target n : ℕ) (s : Console)
    → (view s).ready ≡ []
    → shown (if killed then interrupted s else sleeps [] (suc n) s)
      ≡ take_line killed target (suc n) (view s).ready
waiting true target n s e =
    subst (λ q. interrupted q ≡ take_line true target (suc n) q) (sym e) refl
waiting false target n s e =
    subst (λ q. sleeps [] (suc n) q ≡ take_line false target (suc n) q) (sym e) refl

waits_here :
    (killed : Bool) (n : ℕ) (s : Console)
    → left (if killed then interrupted s else sleeps [] (suc n) s) ≡ s
waits_here true n s = refl
waits_here false n s = refl

nothing_ready : (s : Console) → IsValid s → s.r ≡ s.w → (view s).ready ≡ []
nothing_ready s v e = ap (window s.buf s.r) zero_size
  where
    zero_size : ready_size s ≡ 0
    zero_size = omega (arith, v.r_fits)

read_loop_lem :
    (killed : Bool) (target n : ℕ) (s : Console)
    → IsValid s
    → (shown (read_loop killed target n s) ≡ take_line killed target n (view s).ready)
      × KeepsLine s (left (read_loop killed target n s))
unfolding read_loop advanced
read_loop_lem killed target zero s v = (refl, (v, refl))
read_loop_lem killed target (suc n) s v = elim (Bool-cases (s.r == s.w)) [
  | inl y ↦
      rw (y, read_loop)
        (
          waiting killed target n s (nothing_ready s v (ground arith)),
          subst (KeepsLine s) (sym (waits_here killed n s)) (v, refl),
        )
  | inr k ↦
      let ne : s.r ≢ s.w = ground arith in
      let e = ready-advanced s v ne in
      let w = advanced-IsValid s v ne in
      let c = s.buf (s.r % input_buf) in
      let q = (view (advanced s)).ready in
      let first = ap (take_line killed target (suc n)) e in
      elim (Bool-cases (s.buf (s.r % input_buf) == ctrl_d)) [
        | inl y ↦ elim (Bool-cases (ltb (suc n) target)) [
          | inl z ↦
              rw (k, y, z, read_loop)
                (subst
                  (λ t.
                    (finished [] (view t).ready ≡ take_line killed target (suc n) (view s).ready)
                    × KeepsLine s t)
                  (sym (back s v))
                  (
                    sym (
                        first
                        ∙ (take_eof killed target n c q y ∙ (rw z (ap (finished []) (sym e))))),
                    (v, refl),
                  ))
          | inr z ↦
              rw (k, y, z, read_loop)
                (sym (first ∙ (take_eof killed target n c q y ∙ rw z refl)), (w, refl))
        ]
        | inr m ↦ elim (Bool-cases (s.buf (s.r % input_buf) == newline)) [
          | inl y ↦
              rw (k, m, y, read_loop)
                (sym (first ∙ take_newline killed target n c q m y), (w, refl))
          | inr z ↦
              let ih = read_loop_lem killed target n (advanced s) w in
              let x = read_loop killed target n (advanced s) in
              rw (k, m, z, read_loop)
                (
                  shown-prefixed c x
                      ∙ (ap (prefixed c) ih.0 ∙ sym (first ∙ take_other killed target n c q m z)),
                  subst (KeepsLine s) (sym (left-prefixed c x)) ih.1,
                )
        ]
      ]
]

-- consoleread on a ring whose counters are right is a read from the list of what can be read; it leaves the
-- line that is being edited as it is.
pub consoleread_lem :
    (killed : Bool) (n : ℕ) (s : Console)
    → IsValid s
    → (shown (consoleread killed n s) ≡ take_line killed n n (view s).ready)
      × KeepsLine s (left (consoleread killed n s))
unfolding consoleread
consoleread_lem killed n s v = read_loop_lem killed n n s v
