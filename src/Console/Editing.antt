-- ===== src/Console/Editing.antt =====
-- console.c: consoleintr as an editor of one line.
use os192_ass2_multi_thread.Console.Erasing.{
  without_last, handed, edited, All-snoc, erase_lem, empty_line, kill_line_lem,
}
use mathlib.Core.Path.{ap₂}
use os192_ass2_multi_thread.Console.Ring.{
  Input, IsValid, ready_size, line_size, view, window, window-append, window-stored, length-window,
}
use os192_ass2_multi_thread.Console.{
  intr_char, Console, newline, ctrl_d, input_buf, stored, as_newline, committed, consoleintr,
}
use os192_ass2_multi_thread.Base.{
  ℕ, List, ◌∷◌, All, ◌++◌, [], ◌==◌, ◌≢◌, ◌≡◌, ◌≤◌, ◌+◌, ap, ◌||◌, arith, refl, ◌<◌, not, subst,
  ◌&&◌, ◌%◌, length, ltb, sym, ◌∙◌, Bool-cases, ◌^◌, inl, inr, length-append, ◌-◌,
}

stored_ready :
    (s : Console) (c : ℕ)
    → IsValid s
    → ready_size s + line_size s < input_buf
    → (view (stored c s)).ready ≡ (view s).ready
stored_ready s c v h =
    window-stored s.buf c s.r (ready_size s) s.e (ready_size s + line_size s) v.r_fits (omega arith)
      h (omega (arith, v.w_fits, v.e_fits))

stored_line :
    (s : Console) (c : ℕ)
    → IsValid s
    → ready_size s + line_size s < input_buf
    → (view (stored c s)).line ≡ (view s).line ++ (c ∷ [])
stored_line s c v h =
    window-append (stored c s).buf s.w (line_size (stored c s)) (line_size s) 1 s.e
      (omega (arith, v.w_fits, v.e_fits)) v.w_fits (omega (arith, v.w_fits, v.e_fits))
    ∙ ap₂ (λ a b. a ++ (b ∷ []))
        (window-stored s.buf c s.w (line_size s) s.e (line_size s) v.w_fits (omega arith)
          (omega arith) (omega (arith, v.w_fits, v.e_fits)))
        (ground arith)

-- The test at the end of a line, on the counters and on the lists.
full_line :
    (s : Console) (d : ℕ)
    → IsValid s
    → ready_size s + line_size s < input_buf
    → ((stored d s).e == (s.r + input_buf) % 2 ^ 32)
      ≡ (length (view s).ready + length ((view s).line ++ (d ∷ [])) == input_buf)
full_line s d v h = ground (
  arith,
  length-window s.buf s.r (ready_size s),
  length-window s.buf s.w (line_size s),
  length-append (view s).line (d ∷ []),
  v.r_fits,
  v.w_fits,
  v.e_fits,
)

-- The line is handed over.
over : Console → Console
over t = record t { w = t.e; wakeups = t.wakeups + 1 }

view-over :
    (t : Console)
    → t.r < 2 ^ 32
    → t.w < 2 ^ 32
    → t.e < 2 ^ 32
    → ready_size t + line_size t ≤ input_buf
    → view (over t) ≡ record { ready = (view t).ready ++ (view t).line; line = [] }
unfolding over
view-over t r w e h = λ i. record {
  ready =
      window-append t.buf t.r (ready_size (over t)) (ready_size t) (line_size t) t.w (omega arith) r
        (omega arith) i;
  line = ap (window t.buf t.e) nothing i;
}
  where
    nothing : line_size (over t) ≡ 0
    nothing = omega arith

committed_lem :
    (s : Console) (d : ℕ)
    → IsValid s
    → ready_size s + line_size s < input_buf
    → IsValid (committed d (stored d s))
      × (view (committed d (stored d s))
          ≡ handed d (record (view s) { line = (view s).line ++ (d ∷ []) }))
unfolding over
committed_lem s d v h =
    elim (Bool-cases (
      d == newline
      || d == ctrl_d
      || (length (view s).ready + length ((view s).line ++ (d ∷ [])) == input_buf))) [
        | inl y ↦
            rw (full_line s d v h, y)
              (
                record {
                  r_fits = v.r_fits;
                  w_fits = omega arith;
                  e_fits = omega arith;
                  room = omega (arith, v.room, v.r_fits, v.w_fits, v.e_fits);
                  one_line =
                      subst (All (λ c. c ≢ newline)) (sym (ap (λ (q : Input). q.line) shown)) tt;
                },
                shown ∙ (λ i. record {
                  ready = stored_ready s d v h i ++ stored_line s d v h i;
                  line = [];
                }),
              )
        | inr n ↦
            rw (full_line s d v h, n)
              (
                record {
                  r_fits = v.r_fits;
                  w_fits = v.w_fits;
                  e_fits = omega arith;
                  room = omega (arith, v.room, v.r_fits, v.w_fits, v.e_fits);
                  one_line =
                      subst (All (λ c. c ≢ newline)) (sym (stored_line s d v h))
                        (All-snoc (λ c. c ≢ newline) _ d v.one_line (ground arith));
                },
                λ i. record { ready = stored_ready s d v h i; line = stored_line s d v h i },
              )
      ]
  where
    shown :
        view (over (stored d s))
        ≡ record { ready = (view (stored d s)).ready ++ (view (stored d s)).line; line = [] }
    shown =
        view-over (stored d s) v.r_fits v.w_fits (omega arith)
          (omega (arith, v.room, v.r_fits, v.w_fits, v.e_fits))

has_room :
    (s : Console)
    → IsValid s
    → ltb ((s.e + 2 ^ 32 - s.r) % 2 ^ 32) input_buf
      ≡ ltb (length (view s).ready + length (view s).line) input_buf
has_room s v = ground (
  arith,
  length-window s.buf s.r (ready_size s),
  length-window s.buf s.w (line_size s),
  v.r_fits,
  v.w_fits,
  v.e_fits,
  v.room,
)

no_line :
    (s : Console)
    → view s ≡ record (view s) { line = [] }
    → view s ≡ record (view s) { line = without_last (view s).line }
no_line s e = e ∙ sym (λ i. record (view s) { line = without_last (e i).line })

intr_char_lem :
    (s : Console) (c : ℕ)
    → IsValid s
    → IsValid (intr_char c s) × (view (intr_char c s) ≡ edited c (view s))
unfolding intr_char
intr_char_lem s c v = elim (Bool-cases (c == 16)) [
  | inl y ↦ rw (y, intr_char) (v, refl)
  | inr k ↦ elim (Bool-cases (c == 21)) [
    | inl y ↦ rw (k, y, intr_char) (kill_line_lem input_buf s v (omega (arith, v.room)))
    | inr l ↦ elim (Bool-cases (c == 8 || c == 127)) [
      | inl y ↦ elim (Bool-cases (s.e == s.w)) [
        | inl z ↦ rw (k, l, y, z, intr_char) (v, no_line s (empty_line s (ground arith) v))
        | inr z ↦ rw (k, l, y, z, intr_char) (erase_lem s v (ground arith))
      ]
      | inr m ↦
          elim (Bool-cases
            (not (c == 0) && ltb (length (view s).ready + length (view s).line) input_buf)) [
              | inl y ↦
                  rw (k, l, m, has_room s v, y, intr_char)
                    (committed_lem s (as_newline c) v (
                      ground (
                        arith,
                        length-window s.buf s.r (ready_size s),
                        length-window s.buf s.w (line_size s),
                      )))
              | inr n ↦ rw (k, l, m, has_room s v, n, intr_char) (v, refl)
            ]
    ]
  ]
]

abbrev pub typed : List ℕ → Input → Input
typed [] q = q
typed (c ∷ cs) q = typed cs (edited c q)

-- consoleintr edits the line as `edited` says, character by character, on any ring whose counters are right, and
-- leaves them right: what can be read and the line together never have more than 128 characters.
pub consoleintr_lem :
    (cs : List ℕ) (s : Console)
    → IsValid s
    → IsValid (consoleintr cs s).0 × (view (consoleintr cs s).0 ≡ typed cs (view s))
unfolding consoleintr
consoleintr_lem [] s v = (v, refl)
consoleintr_lem (c ∷ cs) s v =
    let (w, e) = intr_char_lem s c v in
    let (u, f) = consoleintr_lem cs (intr_char c s) w in (u, f ∙ ap (typed cs) e)
