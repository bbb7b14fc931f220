-- ===== src/Pipe/Ends.antt =====
-- pipe.c: pipewrite and piperead against a queue of at most 512 bytes.
use Prim.Native.Nat.{min}
use mathlib.Core.List.{append-nil, append_assoc, ◌∷◌, []}
use os192_ass2_multi_thread.Base.{
  ℕ, ◌≡◌, Bool, ◌++◌, List, Bool-cases, sym, length, ◌<◌, arith, false, ◌∷◌, ◌&&◌, inl, suc, ◌⊎◌,
  ◌∙◌, true, inr, ap, zero, refl, not, ◌||◌,
}
use os192_ass2_multi_thread.Pipe.{
  Pipe, pipewrite, piperead, read_loop, wrote, failed, blocked, got, refused, waits, Read, Written,
  is_drained, pipesize, is_full, put, take_byte,
}
use os192_ass2_multi_thread.Pipe.Ring.{
  contents, IsValid, used, used-drained, used-full, take_byte_lem, contents-put, put-IsValid,
}

-- Some bytes were written and `rest` was not: the pipe is full.
pub record Partial (killed : Bool) (p q : Pipe) (bs rest : List ℕ) : Type 0 where
  pub sent : List ℕ
  pub split : bs ≡ sent ++ rest
  pub queued : contents q ≡ contents p ++ sent
  pub full : used q ≡ pipesize
  pub valid : IsValid q

-- What pipewrite has done when it returns `n`, returns -1 or goes to sleep.
abbrev pub Writes : Bool → Pipe → List ℕ → Written → Type 0
Writes killed p bs (wrote q) = IsValid q × (contents q ≡ contents p ++ bs)
Writes killed p bs (failed q) =
    ((rest : List ℕ) × Partial killed p q bs rest) × ((q.readopen ≡ false) ⊎ (killed ≡ true))
Writes killed p bs (blocked q rest) =
    Partial killed p q bs rest × (q.readopen ≡ true) × (killed ≡ false)

Writes-cons :
    (killed : Bool) (p q : Pipe) (b : ℕ) (bs : List ℕ) (w : Written)
    → contents q ≡ contents p ++ (b ∷ [])
    → Writes killed q bs w
    → Writes killed p (b ∷ bs) w
Writes-cons killed p q b bs (wrote r) e (v, h) =
    (v, h ∙ (rw e (append_assoc (contents p) (b ∷ []) bs)))
Writes-cons killed p q b bs (failed r) e ((rest, h), f) = ((rest, longer h), f)
  where
    longer : Partial killed q r bs rest → Partial killed p r (b ∷ bs) rest
    longer h = record {
      sent = b ∷ h.sent;
      split = ap (λ l. b ∷ l) h.split;
      queued = h.queued ∙ rw e (append_assoc (contents p) (b ∷ []) h.sent);
      full = h.full;
      valid = h.valid;
    }
Writes-cons killed p q b bs (blocked r rest) e (h, f, g) = (
  record {
    sent = b ∷ h.sent;
    split = ap (λ l. b ∷ l) h.split;
    queued = h.queued ∙ rw e (append_assoc (contents p) (b ∷ []) h.sent);
    full = h.full;
    valid = h.valid;
  },
  f,
  g,
)

-- pipewrite puts its bytes at the end of the queue, in order and each once. It returns `n` when all
-- are in; it returns -1 only when the pipe is full, and its read end is closed or the process killed; else it
-- goes to sleep with the pipe full, and the bytes left are those not yet in the queue.
pub pipewrite_lem :
    (killed : Bool) (p : Pipe) (bs : List ℕ)
    → IsValid p
    → Writes killed p bs (pipewrite killed p bs)
unfolding pipewrite
pipewrite_lem killed p [] v = (v, sym (append-nil (contents p)))
pipewrite_lem killed p (b ∷ bs) v = elim (Bool-cases (is_full p)) [
  | inr n ↦
      rw (n, pipewrite)
        (Writes-cons killed p (put p b) b bs (pipewrite killed (put p b) bs) (contents-put p b v n)
          (pipewrite_lem killed (put p b) bs (put-IsValid p b v n).0))
  | inl y ↦
      rw (y, pipewrite)
        (elim (Bool-cases (not p.readopen || killed)) [
          | inl s ↦ rw s (((b ∷ bs), stuck y), ground arith)
          | inr s ↦ rw s (stuck y, ground arith, ground arith)
        ])
]
  where
    stuck : is_full p ≡ true → Partial killed p p (b ∷ bs) (b ∷ bs)
    stuck y = record {
      sent = [];
      split = refl;
      queued = sym (append-nil (contents p));
      full = used-full p v y;
      valid = v;
    }

read_loop_lem :
    (n : ℕ) (p : Pipe)
    → IsValid p
    → IsValid (read_loop n p).1
      × (contents p ≡ (read_loop n p).0 ++ contents (read_loop n p).1)
      × (length (read_loop n p).0 ≡ min n (used p))
unfolding read_loop
read_loop_lem zero p v = (v, refl, omega arith)
read_loop_lem (suc n) p v = elim (Bool-cases (is_drained p)) [
  | inl y ↦ rw (y, read_loop) (v, refl, omega (arith, used-drained p v y))
  | inr y ↦
      let (w, u, c) = take_byte_lem p v y in
      let (x, d, l) = read_loop_lem n (take_byte p).1 w in
      rw (y, read_loop) (x, c ∙ ap (λ l. (take_byte p).0 ∷ l) d, omega (arith, u, l))
]

abbrev pub Reads : Bool → Pipe → ℕ → Read → Type 0
Reads killed p n (got bs q) =
    IsValid q
    × (contents p ≡ bs ++ contents q)
    × (length bs ≡ min n (used p))
    × ((0 < used p) ⊎ (p.writeopen ≡ false))
Reads killed p n (refused q) = (q ≡ p) × (killed ≡ true) × (used p ≡ 0) × (p.writeopen ≡ true)
Reads killed p n (waits q) = (q ≡ p) × (killed ≡ false) × (used p ≡ 0) × (p.writeopen ≡ true)

-- piperead takes the bytes at the head of the queue, in order: as many as are there, and at most `n`. With
-- an empty pipe it returns 0 if the write end is closed, else -1 if the process is killed, else it goes to sleep.
pub piperead_lem :
    (killed : Bool) (p : Pipe) (n : ℕ) → IsValid p → Reads killed p n (piperead killed p n)
unfolding piperead
piperead_lem killed p n v = elim (Bool-cases (is_drained p && p.writeopen)) [
  | inl y ↦ rw y (elim (Bool-cases killed) [
    | inl s ↦ rw s (refl, ground arith, used-drained p v (ground arith), ground arith)
    | inr s ↦ rw s (refl, ground arith, used-drained p v (ground arith), ground arith)
  ])
  | inr y ↦ rw y (
      let (w, c, l) = read_loop_lem n p v in
      (
        w,
        c,
        l,
        elim (Bool-cases (is_drained p)) [
          | inl d ↦ inr (ground arith)
          | inr d ↦ inl (ground arith)
        ],
      ))
]
