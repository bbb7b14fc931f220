-- ===== src/Pipe/Ring.antt =====
-- pipe.c: the ring as a queue of bytes, also where its counters wrap.
use native.Mathlib.Numerals.{add-one}
use mathlib.Core.Path.{ap₂}
use os192_ass2_multi_thread.Base.{
  ℕ, ◌≡◌, ◌<◌, ◌+◌, List, false, ◌^◌, [], suc, ◌%◌, ◌≤◌, ◌++◌, ◌-◌, arith, ◌∷◌, if◌then◌else◌, zero,
  ◌==◌, ◌∙◌, true, ap,
}
use os192_ass2_multi_thread.Pipe.{Pipe, put, take_byte, is_full, is_drained, add32, pipesize}

-- The bytes in the pipe, and the room that the counters leave.
abbrev pub used : Pipe → ℕ
used p = (p.nwrite + 2 ^ 32 - p.nread) % 2 ^ 32

pub record IsValid (p : Pipe) : Type 0 where
  pub read_fits : p.nread < 2 ^ 32
  pub write_fits : p.nwrite < 2 ^ 32
  pub room : used p ≤ pipesize

abbrev pub window : (ℕ → ℕ) → ℕ → ℕ → List ℕ
window bytes r zero = []
window bytes r (suc n) = bytes (r % pipesize) ∷ window bytes (add32 r 1) n

-- The queue of the bytes that are in the pipe, the oldest first.
abbrev pub contents : Pipe → List ℕ
contents p = window p.bytes p.nread (used p)

-- A byte written behind a window of fewer than 512 bytes extends it.
window-put :
    (bytes : ℕ → ℕ) (b r w n : ℕ)
    → r < 2 ^ 32
    → n < pipesize
    → w ≡ (r + n) % 2 ^ 32
    → window (λ i. if i == w % pipesize then b else bytes i) r (suc n)
      ≡ window bytes r n ++ (b ∷ [])
window-put bytes b r w zero hr hn e = ground arith
window-put bytes b r w (suc n) hr hn e =
    ap₂ ◌∷◌ (ground arith)
      (window-put bytes b (add32 r 1) w n (omega arith) (omega arith) (omega arith))

pub put-IsValid :
    (p : Pipe) (b : ℕ)
    → IsValid p
    → is_full p ≡ false
    → IsValid (put p b) × (used (put p b) ≡ used p + 1)
unfolding put
put-IsValid p b v h = (
  record { read_fits = v.read_fits; write_fits = omega arith; room = ground arith },
  ground arith,
)

-- A write into a pipe that is not full puts the byte at the end of the queue.
pub contents-put :
    (p : Pipe) (b : ℕ) → IsValid p → is_full p ≡ false → contents (put p b) ≡ contents p ++ (b ∷ [])
unfolding put
contents-put p b v h = rw (put-IsValid p b v h).1 (
    rw add-one
      (window-put p.bytes b p.nread p.nwrite (used p) v.read_fits (ground arith) (omega arith)))

window-suc :
    (bytes : ℕ → ℕ) (r n : ℕ)
    → 0 < n
    → window bytes r n ≡ bytes (r % pipesize) ∷ window bytes (add32 r 1) (n - 1)
window-suc bytes r zero h = absurd (omega arith)
window-suc bytes r (suc n) h =
    ap (λ k. bytes (r % pipesize) ∷ window bytes (add32 r 1) k) (omega arith)

-- A read from a pipe that is not empty takes the byte at the head of the queue.
pub take_byte_lem :
    (p : Pipe)
    → IsValid p
    → is_drained p ≡ false
    → IsValid (take_byte p).1
      × (used p ≡ used (take_byte p).1 + 1)
      × (contents p ≡ (take_byte p).0 ∷ contents (take_byte p).1)
unfolding take_byte
take_byte_lem p v h = (
  record { read_fits = omega arith; write_fits = v.write_fits; room = ground arith },
  ground arith,
  (window-suc p.bytes p.nread (used p) (ground arith)
      ∙ ap (λ k. p.bytes (p.nread % pipesize) ∷ window p.bytes (add32 p.nread 1) k) (ground arith)),
)

pub used-drained : (p : Pipe) → IsValid p → is_drained p ≡ true → used p ≡ 0
used-drained p v h = ground arith

pub used-full : (p : Pipe) → IsValid p → is_full p ≡ true → used p ≡ pipesize
used-full p v h = ground arith
