-- ===== src/Pipe.antt =====
-- pipe.c: a pipe's ring of bytes, its two ends, and the loops of pipewrite and piperead.
pub mod Ring
pub mod Ends
use os192_ass2_multi_thread.Base.{
  ℕ, ◌%◌, true, Bool, ◌+◌, if◌then◌else◌, List, ◌^◌, false, ◌==◌, ◌∷◌, [], ◌&&◌, suc, not, zero,
  ◌||◌,
}

abbrev pub pipesize : ℕ
pipesize = 512

-- `uint` addition.
abbrev pub add32 : ℕ → ℕ → ℕ
add32 a b = (a + b) % 2 ^ 32

-- `struct pipe`; the array is a function of the index.
pub record Pipe : Type 0 where
  pub bytes : ℕ → ℕ
  pub nread : ℕ
  pub nwrite : ℕ
  pub readopen : Bool
  pub writeopen : Bool

-- pipealloc, once it has its files and its page.
abbrev pub pipe_init : (ℕ → ℕ) → Pipe
pipe_init bytes = record { bytes = bytes; nread = 0; nwrite = 0; readopen = true; writeopen = true }

-- `p->data[p->nwrite++ % PIPESIZE] = b`
unfoldable pub put : Pipe → ℕ → Pipe
put p b = record p {
  bytes = λ i. if i == p.nwrite % pipesize then b else p.bytes i;
  nwrite = add32 p.nwrite 1;
}

-- `p->data[p->nread++ % PIPESIZE]`
unfoldable pub take_byte : Pipe → ℕ × Pipe
take_byte p = (p.bytes (p.nread % pipesize), record p { nread = add32 p.nread 1 })

abbrev pub is_full : Pipe → Bool
is_full p = p.nwrite == add32 p.nread pipesize

abbrev pub is_drained : Pipe → Bool
is_drained p = p.nread == p.nwrite

-- How a call stands: it has returned, or it sleeps, with the bytes that are left to write.
pub data Written : Type 0 where
  wrote : Pipe → Written
  failed : Pipe → Written
  blocked : Pipe → List ℕ → Written

-- The loop of pipewrite on the bytes left. `killed` is what the loop sees of the process.
unfoldable pub pipewrite : Bool → Pipe → List ℕ → Written
unfolding put
pipewrite killed p [] = wrote p
pipewrite killed p (b ∷ bs) = elim (is_full p) [
  | true ↦ if not p.readopen || killed then failed p else blocked p (b ∷ bs)
  | false ↦ pipewrite killed (put p b) bs
]

-- The second loop of piperead, for at most `n` bytes.
unfoldable pub read_loop : ℕ → Pipe → List ℕ × Pipe
unfolding take_byte
read_loop zero p = ([], p)
read_loop (suc n) p = elim (is_drained p) [
  | true ↦ ([], p)
  | false ↦ let (b, q) = take_byte p in let (bs, r) = read_loop n q in (b ∷ bs, r)
]

pub data Read : Type 0 where
  got : List ℕ → Pipe → Read
  refused : Pipe → Read
  waits : Pipe → Read

unfoldable pub piperead : Bool → Pipe → ℕ → Read
unfolding read_loop
piperead killed p n =
    if is_drained p && p.writeopen
    then (if killed then refused p else waits p)
    else (let (bs, q) = read_loop n p in got bs q)

-- pipeclose: the pipe, and whether its page is freed.
unfoldable pub pipeclose : Pipe → Bool → Pipe × Bool
pipeclose p writable =
    let q = (if writable then record p { writeopen = false } else record p { readopen = false }) in
    (q, not q.readopen && not q.writeopen)
