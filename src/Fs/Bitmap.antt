-- ===== src/Fs/Bitmap.antt =====
-- fs.c: balloc and bfree, on the map of the blocks in use.
pub mod Bits
pub mod Marks
pub mod Allocation
-- `BPB`
use Prim.Native.Nat.{min}
use os192_ass2_multi_thread.Fs.{
  F, stop, update_block, put_byte, out_of_blocks, bsize, ◌>>◌, ◌>>=◌, get, freeing_free_block, pure,
  stopped,
}
use os192_ass2_multi_thread.Base.{
  ℕ, Option, Bool, if◌then◌else◌, ◌/◌, ◌%◌, ◌-◌, none, ◌+◌, ◌^◌, ltb, ◌==◌, suc, some, zero, false,
  true,
}

abbrev pub bpb : ℕ
bpb = 4096

-- `byte & m`, `byte | m` and `byte & ~m` for m = 1 << k.
abbrev pub bit_set : ℕ → ℕ → Bool
bit_set byte k = byte / 2 ^ k % 2 == 1

abbrev pub or_bit : ℕ → ℕ → ℕ
or_bit byte k = if bit_set byte k then byte else byte + 2 ^ k

abbrev pub clear_bit : ℕ → ℕ → ℕ
clear_bit byte k = if bit_set byte k then byte - 2 ^ k else byte

-- The bit `bi` of a block of the map.
abbrev pub in_use : (ℕ → ℕ) → ℕ → Bool
in_use m bi = bit_set (m (bi / 8)) (bi % 8)

abbrev pub mark : ℕ → (ℕ → ℕ) → ℕ → ℕ
mark bi m = put_byte m (bi / 8) (or_bit (m (bi / 8)) (bi % 8))

abbrev pub unmark : ℕ → (ℕ → ℕ) → ℕ → ℕ
unmark bi m = put_byte m (bi / 8) (clear_bit (m (bi / 8)) (bi % 8))

-- The inner loop of balloc, with `n` bits to go.
unfoldable pub find_clear : (ℕ → ℕ) → ℕ → ℕ → Option ℕ
find_clear m bi zero = none
find_clear m bi (suc n) =
    let rest = find_clear m (bi + 1) n in if in_use m bi then rest else some bi

unfoldable pub bzero : ℕ → F (Unit {0})
bzero bno = update_block bno (λ m a. if ltb a bsize then 0 else m a)

-- balloc from block `b` on, with `n` blocks of the map to go.
unfoldable pub balloc_loop : ℕ → ℕ → F ℕ
unfolding find_clear bzero
balloc_loop zero b s = stopped out_of_blocks
balloc_loop (suc n) b s = elim (ltb b s.sb.size) [
  | false ↦ stopped out_of_blocks
  | true ↦ elim (find_clear (s.block (b / bpb + s.sb.bmapstart)) 0 (min bpb (s.sb.size - b))) [
    | none ↦ balloc_loop n (b + bpb) s
    | some bi ↦
        (do update_block (b / bpb + s.sb.bmapstart) (mark bi); bzero (b + bi); pure (b + bi)) s
  ]
]

unfoldable pub balloc : F ℕ
unfolding balloc_loop
balloc s = balloc_loop (s.sb.size / bpb + 1) 0 s

unfoldable pub bfree : ℕ → F (Unit {0})
bfree b = do
  s ← get
  elim (in_use (s.block (b / bpb + s.sb.bmapstart)) (b % bpb)) [
    | false ↦ stop freeing_free_block
    | true ↦ update_block (b / bpb + s.sb.bmapstart) (unmark (b % bpb))
  ]
