-- ===== src/Syscall/Bounds.antt =====
-- syscall.c: the addresses that the argument functions accept.
use os192_ass2_multi_thread.Kernel.Types.{Kernel}
use os192_ass2_multi_thread.Base.{
  ℕ, ◌≡◌, ◌<◌, ◌^◌, some, arith, ◌+◌, suc, zero, Bool-cases, ◌==◌, inl, inr, Option-cases,
}
use os192_ass2_multi_thread.Syscall.{scan, to_int, to_uint}

to_uint-to_int : (word byte : ℕ → ℕ) (w : ℕ) → w < 2 ^ 32 → to_uint word byte (to_int w) ≡ w
to_uint-to_int word byte w h = ground arith

-- The scan of fetchstr stops at the first NUL within its bytes.
scan_lem :
    (word byte : ℕ → ℕ) (n s l : ℕ) → scan word byte n s ≡ some l → (l < n) × (byte (s + l) ≡ 0)
scan_lem word byte zero s l h = absurd (ground arith)
scan_lem word byte (suc n) s l h = elim (Bool-cases (byte s == 0)) [
  | inl e ↦ ground arith
  | inr e ↦ elim (Option-cases (scan word byte n (s + 1))) [
    | inl q ↦ ground arith
    | inr (m, q) ↦ (let ih = scan_lem word byte n (s + 1) m q in ground arith)
  ]
]
