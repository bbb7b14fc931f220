-- ===== src/Base/Int.antt =====
-- The C `int` where it may be negative: a handle, an argument of a system call, a result.
use Prim.Native.Nat.{ℕ, ◌-◌}
use mathlib.Core.Bool.{Bool, false}
use os192_ass2_multi_thread.Base.Tests.{◌==◌, leb, if◌then◌else◌}

-- `negsuc n` is -(n + 1).
pub data ℤ : Type 0 where
  pos : ℕ → ℤ
  negsuc : ℕ → ℤ

-- The result -1 of a call that fails.
abbrev pub minus_one : ℤ
minus_one = negsuc 0

-- `n == z` for a number that is never negative.
abbrev pub eq_int : ℕ → ℤ → Bool
eq_int n (pos m) = n == m
eq_int n (negsuc m) = false

-- `a - b` of two numbers that are not negative.
abbrev pub diff : ℕ → ℕ → ℤ
diff a b = if leb b a then pos (a - b) else negsuc (b - a - 1)
