-- ===== src/Spinlock.antt =====
-- spinlock.c and sleeplock.c: the lock word, the count of disabled interrupts, and sleeping locks.
pub mod Nesting
pub mod Exclusion
pub mod Sleep
use os192_ass2_multi_thread.Base.{
  ℕ, Bool, Option, false, none, ◌&&◌, true, if◌then◌else◌, ◌==◌, ◌||◌, some, ◌-◌, ◌+◌,
}

-- The fields of `struct cpu` that pushcli and popcli use, and its interrupt flag.
pub record Cpu : Type 0 where
  pub ncli : ℕ
  pub intena : Bool
  pub interrupts : Bool

-- `struct spinlock`: `cpu` is the CPU recorded as its holder.
pub record Spinlock : Type 0 where
  pub locked : Bool
  pub cpu : Option ℕ

abbrev pub initlock : Spinlock
initlock = record { locked = false; cpu = none }

unfoldable pub pushcli : Cpu → Cpu
pushcli c = record c {
  interrupts = false;
  intena = if c.ncli == 0 then c.interrupts else c.intena;
  ncli = c.ncli + 1;
}

-- `none` is a panic: interrupts are on, or there was no pushcli.
unfoldable pub popcli : Cpu → Option Cpu
popcli c =
    if c.interrupts || c.ncli == 0
    then none
    else (let n = c.ncli - 1 in
        some
          (record c { ncli = n; interrupts = if n == 0 && c.intena then true else c.interrupts }))

-- holding; its pushcli and popcli cancel.
unfoldable pub holding : Spinlock → ℕ → Bool
holding lk me = lk.locked && elim lk.cpu [ none ↦ false | some c ↦ c == me ]

-- `xchg(&lk->locked, 1)`: the old value and the lock.
unfoldable pub xchg : Spinlock → Bool × Spinlock
xchg lk = (lk.locked, record lk { locked = true })
