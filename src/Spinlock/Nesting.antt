-- ===== src/Spinlock/Nesting.antt =====
-- spinlock.c: pushcli and popcli, nested.
use os192_ass2_multi_thread.Base.{
  ℕ, ◌≡◌, inr, suc, Option, ◌⊎◌, zero, some, none, false, refl, arith, inl, if◌then◌else◌, ap, ◌+◌,
  ◌==◌, Bool-cases,
}
use os192_ass2_multi_thread.Spinlock.{Cpu, pushcli, popcli}

abbrev pub push_times : ℕ → Cpu → Cpu
push_times zero c = c
push_times (suc n) c = push_times n (pushcli c)

abbrev pub pop_times : ℕ → Cpu → Option Cpu
pop_times zero c = some c
pop_times (suc n) c = elim (popcli c) [ none ↦ none | some d ↦ pop_times n d ]

-- Interrupts are off while the count is not 0.
pub record IsValid (c : Cpu) : Type 0 where
  pub off : (c.ncli ≡ 0) ⊎ (c.interrupts ≡ false)

pushcli-IsValid : (c : Cpu) → IsValid (pushcli c)
unfolding pushcli
pushcli-IsValid c = record { off = inr refl }

push_times-suc : (n : ℕ) (c : Cpu) → push_times (suc n) c ≡ pushcli (push_times n c)
push_times-suc zero c = refl
push_times-suc (suc n) c = push_times-suc n (pushcli c)

push_times-IsValid : (n : ℕ) (c : Cpu) → IsValid c → IsValid (push_times n c)
push_times-IsValid zero c v = v
push_times-IsValid (suc n) c v = push_times-IsValid n (pushcli c) (pushcli-IsValid c)

-- One popcli undoes one pushcli, but for what `intena` holds while the count is 0.
popcli-pushcli :
    (c : Cpu)
    → IsValid c
    → (d : Cpu) × (popcli (pushcli c) ≡ some d)
      × (d.ncli ≡ c.ncli)
      × (d.interrupts ≡ c.interrupts)
      × ((c.ncli ≡ 0) ⊎ (d ≡ c))
unfolding popcli pushcli
popcli-pushcli c v = (
  record c { intena = if c.ncli == 0 then c.interrupts else c.intena },
  ground (arith, v.off),
  refl,
  refl,
  elim (Bool-cases (c.ncli == 0)) [ inl y ↦ inl (ground arith) | inr y ↦ inr (ground arith) ],
)

ncli-push_times : (n : ℕ) (c : Cpu) → (push_times n c).ncli ≡ c.ncli + n
unfolding pushcli
ncli-push_times zero c = omega arith
ncli-push_times (suc n) c = omega (arith, ncli-push_times n (pushcli c))

off-push_times : (n : ℕ) (c : Cpu) → (push_times (suc n) c).interrupts ≡ false
unfolding pushcli
off-push_times n c = ap (λ (d : Cpu). d.interrupts) (push_times-suc n c)

back :
    (n : ℕ) (c : Cpu)
    → IsValid c
    → (d : Cpu) × (pop_times n (push_times n c) ≡ some d)
      × (d.ncli ≡ c.ncli)
      × (d.interrupts ≡ c.interrupts)
back zero c v = (c, refl, refl, refl)
back (suc zero) c v = let (d, e, a, b, _) = popcli-pushcli c v in (d, ground arith, a, b)
back (suc (suc n)) c v =
    let (d, e, a, b, same) =
      popcli-pushcli (push_times (suc n) c) (push_times-IsValid (suc n) c v) in
    let again : d ≡ push_times (suc n) c = elim same [
      | inl z ↦ absurd (omega (arith, ncli-push_times (suc n) c))
      | inr s ↦ s
    ] in
    let (r, f, g, h) = back (suc n) c v in
    (r, rw (push_times-suc (suc n) c) (rw (e, pop_times) (rw again f)), g, h)

-- `n` calls of pushcli and then `n` of popcli do not panic and leave the count and the interrupt flag as they were; in
-- between, after at least one pushcli, interrupts are off.
pub pop_times-push_times :
    (n : ℕ) (c : Cpu)
    → IsValid c
    → ((n ≡ 0) ⊎ ((push_times n c).interrupts ≡ false))
      × ((d : Cpu) × (pop_times n (push_times n c) ≡ some d)
          × (d.ncli ≡ c.ncli)
          × (d.interrupts ≡ c.interrupts))
pop_times-push_times zero c v = (inl refl, back zero c v)
pop_times-push_times (suc n) c v = (inr (off-push_times n c), back (suc n) c v)
