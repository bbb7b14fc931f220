-- ===== src/Log/Writes.antt =====
-- log.c: which blocks a sequence of writes to the disk touches.
use os192_ass2_multi_thread.Base.{
  ℕ, List, Bool, leb, ◌∷◌, ◌≡◌, take, ◌++◌, false, ◌≤◌, not, true, arith, ◌==◌, suc, ◌∙◌, ◌+◌, [],
  ◌&&◌, ◌||◌, length, ltb, refl, zero,
}
use os192_ass2_multi_thread.Log.{
  Disk, Write, to_block, to_header, apply, run, write_log, install_trans,
}

-- The writes go to blocks that the test accepts, and not to the header.
abbrev pub Targets : (ℕ → Bool) → List Write → Type 0
Targets ok [] = Unit
Targets ok (to_block a v ∷ ws) = (ok a ≡ true) × Targets ok ws
Targets ok (to_header bs ∷ ws) = ⊥

pub run-append : (vs ws : List Write) (d : Disk) → run (vs ++ ws) d ≡ run ws (run vs d)
run-append [] ws d = refl
run-append (v ∷ vs) ws d = run-append vs ws (apply v d)

pub take-Targets :
    (ok : ℕ → Bool) (n : ℕ) (ws : List Write) → Targets ok ws → Targets ok (take n ws)
take-Targets ok zero ws h = tt
take-Targets ok (suc n) [] h = tt
take-Targets ok (suc n) (to_block a v ∷ ws) (p, h) = (p, take-Targets ok n ws h)
take-Targets ok (suc n) (to_header bs ∷ ws) h = absurd h

-- A block that they do not go to is as it was, and so is the header.
pub untouched :
    (ok : ℕ → Bool) (ws : List Write) (d : Disk) (a : ℕ)
    → Targets ok ws
    → ok a ≡ false
    → (run ws d).block a ≡ d.block a
untouched ok [] d a h n = refl
untouched ok (to_block b v ∷ ws) d a (p, h) n =
    untouched ok ws (apply (to_block b v) d) a h n ∙ ground arith
untouched ok (to_header bs ∷ ws) d a h n = absurd h

pub same_header :
    (ok : ℕ → Bool) (ws : List Write) (d : Disk) → Targets ok ws → (run ws d).header ≡ d.header
same_header ok [] d h = refl
same_header ok (to_block b v ∷ ws) d (p, h) = same_header ok ws (apply (to_block b v) d) h
same_header ok (to_header bs ∷ ws) d h = absurd h

abbrev pub in_log : ℕ → ℕ → ℕ → Bool
in_log pos n a = leb pos a && ltb a (pos + n)

abbrev pub mem : ℕ → List ℕ → Bool
mem a [] = false
mem a (b ∷ bs) = b == a || mem a bs

-- No home block lies in the `n` log blocks from `pos`.
abbrev pub Outside : ℕ → ℕ → List ℕ → Type 0
Outside pos n [] = Unit
Outside pos n (b ∷ bs) = (in_log pos n b ≡ false) × Outside pos n bs

pub write_log-Targets :
    (cache : ℕ → ℕ) (p pos n : ℕ) (lh : List ℕ)
    → pos ≤ p
    → p + length lh ≤ pos + n
    → Targets (in_log pos n) (write_log cache p lh)
unfolding write_log
write_log-Targets cache p pos n [] lo hi = tt
write_log-Targets cache p pos n (b ∷ bs) lo hi =
    (ground arith, write_log-Targets cache (p + 1) pos n bs (omega arith) (omega arith))

pub install-Targets :
    (log : ℕ → ℕ) (p pos n : ℕ) (lh : List ℕ)
    → Outside pos n lh
    → Targets (λ a. not (in_log pos n a)) (install_trans log p lh)
unfolding install_trans
install-Targets log p pos n [] o = tt
install-Targets log p pos n (b ∷ bs) (h, o) = (ground arith, install-Targets log (p + 1) pos n bs o)
