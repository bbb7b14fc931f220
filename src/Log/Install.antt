-- ===== src/Log/Install.antt =====
-- log.c: the contents of the log blocks, and what installing them does.
use os192_ass2_multi_thread.Log.Writes.{in_log, mem, untouched, write_log-Targets}
use os192_ass2_multi_thread.Base.{
  ℕ, List, ◌∷◌, ◌≡◌, take, ◌++◌, false, ◌≤◌, true, arith, suc, if◌then◌else◌, ◌∙◌, ◌+◌, [], length,
  refl, zero, ap,
}
use os192_ass2_multi_thread.Log.{Disk, to_block, apply, run, write_log, install_trans}

-- The log blocks from `p` hold what the cache has of these blocks.
abbrev pub Logged : (ℕ → ℕ) → (ℕ → ℕ) → ℕ → List ℕ → Type 0
Logged cache f p [] = Unit
Logged cache f p (b ∷ bs) = (f p ≡ cache b) × Logged cache f (p + 1) bs

pub Logged-same :
    (cache f g : ℕ → ℕ) (p pos n : ℕ) (lh : List ℕ)
    → pos ≤ p
    → p + length lh ≤ pos + n
    → ((a : ℕ) → in_log pos n a ≡ true → g a ≡ f a)
    → Logged cache f p lh
    → Logged cache g p lh
Logged-same cache f g p pos n [] lo hi e h = tt
Logged-same cache f g p pos n (b ∷ bs) lo hi e (q, h) =
    (e p (ground arith) ∙ q, Logged-same cache f g (p + 1) pos n bs (omega arith) (omega arith) e h)

pub run-write_log :
    (cache : ℕ → ℕ) (p : ℕ) (lh : List ℕ) (d : Disk)
    → Logged cache (run (write_log cache p lh) d).block p lh
unfolding write_log
run-write_log cache p [] d = tt
run-write_log cache p (b ∷ bs) d = (
  untouched (in_log (p + 1) (length bs)) (write_log cache (p + 1) bs)
        (apply (to_block p (cache b)) d) p
        (write_log-Targets cache (p + 1) (p + 1) (length bs) bs (omega arith) (omega arith))
        (ground arith)
      ∙ ground arith,
  run-write_log cache (p + 1) bs (apply (to_block p (cache b)) d),
)

-- What installing a complete log does to each block.
pub run-install :
    (cache log : ℕ → ℕ) (p : ℕ) (lh : List ℕ) (d : Disk) (a : ℕ)
    → Logged cache log p lh
    → (run (install_trans log p lh) d).block a ≡ (if mem a lh then cache a else d.block a)
unfolding install_trans
run-install cache log p [] d a h = refl
run-install cache log p (b ∷ bs) d a (q, h) =
    run-install cache log (p + 1) bs (apply (to_block b (log p)) d) a h ∙ ground arith

-- A part of the installation leaves each block old or new.
pub part-install :
    (cache log : ℕ → ℕ) (n p : ℕ) (lh : List ℕ) (d : Disk) (a : ℕ)
    → Logged cache log p lh
    → mem a lh ≡ false
    → (run (take n (install_trans log p lh)) d).block a ≡ d.block a
unfolding install_trans
part-install cache log zero p lh d a h m = refl
part-install cache log (suc n) p [] d a h m = refl
part-install cache log (suc n) p (b ∷ bs) d a (q, h) m =
    part-install cache log n (p + 1) bs (apply (to_block b (log p)) d) a h (ground arith)
    ∙ ground arith

pub take_all {ℓ} : {A : Type ℓ} (n : ℕ) (xs : List A) → length xs ≤ n → take n xs ≡ xs
take_all zero [] h = refl
take_all zero (x ∷ xs) h = absurd (omega arith)
take_all (suc n) [] h = refl
take_all (suc n) (x ∷ xs) h = ap (λ l. x ∷ l) (take_all n xs (omega arith))

pub take_within {ℓ} :
    {A : Type ℓ} (n : ℕ) (xs ys : List A) → n ≤ length xs → take n (xs ++ ys) ≡ take n xs
take_within zero xs ys h = refl
take_within (suc n) [] ys h = absurd (omega arith)
take_within (suc n) (x ∷ xs) ys h = ap (λ l. x ∷ l) (take_within n xs ys (omega arith))

pub take_beyond {ℓ} :
    {A : Type ℓ} (n : ℕ) (xs ys : List A) → take (length xs + n) (xs ++ ys) ≡ xs ++ take n ys
take_beyond n [] ys = ap (λ k. take k ys) (omega arith)
take_beyond n (x ∷ xs) ys =
    ap (λ k. take k (x ∷ (xs ++ ys))) {x = suc (length xs) + n} {y = suc (length xs + n)}
      (omega arith)
    ∙ ap (λ l. x ∷ l) (take_beyond n xs ys)
