-- ===== src/Log/Recovery.antt =====
-- log.c: the writes of a commit, a crash between two of them, and recovery.
use os192_ass2_multi_thread.Log.Install.{
  take_beyond, take_all, run-install, take_within, Logged, run-write_log, Logged-same, part-install,
}
use os192_ass2_multi_thread.Log.Writes.{
  in_log, mem, Outside, Targets, same_header, run-append, write_log-Targets, install-Targets,
  take-Targets, untouched,
}
use native.Mathlib.Decide.{dec_le}
use os192_ass2_multi_thread.Base.{
  ℕ, List, ◌∷◌, ◌≡◌, take, ◌++◌, false, ◌≤◌, not, arith, suc, if◌then◌else◌, ◌∙◌, ◌+◌, [], length,
  refl, Bool-cases, ap, inl, inr, fun_ext, ◌⊎◌, length-append, ◌-◌,
}
use os192_ass2_multi_thread.Log.{
  Disk, Write, to_header, apply, run, write_log, install_trans, commit, recover_from_log,
}

-- The blocks outside the log, and what the transaction makes of them.
abbrev pub home : ℕ → ℕ → (ℕ → ℕ) → ℕ → ℕ
home pos n f a = if in_log pos n a then 0 else f a

abbrev pub updated : (ℕ → ℕ) → List ℕ → (ℕ → ℕ) → ℕ → ℕ
updated cache lh f a = if mem a lh then cache a else f a

module _ (cache : ℕ → ℕ) (start : ℕ) (lh : List ℕ) (d : Disk) (empty : d.header ≡ [])
    (out : Outside (start + 1) (length lh) lh) where
  abbrev pos : ℕ
  pos = start + 1

  abbrev size : ℕ
  size = length lh

  abbrev logged : List Write
  logged = write_log cache pos lh

  abbrev d1 : Disk
  d1 = run logged d

  abbrev installing : List Write
  installing = install_trans d1.block pos lh

  to_log : Targets (in_log pos size) logged
  to_log = write_log-Targets cache pos pos size lh (omega arith) (omega arith)

  to_home : Targets (λ a. not (in_log pos size a)) installing
  to_home = install-Targets d1.block pos pos size lh out

  -- A crash before the header is written: recovery finds an empty log.
  early :
      (n : ℕ)
      → home pos size (recover_from_log start (run (take n logged) d)).block ≡ home pos size d.block
  unfolding recover_from_log
  early n = fun_ext (λ a. elim (Bool-cases (in_log pos size a)) [
    | inl y ↦ rw y refl
    | inr y ↦ rw y (
        ap
          (λ h.
            (run (install_trans (run (take n logged) d).block (start + 1) h)
                (run (take n logged) d)).block
              a)
          none_logged
        ∙ untouched (in_log pos size) (take n logged) d a
            (take-Targets (in_log pos size) n logged to_log) y)
  ])
    where
      none_logged : (run (take n logged) d).header ≡ []
      none_logged =
          same_header (in_log pos size) (take n logged) d
            (take-Targets (in_log pos size) n logged to_log)
          ∙ empty

  abbrev partly : ℕ → Disk
  partly n = run (take n installing) (apply (to_header lh) d1)

  -- A crash behind it: recovery installs the whole log again.
  late :
      (n : ℕ)
      → home pos size (recover_from_log start (partly n)).block
        ≡ home pos size (updated cache lh d.block)
  unfolding recover_from_log
  late n = fun_ext (λ a. elim (Bool-cases (in_log pos size a)) [
    | inl y ↦ rw y refl
    | inr y ↦ rw y (
        ap (λ h. (run (install_trans (partly n).block (start + 1) h) (partly n)).block a) all_logged
        ∙ (run-install cache (partly n).block pos lh (partly n) a complete ∙ rest a y))
  ])
    where
      all_logged : (partly n).header ≡ lh
      all_logged =
          same_header (λ a. not (in_log pos size a)) (take n installing) (apply (to_header lh) d1)
            (take-Targets (λ a. not (in_log pos size a)) n installing to_home)

      complete : Logged cache (partly n).block pos lh
      complete =
          Logged-same cache d1.block (partly n).block pos pos size lh (omega arith) (omega arith)
            (λ a y.
              untouched (λ a. not (in_log pos size a)) (take n installing) (apply (to_header lh) d1)
                a (take-Targets (λ a. not (in_log pos size a)) n installing to_home) (rw y refl))
            (run-write_log cache pos lh d)

      rest :
          (a : ℕ)
          → in_log pos size a ≡ false
          → (if mem a lh then cache a else (partly n).block a) ≡ updated cache lh d.block a
      rest a y = elim (Bool-cases (mem a lh)) [
        | inl m ↦ rw m refl
        | inr m ↦ rw m (
            part-install cache d1.block n pos lh (apply (to_header lh) d1) a
              (run-write_log cache pos lh d) m
            ∙ untouched (in_log pos size) logged d a to_log y)
      ]

  -- The commit came to its end: the log is empty again.
  done :
      home pos size
        (recover_from_log start
          (run (installing ++ (to_header [] ∷ [])) (apply (to_header lh) d1))).block
      ≡ home pos size (updated cache lh d.block)
  unfolding recover_from_log
  done = rw (run-append installing (to_header [] ∷ []) (apply (to_header lh) d1)) (
      fun_ext (λ a. elim (Bool-cases (in_log pos size a)) [
        | inl y ↦ rw y refl
        | inr y ↦ rw y (
            run-install cache d1.block pos lh (apply (to_header lh) d1) a
              (run-write_log cache pos lh d)
            ∙ ap (λ v. if mem a lh then cache a else v)
                (untouched (in_log pos size) logged d a to_log y))
      ]))

  -- A commit writes log blocks, header, home blocks and an empty header. After a crash behind any
  -- number `n` of these writes, recovery leaves the blocks outside the log as they were before the commit, or
  -- as the whole transaction leaves them: never a part of it. (The on-disk log was empty, and no block of
  -- the transaction lies in the log.)
  pub crash_atomic :
      (n : ℕ)
      → (home pos size (recover_from_log start (run (take n (commit cache start lh d)) d)).block
          ≡ home pos size d.block)
        ⊎ (home pos size (recover_from_log start (run (take n (commit cache start lh d)) d)).block
            ≡ home pos size (updated cache lh d.block))
  unfolding commit
  crash_atomic n = elim (dec_le n (length logged)) [
    | yes le ↦ inl (
        rw (take_within n logged (to_header lh ∷ (installing ++ (to_header [] ∷ []))) le) (early n))
    | no gt ↦ inr (later (n - length logged - 1) (omega arith))
  ]
    where
      tail : List Write
      tail = installing ++ (to_header [] ∷ [])

      short :
          (m : ℕ)
          → n ≡ length logged + suc m
          → run (take n (logged ++ (to_header lh ∷ tail))) d
            ≡ run (take m tail) (apply (to_header lh) d1)
      short m e = rw e (
          rw (take_beyond (suc m) logged (to_header lh ∷ tail))
            (run-append logged (to_header lh ∷ take m tail) d))

      later :
          (m : ℕ)
          → n ≡ length logged + suc m
          → home pos size
              (recover_from_log start (run (take n (logged ++ (to_header lh ∷ tail))) d)).block
            ≡ home pos size (updated cache lh d.block)
      later m e = rw (short m e) (elim (dec_le m (length installing)) [
        | yes le ↦ rw (take_within m installing (to_header [] ∷ []) le) (late m)
        | no gt ↦ rw (whole m gt) done
      ])
        where
          whole : (m : ℕ) → ¬ (m ≤ length installing) → take m tail ≡ tail
          whole m gt = take_all m tail (omega (arith, length-append installing (to_header [] ∷ [])))
