-- ===== src/Tests/Users.antt =====
-- Strings, patterns, a pipe, the log and the arguments of system calls.
use os192_ass2_multi_thread.Ulib.Numbers.{atoi-printint}
use os192_ass2_multi_thread.Ulib.{printint, atoi}
use os192_ass2_multi_thread.Grep.Matches.{Found, match_decides}
use os192_ass2_multi_thread.Tests.Fixture.{sample_proc, sample}
use os192_ass2_multi_thread.Pipe.{Pipe, pipe_init, pipewrite, piperead}
use os192_ass2_multi_thread.Kernel.Types.{Kernel}
use os192_ass2_multi_thread.Grep.{match_text, star}
use os192_ass2_multi_thread.Pipe.Ends.{Reads, Writes, piperead_lem, pipewrite_lem}
use os192_ass2_multi_thread.Base.{
  arith, List, [], ◌+◌, ◌≡◌, ℕ, false, ◌∷◌, some, ◌^◌, length, pos, true, ◌-◌, ◌↔◌, refl, take, ◌⊎◌,
  ◌++◌, negsuc, if◌then◌else◌, ◌==◌,
}
use os192_ass2_multi_thread.Log.Recovery.{home, updated, crash_atomic}
use os192_ass2_multi_thread.Pipe.Ring.{IsValid}
use os192_ass2_multi_thread.Log.{run, Disk, recover_from_log, commit}

match_decides_example :
    (match_text (97 ∷ star ∷ 98 ∷ []) (99 ∷ 97 ∷ 98 ∷ []) ≡ true)
    ↔ Found (97 ∷ star ∷ 98 ∷ []) (99 ∷ 97 ∷ 98 ∷ [])
match_decides_example = match_decides (97 ∷ star ∷ 98 ∷ []) (99 ∷ 97 ∷ 98 ∷ [])

-- A pipe whose counters are about to wrap, with one byte in it.
abbrev worn : Pipe
worn = record (pipe_init (λ i. i)) { nread = 2 ^ 32 - 1; nwrite = 0 }

worn-IsValid : IsValid worn
worn-IsValid = record { read_fits = omega arith; write_fits = omega arith; room = omega arith }

pipewrite_lem_example : Writes false worn (1 ∷ 2 ∷ []) (pipewrite false worn (1 ∷ 2 ∷ []))
pipewrite_lem_example = pipewrite_lem false worn (1 ∷ 2 ∷ []) worn-IsValid

piperead_lem_example : Reads false worn 2 (piperead false worn 2)
piperead_lem_example = piperead_lem false worn 2 worn-IsValid

abbrev blocks : List ℕ
blocks = 20 ∷ 30 ∷ []

abbrev disk : Disk
disk = record { header = []; block = λ a. a }

crash_atomic_example :
    (home
        (2 + 1)
        (length blocks)
        (recover_from_log 2 (run (take 3 (commit (λ (_ : ℕ). 9) 2 blocks disk)) disk)).block
      ≡ home (2 + 1) (length blocks) disk.block)
    ⊎ (home
          (2 + 1)
          (length blocks)
          (recover_from_log 2 (run (take 3 (commit (λ (_ : ℕ). 9) 2 blocks disk)) disk)).block
        ≡ home (2 + 1) (length blocks) (updated (λ (_ : ℕ). 9) blocks disk.block))
crash_atomic_example = crash_atomic (λ _. 9) 2 blocks disk refl (refl, (refl, tt)) 3

abbrev sized : Kernel
sized = record sample { procs = record sample_proc { sz = 4096 } ∷ [] }

abbrev sample_number : ℕ
sample_number = 2019

atoi-printint_example :
    ((s : List ℕ) × (printint (pos sample_number) 10 true ≡ some s)
      × (atoi (s ++ (0 ∷ [])) ≡ some (pos sample_number)))
    × ((s : List ℕ) × (printint (negsuc sample_number) 10 true ≡ some (45 ∷ s))
        × (atoi (s ++ (0 ∷ []))
            ≡ some (
                if sample_number == 2 ^ 31 - 1
                then negsuc sample_number
                else pos (sample_number + 1))))
atoi-printint_example = atoi-printint sample_number (omega arith)
