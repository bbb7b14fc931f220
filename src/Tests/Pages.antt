-- ===== src/Tests/Pages.antt =====
-- The theorems on page tables applied to a small memory.
use os192_ass2_multi_thread.Vm.Monad.{Vm, word, is_present}
use os192_ass2_multi_thread.Vm.Walk.{walkpgdir, mappages}
use os192_ass2_multi_thread.Vm.Tables.{Tables}
use os192_ass2_multi_thread.Vm.Mapping.{Finds, walkpgdir_lem}
use os192_ass2_multi_thread.Vm.Rounds.{Maps}
use os192_ass2_multi_thread.Vm.Pages.{mappages_lem}
use os192_ass2_multi_thread.Base.{ℕ, ◌∷◌, [], ◌≡◌, refl, false, true, arith, ◌*◌}

-- All memory is 0, and three pages are free.
abbrev test_vm : Vm
test_vm = record { mem = λ f o. 0; free = 3 ∷ 4 ∷ 5 ∷ []; kernel_end = 0x80000000 }

nothing_there : (d : ℕ) → is_present (word test_vm 2 d) ≡ false
unfolding word
nothing_there d = refl

none_there : (d : ℕ) → is_present (word test_vm 2 d) ≡ true → ⊥
none_there d p = ground (arith, p, nothing_there d)

test_vm-Tables : Tables 2 test_vm
test_vm-Tables = record {
  free_fit = (omega arith, (omega arith, (omega arith, tt)));
  free_once = λ f. ground arith;
  dir_taken = refl;
  taken = λ d h p. absurd (none_there d p);
  not_dir = λ d h p e. none_there d p;
  apart = λ d e h k p q r. absurd (none_there d p);
}

walkpgdir_lem_example : Finds 2 0x401000 test_vm (walkpgdir 2 0x401000 true test_vm)
walkpgdir_lem_example = walkpgdir_lem 2 0x401000 test_vm test_vm-Tables

mappages_lem_example :
    Maps 2 0x3ff000 2 0x8000 6 test_vm (mappages 2 0x3ff000 (2 * 4096) 0x8000 6 test_vm)
mappages_lem_example =
    mappages_lem 2 0x3ff000 2 0x8000 6 test_vm test_vm-Tables refl refl (omega arith) (omega arith)
      (omega arith) (omega arith)
