-- ===== src/Tests/Trees.antt =====
-- A tournament tree of depth 1 and one of depth 2.
use os192_ass2_multi_thread.Tournament.Climb.{run_each, climb-run_each}
use os192_ass2_multi_thread.Base.{arith, ◌≡◌, List, [], ℤ, pos, ◌∷◌}
use os192_ass2_multi_thread.Tournament.Path.{IsLevel, up}
use os192_ass2_multi_thread.Tournament.{climb, Api}

-- An interface whose state is the list of mutexes that are locked.
abbrev counting : Api (List ℤ)
counting = record {
  mutex_alloc = λ s. (pos 1, s);
  mutex_dealloc = λ m s. (pos 0, s);
  mutex_lock = λ m s. (pos 0, m ∷ s);
  mutex_unlock = λ m s. (pos 0, s);
  thread_id = λ s. pos 1;
  malloc = λ n s. (1, s);
  free = λ a s. s;
}

abbrev handles : List ℤ
handles = pos 10 ∷ pos 11 ∷ pos 12 ∷ []

leaf5-IsLevel : IsLevel 2 5
leaf5-IsLevel = record { low = omega arith; high = omega arith }

climb-run_each_example :
    climb counting 5 handles 5 [] ≡ run_each counting.mutex_lock handles (up 2 5) []
climb-run_each_example = climb-run_each counting 2 5 5 handles [] leaf5-IsLevel (omega arith)
