-- ===== src/Tournament.antt =====
-- tournament_tree.c: a lock for many threads, built in user space as a tree of kernel mutexes.
pub mod Path
pub mod Climb
use mathlib.Core.Option
use os192_ass2_multi_thread.Base.{
  ℕ, zero, suc, ◌+◌, ◌-◌, ◌*◌, ◌/◌, none, List, Option, ℤ, some, ◌∷◌, false, negsuc, true, ◌==◌, [],
  Bool, minus_one, get_elem?, replicate, pos, ◌&&◌, ◌||◌, set, if◌then◌else◌, ltb,
}

-- `powordepth`, its loop on the rounds left.
abbrev pub pow_loop : ℕ → ℕ → ℕ
pow_loop zero output = output
pow_loop (suc exp) output = pow_loop exp (output * 2)

unfoldable pub powordepth : ℕ → ℕ
powordepth exp = pow_loop exp 1

-- `struct trnmnt_tree`; the arrays with the pointers that `free` is given.
pub record Tree : Type 0 where
  pub lock : ℤ
  pub mutextree : List ℤ
  pub thread_map : List ℤ
  pub depth : ℕ
  pub self : ℕ
  pub mutextree_at : ℕ
  pub thread_map_at : ℕ

-- `fatherPosition`: C rounds (0 - 1) / 2 to 0, as this does.
abbrev pub father : ℕ → ℕ
father position = (position - 1) / 2

-- What the tree uses of the kernel and of umalloc.c, on a state of its own: calls that have
-- returned.
pub record Api (S : Type 0) : Type 0 where
  pub mutex_alloc : S → ℤ × S
  pub mutex_dealloc : ℤ → S → ℤ × S
  pub mutex_lock : ℤ → S → ℤ × S
  pub mutex_unlock : ℤ → S → ℤ × S
  pub thread_id : S → ℤ
  pub malloc : ℕ → S → ℕ × S
  pub free : ℕ → S → S

abbrev pub is_minus_one : ℤ → Bool
is_minus_one (negsuc zero) = true
is_minus_one (negsuc (suc n)) = false
is_minus_one (pos n) = false

abbrev pub int_eq : ℤ → ℤ → Bool
int_eq (pos a) (pos b) = a == b
int_eq (negsuc a) (negsuc b) = a == b
int_eq _ _ = false

-- `none` is an access outside an array or through a null pointer.
abbrev pub P : Type 0 → Type 0 → Type 0
P S A = S → Option (A × S)

infixl 5 ◌>>=◌ ◌>>◌
abbrev pub ◌>>=◌ : {S A B : Type 0} → P S A → (A → P S B) → P S B
◌>>=◌ m f s = elim (m s) [ none ↦ none | some (a, s') ↦ f a s' ]

abbrev pub ◌>>◌ : {S B : Type 0} → P S (Unit {0}) → P S B → P S B
m >> n = m >>= λ _. n

abbrev pub pure : {S A : Type 0} → A → P S A
pure a s = some (a, s)

-- A call that cannot fault, and an array read.
abbrev pub call : {S A : Type 0} → (S → A × S) → P S A
call f s = some (f s)

abbrev pub read : {S A : Type 0} → List A → ℕ → P S A
read xs i s = Option.map (λ x. (x, s)) (get_elem? xs i)

module _ {S : Type 0} (api : Api S) where
  open api use {mutex_alloc, mutex_dealloc, mutex_lock, mutex_unlock, thread_id, malloc, free}

  abbrev pub free_call : ℕ → P S (Unit {0})
  free_call p s = some (tt, free p s)

  -- The loop of trnmnt_tree_acquire over `treePosition`.
  unfoldable pub climb : ℕ → List ℤ → ℕ → P S (Unit {0})
  climb zero mutextree position = pure tt
  climb (suc fuel) mutextree position = elim (position == 0) [
    | true ↦ pure tt
    | false ↦ do
      m ← read mutextree (father position)
      r ← call (mutex_lock m)
      climb fuel mutextree (father position)
  ]

  -- `ID` is an int; a position never needs more rounds than its own value.
  unfoldable pub trnmnt_tree_acquire : Option Tree → ℤ → P S (ℤ × Option Tree)
  unfolding powordepth climb
  trnmnt_tree_acquire none id = pure (minus_one, none)
  trnmnt_tree_acquire (some tree) (negsuc n) = pure (minus_one, some tree)
  trnmnt_tree_acquire (some tree) (pos id) = elim (ltb (powordepth tree.depth - 1) id) [
    | true ↦ pure (minus_one, some tree)
    | false ↦ do
      r ← call (mutex_lock tree.lock)
      entry ← read tree.thread_map id
      elim (is_minus_one entry) [
        | false ↦ do r ← call (mutex_unlock tree.lock); pure (minus_one, some tree)
        | true ↦ do
          me ← call (λ s. (thread_id s, s))
          r ← call (mutex_unlock tree.lock)
          climb (powordepth tree.depth - 1 + id) tree.mutextree (powordepth tree.depth - 1 + id)
          pure (pos 0, some (record tree { thread_map = set tree.thread_map id me }))
      ]
  ]

  -- trnmnt_tree_release_rec; `fuel` bounds the depth of the recursion.
  unfoldable pub trnmnt_tree_release_rec : ℕ → List ℤ → ℕ → P S ℤ
  trnmnt_tree_release_rec zero mutextree position = pure minus_one
  trnmnt_tree_release_rec (suc fuel) mutextree position = elim (father position == 0) [
    | true ↦ do m ← read mutextree (father position); call (mutex_unlock m)
    | false ↦ do
      r ← trnmnt_tree_release_rec fuel mutextree (father position)
      elim (is_minus_one r) [
        | true ↦ pure minus_one
        | false ↦ do m ← read mutextree (father position); call (mutex_unlock m)
      ]
  ]

  unfoldable pub trnmnt_tree_release : Tree → ℕ → P S (ℤ × Tree)
  unfolding powordepth trnmnt_tree_release_rec
  trnmnt_tree_release tree id = do
    r ← call (mutex_lock tree.lock)
    entry ← read tree.thread_map id
    me ← call (λ s. (thread_id s, s))
    elim (int_eq entry me) [
      | false ↦ do r ← call (mutex_unlock tree.lock); pure (minus_one, tree)
      | true ↦ do
        q ←
            trnmnt_tree_release_rec (powordepth tree.depth + id) tree.mutextree
              (powordepth tree.depth - 1 + id)
        r ← call (mutex_unlock tree.lock)
        elim (is_minus_one q) [
          | true ↦ pure (minus_one, tree)
          | false ↦ pure (pos 0, record tree { thread_map = set tree.thread_map id minus_one })
        ]
    ]

  -- The allocation loop of trnmnt_tree_alloc, for `n` mutexes.
  unfoldable pub alloc_all : ℕ → P S (List ℤ)
  alloc_all zero = pure []
  alloc_all (suc n) = do m ← call mutex_alloc; rest ← alloc_all n; pure (m ∷ rest)

  -- The loop that frees all of them, whatever each call returns.
  unfoldable pub dealloc_all : List ℤ → P S (Unit {0})
  dealloc_all [] = pure tt
  dealloc_all (m ∷ ms) = do r ← call (mutex_dealloc m); dealloc_all ms

  abbrev pub any_minus_one : List ℤ → Bool
  any_minus_one [] = false
  any_minus_one (m ∷ ms) = is_minus_one m || any_minus_one ms

  -- The four blocks of trnmnt_tree_alloc: sizeof(trnmnt_tree) is 16 and sizeof(int) is 4. The first
  -- pointer is used unchecked.
  unfoldable pub alloc_tree : ℕ → ℕ → P S (Option Tree)
  unfolding powordepth alloc_all dealloc_all
  alloc_tree output depth = do
    lock ← call mutex_alloc
    elim (is_minus_one lock) [
      | true ↦ do free_call output; pure none
      | false ↦ do
        ms_at ← call (malloc ((powordepth depth - 1) * 4))
        elim (ms_at == 0) [
          | true ↦ do free_call output; pure none
          | false ↦ do
            ms ← alloc_all (powordepth depth - 1)
            elim (any_minus_one ms) [
              | true ↦ do
                dealloc_all ms
                r ← call (mutex_dealloc lock)
                free_call ms_at
                free_call output
                pure none
              | false ↦ do
                map_at ← call (malloc (powordepth depth * 4))
                elim (map_at == 0) [
                  | true ↦ do
                    dealloc_all ms
                    r ← call (mutex_dealloc lock)
                    free_call ms_at
                    free_call output
                    pure none
                  | false ↦ pure (
                      some (record {
                        lock = lock;
                        mutextree = ms;
                        thread_map = replicate (powordepth depth) minus_one;
                        depth = depth;
                        self = output;
                        mutextree_at = ms_at;
                        thread_map_at = map_at;
                      }))
                ]
            ]
        ]
    ]

  unfoldable pub trnmnt_tree_alloc : ℤ → P S (Option Tree)
  unfolding alloc_tree
  trnmnt_tree_alloc depth = do
    output ← call (malloc 16)
    elim depth [
      | negsuc n ↦ pure none
      | pos d ↦
          if d == 0 || ltb 6 d
          then pure none
          else (if output == 0 then (λ s. none) else alloc_tree output d)
    ]

  -- The loop of trnmnt_tree_dealloc over the mutexes: it stops at the first that is in use.
  unfoldable pub dealloc_until : List ℤ → P S Bool
  dealloc_until [] = pure true
  dealloc_until (m ∷ ms) = do
    r ← call (mutex_dealloc m)
    elim (is_minus_one r) [ true ↦ pure false | false ↦ dealloc_until ms ]

  abbrev pub all_minus_one : List ℤ → Bool
  all_minus_one [] = true
  all_minus_one (m ∷ ms) = is_minus_one m && all_minus_one ms

  -- The write of `depth` after `free` is left out: the block is not the tree's any more.
  unfoldable pub trnmnt_tree_dealloc : Tree → P S ℤ
  unfolding dealloc_until
  trnmnt_tree_dealloc tree = do
    r ← call (mutex_lock tree.lock)
    elim (all_minus_one tree.thread_map) [
      | false ↦ do r ← call (mutex_unlock tree.lock); pure minus_one
      | true ↦ do
        freed ← dealloc_until tree.mutextree
        r ← call (mutex_unlock tree.lock)
        elim freed [
          | false ↦ pure minus_one
          | true ↦ do
            r ← call (mutex_dealloc tree.lock)
            free_call tree.thread_map_at
            free_call tree.mutextree_at
            free_call tree.self
            pure (pos 0)
        ]
    ]
