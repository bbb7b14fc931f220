-- ===== src/Mutex/Invariant.antt =====
-- proc.c, what holds of the mutex table between calls.
use native.Mathlib.Decide.{ℕ_discrete}
use os192_ass2_multi_thread.Base.{
  ℕ, ◌≡◌, ◌≢◌, ◌⊎◌, none, some, List, get_elem?, arith, ◌≤◌, ◌<◌, modify, get_elem?-modify_ne,
  Option-cases, inl, get_elem?-modify_self, inr,
}
use os192_ass2_multi_thread.Kernel.Types.{
  Mutex, MutexState, uninitialized, opened, close, ThreadPtr,
}

-- The fields of one entry fit its state. `num_of_waiting` is never counted up.
abbrev pub StateFits : MutexState → Mutex → Type 0
StateFits close m = (m.lock ≡ 1) × ((c : ThreadPtr) × (m.holding ≡ some c))
StateFits opened m = (m.lock ≡ 0) × (m.holding ≡ none)
StateFits uninitialized m = (m.lock ≡ 0) × (m.holding ≡ none)

abbrev pub IsCoherent : Mutex → Type 0
IsCoherent m = (m.num_of_waiting ≡ 0) × StateFits m.state m

-- Every entry is coherent, handles are below the next one, and no two entries have one handle.
pub record TableIsValid (ms : List Mutex) (nextmid : ℕ) : Type 0 where
  pub started : 0 < nextmid
  pub coherent : (i : ℕ) (m : Mutex) → get_elem? ms i ≡ some m → IsCoherent m
  pub below : (i : ℕ) (m : Mutex) → get_elem? ms i ≡ some m → m.mid < nextmid
  pub unique :
      (i j : ℕ) (m n : Mutex)
      → get_elem? ms i ≡ some m
      → get_elem? ms j ≡ some n
      → m.mid ≡ n.mid
      → m.mid ≢ 0
      → i ≡ j

-- An entry after an update of another or of the same slot.
data Entry (ms : List Mutex) (j : ℕ) (f : Mutex → Mutex) (i : ℕ) (m : Mutex) : Type 0 where
  old : j ≢ i → get_elem? ms i ≡ some m → Entry ms j f i m
  new : (n : Mutex) → j ≡ i → get_elem? ms i ≡ some n → m ≡ f n → Entry ms j f i m

Entry-of :
    (ms : List Mutex) (j : ℕ) (f : Mutex → Mutex) (i : ℕ) (m : Mutex)
    → get_elem? (modify ms j f) i ≡ some m
    → Entry ms j f i m
Entry-of ms j f i m e = elim (ℕ_discrete j i) [
  | no n ↦ old n (ground (arith, get_elem?-modify_ne ms j i f n))
  | yes y ↦ elim (Option-cases (get_elem? ms i)) [
    | inl q ↦ absurd (ground (arith, get_elem?-modify_self ms j f))
    | inr (n, q) ↦ new n y q (ground (arith, get_elem?-modify_self ms j f))
  ]
]

-- How an update may change a handle: keep it, clear it, or take one that was never used.
abbrev pub Renamed : ℕ → ℕ → ℕ → ℕ → Type 0
Renamed next next' a b = (a ≡ b) ⊎ ((b ≡ 0) ⊎ ((next ≤ b) × (b < next')))

pub TableIsValid-modify :
    (ms : List Mutex) (next next' j : ℕ) (f : Mutex → Mutex)
    → TableIsValid ms next
    → next ≤ next'
    → ((m : Mutex) → get_elem? ms j ≡ some m → IsCoherent (f m))
    → ((m : Mutex) → Renamed next next' m.mid (f m).mid)
    → TableIsValid (modify ms j f) next'
TableIsValid-modify ms next next' j f v le co re = record {
  started = omega (arith, v.started);
  coherent = λ i m e. coherent i m (Entry-of ms j f i m e);
  below = λ i m e. below i m (Entry-of ms j f i m e);
  unique = λ i l m n e q. unique i l m n (Entry-of ms j f i m e) (Entry-of ms j f l n q);
}
  where
    coherent : (i : ℕ) (m : Mutex) → Entry ms j f i m → IsCoherent m
    coherent i m (old n e) = v.coherent i m e
    coherent i m (new n y e q) = rw q (co n (rw y e))

    below : (i : ℕ) (m : Mutex) → Entry ms j f i m → m.mid < next'
    below i m (old n e) = omega (arith, v.below i m e)
    below i m (new n y e q) = ground (arith, re n, v.below i n e, v.started)

    unique :
        (i l : ℕ) (m n : Mutex)
        → Entry ms j f i m
        → Entry ms j f l n
        → m.mid ≡ n.mid
        → m.mid ≢ 0
        → i ≡ l
    unique i l m n (old _ e) (old _ q) s z = v.unique i l m n e q s z
    unique i l m n (old _ e) (new o y q r) s z =
        ground (arith, re o, v.below i m e, v.unique i l m o e q)
    unique i l m n (new o y q r) (old _ e) s z =
        ground (arith, re o, v.below l n e, v.unique i l o n q e)
    unique i l m n (new _ y _ _) (new _ z _ _) s w = omega arith
