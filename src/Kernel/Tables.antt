-- ===== src/Kernel/Tables.antt =====
-- The process table under updates of one thread.
use os192_ass2_multi_thread.Base.{
  refl, ap, inl, inr, zero, suc, [], ◌∷◌, ℕ, ◌≡◌, ◌≢◌, ◌⊎◌, modify, get_elem?-modify_self,
  get_elem?-modify_ne, List,
}
use mathlib.Core.Option
use os192_ass2_multi_thread.Kernel.Types.{Thread, Proc, ThreadPtr, thread_at, modify_thread}

pub thread_at-modify_self :
    (ps : List Proc) (p i : ℕ) (f : Thread → Thread)
    → thread_at (modify ps p (modify_thread f i)) (p, i) ≡ Option.map f (thread_at ps (p, i))
thread_at-modify_self [] p i f = refl
thread_at-modify_self (x ∷ ps) zero i f = get_elem?-modify_self x.ttable i f
thread_at-modify_self (x ∷ ps) (suc p) i f = thread_at-modify_self ps p i f

-- Another thread's slot is not touched.
pub thread_at-modify_ne :
    (ps : List Proc) (p i q j : ℕ) (f : Thread → Thread)
    → (p ≢ q) ⊎ (i ≢ j)
    → thread_at (modify ps p (modify_thread f i)) (q, j) ≡ thread_at ps (q, j)
thread_at-modify_ne [] p i q j f h = refl
thread_at-modify_ne (x ∷ ps) zero i zero j f (inl n) = absurd (n refl)
thread_at-modify_ne (x ∷ ps) zero i zero j f (inr n) = get_elem?-modify_ne x.ttable i j f n
thread_at-modify_ne (x ∷ ps) zero i (suc q) j f h = refl
thread_at-modify_ne (x ∷ ps) (suc p) i zero j f h = refl
thread_at-modify_ne (x ∷ ps) (suc p) i (suc q) j f (inl n) =
    thread_at-modify_ne ps p i q j f (inl (λ e. n (ap suc e)))
thread_at-modify_ne (x ∷ ps) (suc p) i (suc q) j f (inr n) =
    thread_at-modify_ne ps p i q j f (inr n)

-- An update of a process that keeps its threads keeps every thread.
pub thread_at-modify_proc :
    (ps : List Proc) (p : ℕ) (f : Proc → Proc) (c : ThreadPtr)
    → ((x : Proc) → (f x).ttable ≡ x.ttable)
    → thread_at (modify ps p f) c ≡ thread_at ps c
thread_at-modify_proc [] p f c h = refl
thread_at-modify_proc (x ∷ ps) zero f (zero, j) h = rw h
thread_at-modify_proc (x ∷ ps) zero f (suc q, j) h = refl
thread_at-modify_proc (x ∷ ps) (suc p) f (zero, j) h = refl
thread_at-modify_proc (x ∷ ps) (suc p) f (suc q, j) h = thread_at-modify_proc ps p f (q, j) h
