-- ===== src/Fs/Steps.antt =====
-- fs.c: a sequence of calls runs the second one where the first one ends.
use os192_ass2_multi_thread.Fs.{Fs, F, ◌>>=◌, done}
use os192_ass2_multi_thread.Base.{◌≡◌, ap}

pub bind-done :
    {A B : Type 0} {a : A} (s t : Fs) (m : F A) (f : A → F B) → m s ≡ done a t → (m >>= f) s ≡ f a t
bind-done s t m f e = ap (λ o. ((λ z. o) >>= f) s) e
