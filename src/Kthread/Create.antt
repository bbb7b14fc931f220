-- ===== src/Kthread/Create.antt =====
-- proc.c: kthread_create, when there is a page for the stack and when there is none.
use os192_ass2_multi_thread.Kernel.Monad.{ret}
use os192_ass2_multi_thread.Kernel.Tables.{
  thread_at-modify_proc, thread_at-modify_ne, thread_at-modify_self,
}
use os192_ass2_multi_thread.Proc.{junk_tf, claimed}
use os192_ass2_multi_thread.Kernel.Spec.{Runs, Runs-thread_at}
use os192_ass2_multi_thread.Kernel.Types.{
  Kernel, Proc, Thread, thread_at, modify_thread, in_state, t_unused, t_runnable, unused, t_running,
}
use os192_ass2_multi_thread.Kthread.{kthread_create, Kernel, ret, started}
use os192_ass2_multi_thread.Kthread.{started}
use os192_ass2_multi_thread.Base.{
  ℕ, ◌≢◌, List, ◌+◌, ◌⊎◌, modify, find_index, ◌≡◌, some, ◌∙◌, arith, [], ◌∷◌, refl, pos, minus_one,
  get_elem?, find_index-some, get_elem?-modify_self, get_elem?-modify_ne,
}

module _ (k : Kernel) (p i : ℕ) where
  abbrev claimed_table : List Proc
  claimed_table = modify k.procs p (modify_thread (claimed p k.nexttid) i)

  abbrev on_stack : ℕ → Thread → Thread
  on_stack v t = record t { kstack = v; tf = junk_tf }

  abbrev one_more : Proc → Proc
  one_more q = record q { num_of_thread = q.num_of_thread + 1 }

  abbrev stacked_table : ℕ → List Proc
  stacked_table v = modify (modify claimed_table p (modify_thread (on_stack v) i)) p one_more

  thread_at-stacked :
      (v : ℕ) (t : Thread)
      → thread_at k.procs (p, i) ≡ some t
      → thread_at (stacked_table v) (p, i) ≡ some (on_stack v (claimed p k.nexttid t))
  thread_at-stacked v t e =
      thread_at-modify_proc (modify claimed_table p (modify_thread (on_stack v) i)) p one_more
        (p, i) (λ x. refl)
      ∙ ground (
        arith,
        thread_at-modify_self claimed_table p i (on_stack v),
        thread_at-modify_self k.procs p i (claimed p k.nexttid),
      )

  thread_at-stacked_ne :
      (v q s : ℕ)
      → (p ≢ q) ⊎ (i ≢ s)
      → thread_at (stacked_table v) (q, s) ≡ thread_at k.procs (q, s)
  thread_at-stacked_ne v q s ne =
      thread_at-modify_proc (modify claimed_table p (modify_thread (on_stack v) i)) p one_more
        (q, s) (λ x. refl)
      ∙ (thread_at-modify_ne claimed_table p i q s (on_stack v) ne
          ∙ thread_at-modify_ne k.procs p i q s (claimed p k.nexttid) ne)

-- With a page and a free slot, kthread_create returns a new thread id, with no lock held; the
-- thread is runnable at the given function on the given stack, and any other thread is as it was.
pub kthread_create_lem :
    {k : Kernel} {p j : ℕ} {pr : Proc} {t : Thread} (fn stack i q s v : ℕ) (vs : List ℕ)
    → Runs k (p, j) pr t
    → fn ≢ 0
    → stack ≢ 0
    → find_index (in_state t_unused) pr.ttable ≡ some i
    → k.free_pages ≡ v ∷ vs
    → (p ≢ q) ⊎ (i ≢ s)
    → (k' : Kernel) × (u : Thread) × (kthread_create fn stack k ≡ ret (pos k.nexttid) k')
      × (k'.held ≡ [])
      × (thread_at k'.procs (p, i) ≡ some u)
      × (u.state ≡ t_runnable)
      × (u.tid ≡ k.nexttid)
      × (u.parent ≡ some p)
      × (u.kstack ≡ v)
      × (u.tf.eip ≡ fn)
      × (u.tf.esp ≡ stack)
      × (k'.nexttid ≡ k.nexttid + 1)
      × (k'.free_pages ≡ vs)
      × (thread_at k'.procs (q, s) ≡ thread_at k.procs (q, s))
unfolding kthread_create
kthread_create_lem {k} {p} {j} {pr} {t} fn stack i q s v vs r nf ns e fp ne =
    let (u, at, _) = find_index-some (in_state t_unused) pr.ttable i e in
    let f = started t.tf fn stack in
    let here : thread_at k.procs (p, i) ≡ some u = ground (arith, r.proc) in
    (
      record k {
        procs = modify (stacked_table k p i v) p (modify_thread f i);
        nexttid = k.nexttid + 1;
        free_pages = vs;
      },
      f (on_stack k p i v (claimed p k.nexttid u)),
      ground (arith, Runs-thread_at r, thread_at-stacked k p i v u here),
      r.free,
      ground (
        arith,
        thread_at-modify_self (stacked_table k p i v) p i f,
        thread_at-stacked k p i v u here,
      ),
      refl,
      refl,
      refl,
      refl,
      refl,
      refl,
      refl,
      refl,
      thread_at-modify_ne (stacked_table k p i v) p i q s f ne
          ∙ thread_at-stacked_ne k p i v q s ne,
    )

-- With a free slot and no page for the stack, kthread_create returns -1 and marks the process that
-- called it UNUSED, while its threads go on: its slot can be given to a new process.
pub kthread_create_no_page :
    {k : Kernel} {p j : ℕ} {pr : Proc} {t : Thread} (fn stack i : ℕ)
    → Runs k (p, j) pr t
    → t.state ≡ t_running
    → fn ≢ 0
    → stack ≢ 0
    → find_index (in_state t_unused) pr.ttable ≡ some i
    → k.free_pages ≡ []
    → (k' : Kernel) × (q : Proc) × (kthread_create fn stack k ≡ ret minus_one k')
      × (get_elem? k'.procs p ≡ some q)
      × (q.state ≡ unused)
      × (q.pid ≡ pr.pid)
      × (get_elem? q.ttable j ≡ some t)
unfolding kthread_create
kthread_create_no_page {k} {p} {j} {pr} {t} fn stack i r run nf ns e fp = (
  record k {
    procs = modify (modify (claimed_table k p i) p unuse) p (modify_thread no_stack i);
    nexttid = k.nexttid + 1;
  },
  modify_thread no_stack i (unuse (modify_thread (claimed p k.nexttid) i pr)),
  ground (arith, Runs-thread_at r),
  ground (
    arith,
    get_elem?-modify_self (modify (claimed_table k p i) p unuse) p (modify_thread no_stack i),
    get_elem?-modify_self (claimed_table k p i) p unuse,
    get_elem?-modify_self k.procs p (modify_thread (claimed p k.nexttid) i),
  ),
  refl,
  refl,
  still,
)
  where
    unuse : Proc → Proc
    unuse q = record q { state = unused }

    no_stack : Thread → Thread
    no_stack t = record t { kstack = 0; state = t_unused }

    differs : i ≢ j
    differs q =
        let (w, at, un) = find_index-some (in_state t_unused) pr.ttable i e in
        ground (arith, r.thread)

    still : get_elem? (modify (modify pr.ttable i (claimed p k.nexttid)) i no_stack) j ≡ some t
    still =
        get_elem?-modify_ne (modify pr.ttable i (claimed p k.nexttid)) i j no_stack differs
        ∙ (get_elem?-modify_ne pr.ttable i j (claimed p k.nexttid) differs ∙ r.thread)
