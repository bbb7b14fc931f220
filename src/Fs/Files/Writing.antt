-- ===== src/Fs/Files/Writing.antt =====
-- file.c: filewrite against the bytes of a file.
use os192_ass2_multi_thread.Fs.Files.Locking.{
  IsReady, Writes, with_lock, locked_as, with_lock-Mapped, ilock_lem, iunlock_lem,
}
use Prim.Native.Nat.{min}
use os192_ass2_multi_thread.Fs.Content.Mapping.{content}
use os192_ass2_multi_thread.Fs.Steps.{bind-done}
use os192_ass2_multi_thread.Fs.Content.Transfer.{Overwritten, writei_lem}
use os192_ass2_multi_thread.Fs.Content.Writes.{joined}
use os192_ass2_multi_thread.Fs.Content.{writei}
use os192_ass2_multi_thread.Fs.Inodes.{ilock, iunlock}
use os192_ass2_multi_thread.Fs.{Fs, Inode, F, done, pure, ◌>>=◌, ◌>>◌, stop, short_filewrite}
use os192_ass2_multi_thread.Fs.Files.{
  File, fd_inode, write_chunk, write_loop, filewrite, moved, max_write,
}
use os192_ass2_multi_thread.Base.{
  ℕ, List, Option, Bool, some, true, false, refl, arith, ◌≡◌, ◌<◌, ◌∙◌, ap, ◌+◌, length, ◌≤◌, ◌==◌,
  suc, Bool-cases, take, drop, inl, inr, zero, length-take, length-drop, ◌%◌, ◌^◌, subst,
  if◌then◌else◌, leb, ◌&&◌, ltb, get_or, ◌-◌, none,
}

equals_itself : (m : ℕ) → (m == m) ≡ true
equals_itself m = ground arith

module _ (devsw_read : ℕ → Option (ℕ → ℕ → F (Option (List ℕ))))
    (devsw_write : ℕ → Option (ℕ → List ℕ → F (Option ℕ))) (piperead : ℕ → ℕ → F (Option (List ℕ)))
    (pipewrite : ℕ → List ℕ → F (Option ℕ)) where
  write_chunk_lem :
      (s : Fs) (ip : Inode) (f : File) (src : List ℕ)
      → IsReady s f.ip ip
      → f.off + length src ≤ ip.size
      → (t : Fs) × (write_chunk devsw_read devsw_write piperead pipewrite f src s
          ≡ done (some (length src)) t)
        × Writes s f.ip ip f.off src t
  unfolding write_chunk
  write_chunk_lem s ip f src r h =
      let write : F (Option ℕ) = writei devsw_read devsw_write f.ip f.off src in
      let (t, e, m, is, c) =
        writei_lem devsw_read devsw_write (with_lock f.ip s) f.ip (locked_as true ip) f.off src
          (with_lock-Mapped s f.ip ip r) r.no_device h in
      (
        record t { inodes = s.inodes },
        bind-done s (with_lock f.ip s) (ilock f.ip) (λ z. write >>= λ n. iunlock f.ip >> pure n)
              (ilock_lem s f.ip ip r)
            ∙ (bind-done (with_lock f.ip s) t write (λ n. iunlock f.ip >> pure n) e
                ∙ bind-done t (record t { inodes = s.inodes }) (iunlock f.ip)
                    (λ z. pure (some (length src))) (iunlock_lem s f.ip ip r t is)),
        (
          record {
            mapped = record {
              at_place = r.mapped.at_place;
              full = m.full;
              bounded = m.bounded;
              indirect = m.indirect;
              there = m.there;
              apart = m.apart;
              no_index = m.no_index;
            };
            no_device = r.no_device;
            held = r.held;
            unlocked = r.unlocked;
            read = r.read;
          },
          refl,
          c,
        ),
      )

  -- One round of the loop of filewrite, once its chunk is written.
  module _ (n : ℕ) (s t : Fs) (f : File) (bytes : List ℕ) where
    abbrev part_size : ℕ
    part_size = min (length bytes) max_write

    next : Option ℕ → F (Bool × File)
    next none = pure (false, f)
    next (some m) = elim (m == part_size) [
      | false ↦ stop short_filewrite
      | true ↦ write_loop devsw_read devsw_write piperead pipewrite n (moved m f) (drop m bytes)
    ]

    round_end :
        (length bytes == 0) ≡ true
        → write_loop devsw_read devsw_write piperead pipewrite (suc n) f bytes s ≡ done (true, f) s
    unfolding write_loop
    round_end y = rw (y, write_loop) refl

    round_next :
        (length bytes == 0) ≡ false
        → write_chunk devsw_read devsw_write piperead pipewrite f (take part_size bytes) s
          ≡ done (some (length (take part_size bytes))) t
        → write_loop devsw_read devsw_write piperead pipewrite (suc n) f bytes s
          ≡ write_loop devsw_read devsw_write piperead pipewrite n
              (moved part_size f)
              (drop part_size bytes)
              t
    unfolding write_loop next
    round_next k e =
        rw (k, write_loop)
          (bind-done s t
              (write_chunk devsw_read devsw_write piperead pipewrite f (take part_size bytes)) next
              e
            ∙ (ap (λ k. next (some k) t) (length-take part_size bytes (ground arith))
                ∙ rw (equals_itself part_size, next) refl))

  write_loop_lem :
      (n : ℕ) (s : Fs) (ip : Inode) (f : File) (bytes : List ℕ)
      → IsReady s f.ip ip
      → length bytes ≤ n
      → f.off + length bytes ≤ ip.size
      → (t : Fs) × (write_loop devsw_read devsw_write piperead pipewrite n f bytes s
          ≡ done (true, record f { off = f.off + length bytes }) t)
        × Writes s f.ip ip f.off bytes t
  unfolding write_loop
  write_loop_lem zero s ip f bytes r k h = (
    s,
    ap (λ o. done (true, record f { off = o }) s) (omega arith),
    (r, refl, λ a l. ground arith),
  )
  write_loop_lem (suc n) s ip f bytes r k h = elim (Bool-cases (length bytes == 0)) [
    | inl y ↦
        let z : length bytes ≡ 0 = ground arith in
        (
          s,
          round_end n s s f bytes y ∙ ap (λ o. done (true, record f { off = o }) s) (omega arith),
          (r, refl, λ a l. ground arith),
        )
    | inr z ↦
        let m : ℕ = part_size n s s f bytes in
        let small : m ≤ length bytes = ground arith in
        let some_left : 0 < m = ground arith in
        let bound = r.mapped.bounded in
        let taken = length-take m bytes small in
        let left = length-drop m bytes in
        let (t, e, w) = write_chunk_lem s ip f (take m bytes) r (omega (arith, taken)) in
        let off : (f.off + m) % 2 ^ 32 ≡ f.off + m = omega arith in
        let (u, e', w') =
          write_loop_lem n t ip (moved m f) (drop m bytes) w.0 (omega (arith, left))
            (omega (arith, left, off)) in
        let c : Overwritten ip t u (f.off + m) (drop m bytes) =
          subst (λ o. Overwritten ip t u o (drop m bytes)) off w'.2 in
        (
          u,
          round_next n s t f bytes z e
              ∙ (e' ∙ ap (λ o. done (true, record f { off = o }) u) (omega (arith, left, off))),
          (
            w'.0,
            w'.1 ∙ w.1,
            λ a l.
                c a l
                ∙ joined bytes f.off m a (content ip s.block a) (content ip t.block a) small (
                    w.2 a l
                    ∙ ap
                        (λ k.
                          if leb f.off a && ltb a (f.off + k)
                          then get_or (take m bytes) (a - f.off) 0
                          else content ip s.block a)
                        taken),
          ),
        )
  ]

  abbrev answer : List ℕ → Bool × File → F (Option ℕ × File)
  answer bytes (all, g) = pure (if all then some (length bytes) else none, g)

  filewrite-write_loop :
      (s : Fs) (f : File) (bytes : List ℕ)
      → f.writable ≡ true
      → f.type ≡ fd_inode
      → filewrite devsw_read devsw_write piperead pipewrite f bytes s
        ≡ (write_loop devsw_read devsw_write piperead pipewrite (length bytes) f bytes
              >>= answer bytes)
            s
  unfolding filewrite
  filewrite-write_loop s f bytes w i = simp (w, i, filewrite) refl

  -- filewrite to a file open for writing on an inode, in the range of blocks that are there: all the bytes are
  -- written at the offset, no other byte of the file changes, the offset moves behind them, and the lock of the
  -- inode is open again.
  pub filewrite_lem :
      (s : Fs) (ip : Inode) (f : File) (bytes : List ℕ)
      → IsReady s f.ip ip
      → f.writable ≡ true
      → f.type ≡ fd_inode
      → f.off + length bytes ≤ ip.size
      → (t : Fs) × (filewrite devsw_read devsw_write piperead pipewrite f bytes s
          ≡ done (some (length bytes), record f { off = f.off + length bytes }) t)
        × Writes s f.ip ip f.off bytes t
  filewrite_lem s ip f bytes r w i h =
      let (t, e, k) = write_loop_lem (length bytes) s ip f bytes r (omega arith) h in
      let loop = write_loop devsw_read devsw_write piperead pipewrite (length bytes) f bytes in
      (t, filewrite-write_loop s f bytes w i ∙ bind-done s t loop (answer bytes) e, k)
