-- ===== src/Fs/Files/Reading.antt =====
-- file.c: fileread against the bytes of a file, and against filewrite.
use Prim.Native.Nat.{min}
use os192_ass2_multi_thread.Fs.Steps.{bind-done}
use os192_ass2_multi_thread.Fs.Files.Locking.{
  IsReady, Writes, with_lock, locked_as, with_lock-Mapped, ilock_lem, iunlock_lem,
}
use os192_ass2_multi_thread.Fs.Files.Writing.{filewrite_lem}
use os192_ass2_multi_thread.Fs.Content.Mapping.{content}
use os192_ass2_multi_thread.Fs.Content.Reads.{bytes_from}
use os192_ass2_multi_thread.Fs.Content.Transfer.{readi_lem, bytes_from-eq, back}
use os192_ass2_multi_thread.Fs.Content.{readi}
use os192_ass2_multi_thread.Fs.Inodes.{ilock, iunlock}
use os192_ass2_multi_thread.Fs.{Fs, Inode, F, done, pure, ◌>>=◌, ◌>>◌}
use os192_ass2_multi_thread.Fs.Files.{File, fd_inode, fileread, filewrite, moved}
use os192_ass2_multi_thread.Base.{
  ℕ, List, Option, some, none, true, refl, arith, ◌≡◌, ◌+◌, length, ◌≤◌, ◌-◌, ◌<◌, ◌∙◌, ◌^◌, ap,
  inl, inr, get_or,
}

module _ (devsw_read : ℕ → Option (ℕ → ℕ → F (Option (List ℕ))))
    (devsw_write : ℕ → Option (ℕ → List ℕ → F (Option ℕ))) (piperead : ℕ → ℕ → F (Option (List ℕ)))
    (pipewrite : ℕ → List ℕ → F (Option ℕ)) where
  readi-locked :
      (s : Fs) (ip : Inode) (f : File) (n : ℕ)
      → IsReady s f.ip ip
      → f.off ≤ ip.size
      → f.off + n < 2 ^ 32
      → readi devsw_read devsw_write f.ip f.off n (with_lock f.ip s)
        ≡ done
            (some (bytes_from (content ip s.block) f.off (min n (ip.size - f.off))))
            (with_lock f.ip s)
  readi-locked s ip f n r h k =
      elim (readi_lem devsw_read devsw_write (with_lock f.ip s) f.ip (locked_as true ip) f.off n
        (with_lock-Mapped s f.ip ip r) r.no_device (omega arith) (omega arith)) [
          | inl (inl a, e) ↦ absurd (omega arith)
          | inl (inr a, e) ↦ absurd (omega arith)
          | inr (a, b, e) ↦ e
        ]

  -- What fileread makes of the result of readi.
  abbrev got : File → Option (List ℕ) → Option (List ℕ) × File
  got f r = elim r [ none ↦ (none, f) | some bytes ↦ (some bytes, moved (length bytes) f) ]

  fileread-readi :
      (s : Fs) (f : File) (n : ℕ)
      → f.readable ≡ true
      → f.type ≡ fd_inode
      → fileread devsw_read devsw_write piperead pipewrite f n s
        ≡ (ilock f.ip >>= λ z.
              readi devsw_read devsw_write f.ip f.off n >>= λ r. iunlock f.ip >> pure (got f r))
            s
  unfolding fileread
  fileread-readi s f n w i = simp (w, i, fileread) refl

  -- fileread of a file open for reading on an inode whose blocks are there gives the bytes at the offset, up to the
  -- count or to the end of the file, moves the offset behind them, and changes nothing else.
  pub fileread_lem :
      (s : Fs) (ip : Inode) (f : File) (n : ℕ)
      → IsReady s f.ip ip
      → f.readable ≡ true
      → f.type ≡ fd_inode
      → f.off ≤ ip.size
      → f.off + n < 2 ^ 32
      → fileread devsw_read devsw_write piperead pipewrite f n s
        ≡ done (got f (some (bytes_from (content ip s.block) f.off (min n (ip.size - f.off))))) s
  fileread_lem s ip f n r w i h k =
      let read : F (Option (List ℕ)) = readi devsw_read devsw_write f.ip f.off n in
      let bytes = bytes_from (content ip s.block) f.off (min n (ip.size - f.off)) in
      fileread-readi s f n w i
      ∙ (bind-done s (with_lock f.ip s) (ilock f.ip)
            (λ z. read >>= λ r. iunlock f.ip >> pure (got f r)) (ilock_lem s f.ip ip r)
          ∙ (bind-done (with_lock f.ip s) (with_lock f.ip s) read
                (λ r. iunlock f.ip >> pure (got f r)) (readi-locked s ip f n r h k)
              ∙ bind-done (with_lock f.ip s) s (iunlock f.ip) (λ z. pure (got f (some bytes)))
                  (iunlock_lem s f.ip ip r (with_lock f.ip s) refl)))

  -- filewrite and then fileread of as many bytes from the same offset, in the range of blocks that are there, gives
  -- back the bytes, leaves the offset behind them as filewrite did, and changes nothing. filewrite itself changes the
  -- file's bytes in the range alone and leaves the inodes as they were.
  pub filewrite-fileread :
      (s : Fs) (ip : Inode) (f : File) (bytes : List ℕ)
      → IsReady s f.ip ip
      → f.readable ≡ true
      → f.writable ≡ true
      → f.type ≡ fd_inode
      → f.off + length bytes ≤ ip.size
      → (t : Fs) × (g : File) × (filewrite devsw_read devsw_write piperead pipewrite f bytes s
          ≡ done (some (length bytes), g) t)
        × (fileread devsw_read devsw_write piperead pipewrite f (length bytes) t
            ≡ done (some bytes, g) t)
        × Writes s f.ip ip f.off bytes t
  filewrite-fileread s ip f bytes r a b i h =
      let (t, e, w) =
        filewrite_lem devsw_read devsw_write piperead pipewrite s ip f bytes r b i h in
      let bound = r.mapped.bounded in
      let count : min (length bytes) (ip.size - f.off) ≡ length bytes = omega arith in
      let own : bytes_from (content ip t.block) f.off (length bytes) ≡ bytes =
        bytes_from-eq (content ip t.block) f.off bytes (λ k l.
          w.2 (f.off + k) (omega arith)
          ∙ ground (arith, ap (λ k. get_or bytes k 0) (back k f.off))) in
      let reads = fileread_lem t ip f (length bytes) w.0 a i (omega arith) (omega arith) in
      (
        t,
        record f { off = f.off + length bytes },
        e,
        reads
            ∙ (ap (λ n. done (got f (some (bytes_from (content ip t.block) f.off n))) t) count
                ∙ (ap (λ l. done (got f (some l)) t) own
                    ∙ ap (λ o. done (some bytes, record f { off = o }) t) (omega arith))),
        w,
      )
