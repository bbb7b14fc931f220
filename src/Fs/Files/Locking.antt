-- ===== src/Fs/Files/Locking.antt =====
-- file.c: the lock of an inode around a write of its file, and what the write leaves.

use mathlib.Core.Option
use os192_ass2_multi_thread.Fs.Content.Mapping.{Mapped}
use os192_ass2_multi_thread.Fs.Content.Transfer.{Overwritten}
use os192_ass2_multi_thread.Fs.Content.{t_dev}
use os192_ass2_multi_thread.Fs.Inodes.{ilock, iunlock}
use os192_ass2_multi_thread.Fs.{Fs, Inode, done}
use os192_ass2_multi_thread.Base.{
  ℕ, List, Bool, modify, get_elem?, some, true, false, arith, ◌≢◌, ◌≡◌, get_elem?-modify_self, ◌<◌,
  ◌∙◌, ap, modify-modify, modify_fixed, sym,
}

-- A file that a process may write: its inode is in the cache, read, and not locked; its blocks are there up to its size.
pub record IsReady (s : Fs) (i : ℕ) (ip : Inode) : Type 0 where
  pub mapped : Mapped s i ip ip.size
  pub no_device : ip.type ≢ t_dev
  pub held : 0 < ip.ref
  pub unlocked : ip.locked ≡ false
  pub read : ip.valid ≡ true

abbrev pub locked_as : Bool → Inode → Inode
locked_as b ip = record ip { locked = b }

abbrev pub with_lock : ℕ → Fs → Fs
with_lock i s = record s { inodes = modify s.inodes i (locked_as true) }

module _ (s : Fs) (i : ℕ) (ip : Inode) (ready : IsReady s i ip) where
  pub ilock_lem : ilock i s ≡ done tt (with_lock i s)
  unfolding ilock
  ilock_lem = ground (arith, ready.mapped.at_place, ready.held, ready.unlocked, ready.read)

  pub with_lock-Mapped : Mapped (with_lock i s) i (locked_as true ip) ip.size
  with_lock-Mapped = record {
    at_place =
        get_elem?-modify_self s.inodes i (locked_as true)
        ∙ ap (Option.map (locked_as true)) ready.mapped.at_place;
    full = ready.mapped.full;
    bounded = ready.mapped.bounded;
    indirect = ready.mapped.indirect;
    there = ready.mapped.there;
    apart = ready.mapped.apart;
    no_index = ready.mapped.no_index;
  }

  restored : modify (with_lock i s).inodes i (locked_as false) ≡ s.inodes
  restored =
      modify-modify s.inodes i (locked_as true) (locked_as false)
      ∙ modify_fixed s.inodes i (locked_as false) ip ready.mapped.at_place
          (ap (λ b. record ip { locked = b }) (sym ready.unlocked))

  -- The lock of what was locked is opened.
  pub iunlock_lem :
      (t : Fs)
      → t.inodes ≡ (with_lock i s).inodes
      → iunlock i t ≡ done tt (record t { inodes = s.inodes })
  unfolding iunlock
  iunlock_lem t e =
      let at : get_elem? t.inodes i ≡ some (locked_as true ip) =
        ap (λ l. get_elem? l i) e ∙ with_lock-Mapped.at_place in
      let back : modify t.inodes i (locked_as false) ≡ s.inodes =
        ap (λ l. modify l i (locked_as false)) e ∙ restored in
      ground (arith, at, back, ready.held)

-- `t` is `s` but for the blocks, and the file is still as `IsReady` says.
abbrev pub Writes : Fs → ℕ → Inode → ℕ → List ℕ → Fs → Type 0
Writes s i ip off src t = IsReady t i ip × (t.inodes ≡ s.inodes) × Overwritten ip s t off src
