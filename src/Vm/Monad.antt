-- ===== src/Vm/Monad.antt =====
-- vm.c and kalloc.c: the state of physical memory, and its pages.
use os192_ass2_multi_thread.Base.{
  ℕ, Option, if◌then◌else◌, Bool, ◌%◌, ◌*◌, [], ◌/◌, List, ◌∷◌, none, ltb, ◌^◌, ◌+◌, ◌==◌, some,
}
use os192_ass2_multi_thread.Kalloc.{bad_page, pgsize, kernbase}
use os192_ass2_multi_thread.Fs.Bytes.{read32, write32}

-- Physical memory, the free frames, and the address where the kernel ends.
pub record Vm : Type 0 where
  pub mem : ℕ → ℕ → ℕ
  pub free : List ℕ
  pub kernel_end : ℕ

pub data VmPanic : Type 0 where
  remap kfree_panic phystop_too_high more_than_a_page clearpteu_panic pte_should_exist
        page_not_present null_page null_pte :
      VmPanic

pub data Outcome (A : Type 0) : Type 0 where
  done : A → Vm → Outcome A
  stopped : VmPanic → Outcome A

abbrev pub OnVm : Type 0 → Type 0
OnVm A = Vm → Outcome A

abbrev pub pure : {A : Type 0} → A → OnVm A
pure a s = done a s

infixl 5 ◌>>=◌ ◌>>◌
abbrev pub ◌>>=◌ : {A B : Type 0} → OnVm A → (A → OnVm B) → OnVm B
◌>>=◌ m f s = elim (m s) [ done a t ↦ f a t | stopped e ↦ stopped e ]

abbrev pub ◌>>◌ : {B : Type 0} → OnVm (Unit {0}) → OnVm B → OnVm B
m >> n = m >>= λ _. n

abbrev pub stop : {A : Type 0} → VmPanic → OnVm A
stop e s = stopped e

-- The P2V of a frame's address.
abbrev pub p2v : ℕ → ℕ
p2v f = (f * pgsize + kernbase) % 2 ^ 32

-- kfree and kalloc of kalloc.c, on frames. What a page that is freed contains is of no account.
abbrev pub kfree : ℕ → OnVm (Unit {0})
kfree f s =
    if bad_page s.kernel_end (p2v f)
    then stopped kfree_panic
    else done tt (record s { free = f ∷ s.free })

abbrev pub kalloc : OnVm (Option ℕ)
kalloc s = elim s.free [ [] ↦ done none s | f ∷ fs ↦ done (some f) (record s { free = fs }) ]

-- A change of one page.
abbrev pub change : ℕ → (ℕ → ℕ) → Vm → Vm
change f page s = record s { mem = λ g. if g == f then page else s.mem g }

-- `memset(page, 0, PGSIZE)`
abbrev pub zeroed : (ℕ → ℕ) → ℕ → ℕ
zeroed page o = if ltb o pgsize then 0 else page o

-- Entry `i` of the table in frame `f`.
unfoldable pub word : Vm → ℕ → ℕ → ℕ
word s f i = read32 (s.mem f) (4 * i)

unfoldable pub set_word : ℕ → ℕ → ℕ → Vm → Vm
set_word f i w s = change f (write32 (4 * i) w (s.mem f)) s

abbrev pub load : ℕ → ℕ → OnVm ℕ
load f i s = done (word s f i) s

abbrev pub store : ℕ → ℕ → ℕ → OnVm (Unit {0})
store f i w s = done tt (set_word f i w s)

-- PDX, PTX, PGROUNDDOWN
abbrev pub pdx : ℕ → ℕ
pdx va = va / 2 ^ 22 % 1024

abbrev pub ptx : ℕ → ℕ
ptx va = va / 2 ^ 12 % 1024

abbrev pub pgrounddown : ℕ → ℕ
pgrounddown a = a / pgsize * pgsize

-- The bits of an entry: PTE_P and PTE_U, the frame of PTE_ADDR, and PTE_FLAGS.
abbrev pub is_present : ℕ → Bool
is_present w = w % 2 == 1

abbrev pub is_user : ℕ → Bool
is_user w = w / 4 % 2 == 1

abbrev pub frame_of : ℕ → ℕ
frame_of w = w / pgsize

abbrev pub flags_of : ℕ → ℕ
flags_of w = w % pgsize
