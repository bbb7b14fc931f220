-- ===== src/Vm.antt =====
-- vm.c: page tables. Physical memory is a function from page frames and offsets to bytes; an address of a page is
-- `frame * 4096`, and the pages of `kmem.freelist` are the frames of that list. A pointer to an entry is the frame of
-- its table and its index.
pub mod Flags
pub mod Monad
pub mod Walk
pub mod Tables
pub mod Walking
pub mod Mapping
pub mod Rounds
pub mod Pages
pub mod Spaces
pub mod Copyout
