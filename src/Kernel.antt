-- ===== src/Kernel.antt =====
-- The state of the kernel that proc.c works on, and the effects its functions are written in.
pub mod Types
pub mod Monad
pub mod Locks
pub mod Spec
pub mod Tables
