-- ===== src/Tests.antt =====
-- The theorems applied to concrete kernels, disks, page tables, trees, texts and a console.
pub mod Fixture
pub mod Mutexes
pub mod Processes
pub mod Trees
pub mod Locks
pub mod Users
pub mod Files
pub mod Disks
pub mod Shell
pub mod Directories
pub mod Pages
pub mod Consoles
