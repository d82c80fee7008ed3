-- ===== src/Manager.antt =====
-- resource/manager.py: the registry of kernels. Each section of the code under the registry lock is
-- one function, and the sections of concurrent calls may follow one another in any order.
pub mod State
pub mod Admit
pub mod Names
pub mod Claims
pub mod Detach
pub mod Sweep
pub mod Rename
pub mod Recycle
pub mod Paths
pub mod Reach
