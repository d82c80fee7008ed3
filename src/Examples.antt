-- ===== src/Examples.antt =====
-- Concrete sessions, leases and kernels: the inputs at which the theorems are tried.
pub mod Data
pub mod Registry
pub mod Results
pub mod Leases
pub mod Streams
pub mod Output
pub mod Delivery
pub mod Kernels
pub mod Sessions
pub mod Programs
