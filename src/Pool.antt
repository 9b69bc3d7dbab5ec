-- ===== src/Pool.antt =====
-- The thread pool of HW4: my_pool.h and my_pool.c, its workers and one client thread.
pub mod Types
pub mod Steps
pub mod Invariant
pub mod Safety
pub mod Holders
pub mod Ranks
pub mod Progress
pub mod Programs
mod Tests
