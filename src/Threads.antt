-- ===== src/Threads.antt =====
-- The user-level threads of HW3: threadtools.h, threads.c, scheduler.c and main.c.
pub mod Word
pub mod Types
pub mod Bodies
pub mod Signals
pub mod Scheduler
pub mod Machine
pub mod Queues
pub mod Safety
pub mod Totals
pub mod Startup
pub mod Work
pub mod Exclusion
pub mod Ending
pub mod Termination
pub mod Series
pub mod Account
pub mod Masks
pub mod OneSignal
pub mod Ledger
mod Tests
