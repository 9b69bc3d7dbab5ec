-- ===== src/Board.antt =====
-- The bulletin board of HW1: server.c, client.c and hw1.h.
pub mod Server
pub mod Client
pub mod Session
pub mod Display
pub mod Slots
pub mod Storage
pub mod Rounds
pub mod Spec
pub mod Slot
pub mod Connections
pub mod Setup
pub mod Starts
pub mod Lifetime
pub mod Views
pub mod Writing
pub mod Refinement
pub mod Answers
pub mod Visit
pub mod Locking
mod Tests
mod Runs
