-- ===== src/Services.antt =====
-- HW2/service.c: a tree of services, one process each, under the service "Manager".
pub mod Types
pub mod Handlers
pub mod Manager
pub mod Messages
pub mod Search
pub mod Growth
pub mod Kills
pub mod Loop
pub mod Descriptors
pub mod Spec
pub mod Forests
pub mod Refinement
mod Tests
