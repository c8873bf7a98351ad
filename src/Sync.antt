-- ===== src/Sync.antt =====
-- src/modules/sync: what an offline client asks for when it comes back.
pub mod Delta
pub mod Timeline
pub mod Replica
pub mod Subtasks
mod Tests
