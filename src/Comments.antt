-- ===== src/Comments.antt =====
-- src/modules/comments: the comments on tasks.
pub mod Entities
pub mod Access
pub mod Store
pub mod Handlers
pub mod Guarded
pub mod Replay
mod Tests
