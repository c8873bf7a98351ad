-- ===== src/Boards.antt =====
-- src/modules/boards: the boards of a project.
pub mod Entities
pub mod Commands
pub mod Guarded
mod Tests
