-- ===== src/Tasks.antt =====
-- src/modules/tasks: tasks, their subtasks, and who may change them.
pub mod Entities
pub mod Access
pub mod Ports
pub mod Store
pub mod Edit
pub mod Create
pub mod Completion
pub mod Guarded
pub mod Assignment
mod Tests
pub mod Memory
pub mod Lookup
