-- ===== src/Notifications.antt =====
-- src/modules/notifications: what users are told of.
pub mod Entities
pub mod Handlers
pub mod Pages
mod Tests
