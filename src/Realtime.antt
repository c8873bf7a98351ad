-- ===== src/Realtime.antt =====
-- src/modules/realtime: the socket gateway.
pub mod Rooms
pub mod State
pub mod Connection
pub mod Events
pub mod Membership
pub mod Presence
pub mod History
pub mod Lapses
mod Tests
