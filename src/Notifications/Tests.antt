-- ===== src/Notifications/Tests.antt =====
-- The handlers over a table in memory.
mod Inbox
