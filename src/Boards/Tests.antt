-- ===== src/Boards/Tests.antt =====
-- The handlers over a board in memory.
mod Handlers
