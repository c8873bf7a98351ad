-- ===== src/Sync/Tests.antt =====
-- A client that follows two tasks through a deletion.
mod Follow
