-- ===== src/Documents/Tests.antt =====
-- Two users who edit one document in memory.
mod Editing
